-- ===== src/Extension/Build.antt =====
-- build.rs: which bundle, if any, is compiled into the extension.
pub mod Bundles
use duckflight_extension.Common.{
  ℕ, Bool, true, false, Option, none, some, List, [], ◌∷◌, ◌++◌, if◌then◌else◌,
}
use duckflight_extension.Abi.{Text}
use duckflight_extension.Extension.Utf8.{ascii, from_utf8_lossy}
use duckflight_extension.Extension.Results.{Result, ok, err}

-- What the script asks of Cargo and of the file system. Paths and variables are their bytes.
pub record BuildHost : Type 0 where
  pub bundle_path : Option Text  -- `DUCKFLIGHT_CORE_BUNDLE_PATH`
  pub out_dir : Option Text  -- `OUT_DIR`
  pub is_file : Text → Bool
  pub join : Text → Text → Text
  pub copy : Text → Text → Result (Unit {0})

-- The lines that the script prints for Cargo, in order, and its panic.
pub record Built : Type 0 where
  pub lines : List Text
  pub panic : Option Text

abbrev first_lines : List Text
first_lines =
    ascii "cargo:rustc-check-cfg=cfg(duckflight_bundled_core)"
    ∷ ascii "cargo:rerun-if-env-changed=DUCKFLIGHT_CORE_BUNDLE_PATH"
    ∷ []

abbrev pub bundled_cfg : Text
bundled_cfg = ascii "cargo:rustc-cfg=duckflight_bundled_core"

panics : Text → Built
panics text = record { lines = first_lines; panic = some text }

copied : Text → Text → Result (Unit {0}) → Built
unfolding panics
copied source output (ok _) = record {
  lines =
      first_lines ++ (ascii "cargo:rerun-if-changed=" ++ from_utf8_lossy source) ∷ bundled_cfg ∷ [];
  panic = none;
}
copied source output (err e) = panics (
    ascii "copy DuckFlight core bundle "
    ++ from_utf8_lossy source
    ++ ascii " to "
    ++ from_utf8_lossy output
    ++ ascii ": "
    ++ e)

module _ (host : BuildHost) where
  into : Text → Option Text → Built
  unfolding panics copied
  into source none = panics (ascii "Cargo must provide OUT_DIR")
  into source (some directory) =
      let output = host.join directory (ascii "duckflight_core.bundle") in
      copied source output (host.copy source output)

  build_from : Option Text → Built
  unfolding panics into
  build_from none = record { lines = first_lines; panic = none }
  build_from (some source) =
      if host.is_file source
      then into source host.out_dir
      else panics (ascii "DuckFlight core bundle is missing: " ++ from_utf8_lossy source)

  -- `fn main`
  unfoldable pub build_main : Built
  unfolding build_from
  build_main = build_from host.bundle_path
