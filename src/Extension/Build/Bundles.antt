-- ===== src/Extension/Build/Bundles.antt =====
-- When build.rs compiles a bundle into the extension.
use duckflight_extension.Common.{
  Bool, true, false, ◌||◌, ◌++◌, Option, none, some, List, [], ◌∷◌, ◌≡◌, refl, ◌↔◌, if◌then◌else◌,
}
use duckflight_extension.Abi.{Text}
use duckflight_extension.Extension.Utf8.{ascii, from_utf8_lossy}
use duckflight_extension.Extension.Results.{Result, ok, err}
use duckflight_extension.Extension.Protocols.{same}
use duckflight_extension.Extension.Build.{
  BuildHost, Built, bundled_cfg, panics, copied, into, build_from, build_main,
}

-- Whether a line makes the compiler see the bundle.
abbrev pub selects : List Text → Bool
selects [] = false
selects (line ∷ lines) = same line bundled_cfg || selects lines

-- The file that the variable names has been copied to where the extension includes it from.
pub record Bundles (host : BuildHost) : Type 0 where
  pub source : Text
  pub directory : Text
  pub named : host.bundle_path ≡ some source
  pub exists : host.is_file source ≡ true
  pub out : host.out_dir ≡ some directory
  pub copies : host.copy source (host.join directory (ascii "duckflight_core.bundle")) ≡ ok tt

abbrev Selected : Built → Type 0
Selected b = selects b.lines ≡ true

module _ (host : BuildHost) where
  copied-Selected :
      (source output : Text) (r : Result (Unit {0})) → Selected (copied source output r) → r ≡ ok tt
  unfolding copied panics
  copied-Selected source output (ok _) s = refl
  copied-Selected source output (err e) s = cc

  into-Selected :
      (source : Text) (d : Option Text)
      → Selected (into host source d)
      → (directory : Text) × (d ≡ some directory)
        × (host.copy source (host.join directory (ascii "duckflight_core.bundle")) ≡ ok tt)
  unfolding into panics
  into-Selected source none s = cc
  into-Selected source (some directory) s =
      let output = host.join directory (ascii "duckflight_core.bundle") in
      (directory, refl, copied-Selected source output (host.copy source output) s)

  exists-Selected :
      (source : Text) (file : Bool)
      → Selected (
          if file
          then into host source host.out_dir
          else panics (ascii "DuckFlight core bundle is missing: " ++ from_utf8_lossy source))
      → (file ≡ true) × Selected (into host source host.out_dir)
  unfolding panics
  exists-Selected source true s = (refl, s)
  exists-Selected source false s = cc

  from-Selected :
      (path : Option Text)
      → host.bundle_path ≡ path
      → Selected (build_from host path)
      → Bundles host
  unfolding build_from panics
  from-Selected none e s = cc
  from-Selected (some source) e s =
      let (exists, found) = exists-Selected source (host.is_file source) s in
      let (directory, out, copies) = into-Selected source host.out_dir found in
      record {
        source = source;
        directory = directory;
        named = e;
        exists = exists;
        out = out;
        copies = copies;
      }

  -- The script makes the extension include a bundle exactly if the file that
  -- `DUCKFLIGHT_CORE_BUNDLE_PATH` names exists and has been copied to the directory of the build.
  pub build_main-Bundles : (selects (build_main host).lines ≡ true) ↔ Bundles host
  unfolding build_main build_from into copied
  build_main-Bundles = (from-Selected host.bundle_path refl, copied_bundle)
    where
      copied_bundle : Bundles host → selects (build_main host).lines ≡ true
      copied_bundle b = rw (b.named, b.exists, b.out, b.copies) refl
