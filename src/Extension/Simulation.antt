-- ===== src/Extension/Simulation.antt =====
-- When a core behaves as another to src/lib.rs.
use duckflight_extension.Common.{true, ◌≡◌}
use duckflight_extension.Abi.{Text}
use duckflight_extension.Extension.Utf8.{is_utf8}
use duckflight_extension.Extension.Protocols.{Protocol}
use duckflight_extension.Extension.Runtime.{CoreRuntime}

module _ {S T : Type 0} (R : S → T → Type 0) where
  -- The same result, and states that are still related.
  abbrev pub Alike : {A : Type 0} → A × S → A × T → Type 0
  Alike x y = (x.0 ≡ y.0) × R x.1 y.1

  -- In related states the two cores answer the same to texts in UTF-8, as every `&str` is.
  pub record Simulates (core : CoreRuntime S) (other : CoreRuntime T) : Type 0 where
    pub start :
        (protocol : Protocol) (address config_file : Text) (s : S) (t : T)
        → is_utf8 address ≡ true
        → is_utf8 config_file ≡ true
        → R s t
        → Alike
            (core.start protocol address config_file s)
            (other.start protocol address config_file t)
    pub stop :
        (protocol : Protocol) (address : Text) (s : S) (t : T)
        → is_utf8 address ≡ true
        → R s t
        → Alike (core.stop protocol address s) (other.stop protocol address t)
    pub snapshots : (s : S) (t : T) → R s t → Alike (core.snapshots s) (other.snapshots t)
    pub status : core.status ≡ other.status
