-- ===== src/Extension/Bundle/Logs.antt =====
-- What the log of a load of src/dynamic_core.rs shows: which libraries were opened from a sealed file,
-- and what is open.
use duckflight_extension.Common.{
  List, ==_refl, ◌==◌, if◌then◌else◌, ℕ, none, some, [], ◌∷◌, ◌≡◌, refl,
}
use duckflight_extension.Abi.{Text}
use duckflight_extension.Extension.Platform.{
  created, written, write_failed, sealed, seal_failed, closed, opened, open_failed, unloaded,
  entered, connected, disconnected, registered, reported, Log,
}
use duckflight_extension.Extension.Bundle.{all_seals, fd_path}

-- The file `fd` has just been filled with `bytes` and sealed against every change.
abbrev pub SealedWith : Text → ℕ → Log → Type 0
SealedWith bytes fd log = (before : Log) × (log ≡ sealed fd all_seals ∷ written fd bytes ∷ before)

-- Every library was opened from such a file.
abbrev pub OpenedSealed : Text → Log → Type 0
OpenedSealed bytes [] = Unit
OpenedSealed bytes (created flags fd ∷ before) = OpenedSealed bytes before
OpenedSealed bytes (written fd text ∷ before) = OpenedSealed bytes before
OpenedSealed bytes (write_failed fd ∷ before) = OpenedSealed bytes before
OpenedSealed bytes (sealed fd seals ∷ before) = OpenedSealed bytes before
OpenedSealed bytes (seal_failed fd ∷ before) = OpenedSealed bytes before
OpenedSealed bytes (closed fd ∷ before) = OpenedSealed bytes before
OpenedSealed bytes (opened path library ∷ before) =
    ((fd : ℕ) × (path ≡ fd_path fd) × SealedWith bytes fd before) × OpenedSealed bytes before
OpenedSealed bytes (open_failed path ∷ before) = OpenedSealed bytes before
OpenedSealed bytes (unloaded library ∷ before) = OpenedSealed bytes before
OpenedSealed bytes (entered library ∷ before) = OpenedSealed bytes before
OpenedSealed bytes (connected database ∷ before) = OpenedSealed bytes before
OpenedSealed bytes (disconnected database ∷ before) = OpenedSealed bytes before
OpenedSealed bytes (registered name f ∷ before) = OpenedSealed bytes before
OpenedSealed bytes (reported text ∷ before) = OpenedSealed bytes before

-- A number without its first occurrence.
abbrev pub remove : ℕ → List ℕ → List ℕ
remove n [] = []
remove n (m ∷ ms) = if m == n then ms else m ∷ remove n ms

-- The descriptors that were created and are not yet closed, the latest first.
abbrev pub open_files : Log → List ℕ
open_files [] = []
open_files (created flags (some fd) ∷ before) = fd ∷ open_files before
open_files (created flags none ∷ before) = open_files before
open_files (written fd text ∷ before) = open_files before
open_files (write_failed fd ∷ before) = open_files before
open_files (sealed fd seals ∷ before) = open_files before
open_files (seal_failed fd ∷ before) = open_files before
open_files (closed fd ∷ before) = remove fd (open_files before)
open_files (opened path library ∷ before) = open_files before
open_files (open_failed path ∷ before) = open_files before
open_files (unloaded library ∷ before) = open_files before
open_files (entered library ∷ before) = open_files before
open_files (connected database ∷ before) = open_files before
open_files (disconnected database ∷ before) = open_files before
open_files (registered name f ∷ before) = open_files before
open_files (reported text ∷ before) = open_files before

-- The libraries that were opened and are not yet closed, the latest first.
abbrev pub open_libraries : Log → List ℕ
open_libraries [] = []
open_libraries (created flags fd ∷ before) = open_libraries before
open_libraries (written fd text ∷ before) = open_libraries before
open_libraries (write_failed fd ∷ before) = open_libraries before
open_libraries (sealed fd seals ∷ before) = open_libraries before
open_libraries (seal_failed fd ∷ before) = open_libraries before
open_libraries (closed fd ∷ before) = open_libraries before
open_libraries (opened path library ∷ before) = library ∷ open_libraries before
open_libraries (open_failed path ∷ before) = open_libraries before
open_libraries (unloaded library ∷ before) = remove library (open_libraries before)
open_libraries (entered library ∷ before) = open_libraries before
open_libraries (connected database ∷ before) = open_libraries before
open_libraries (disconnected database ∷ before) = open_libraries before
open_libraries (registered name f ∷ before) = open_libraries before
open_libraries (reported text ∷ before) = open_libraries before

pub remove-head : (n : ℕ) (ms : List ℕ) → remove n (n ∷ ms) ≡ ms
remove-head n ms = rw (==_refl n) refl

-- Exactly these descriptors and libraries are open.
pub record Holds (bytes : Text) (files libraries : List ℕ) (log : Log) : Type 0 where
  pub safe : OpenedSealed bytes log
  pub held_files : open_files log ≡ files
  pub held_libraries : open_libraries log ≡ libraries
