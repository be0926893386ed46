-- ===== src/Extension/Serving.antt =====
-- The tables that produce one row: the core is called by the first call of a scan only.
use duckflight_extension.Common.{ℕ, zero, suc, ◌≡◌, refl, ap, ◌∙◌, Bool, true, false, List, [], ◌∷◌}
use duckflight_extension.Abi.{Text}
use duckflight_extension.Extension.Results.{Result, ok, err, continue}
use duckflight_extension.Extension.Protocols.{Protocol}
use duckflight_extension.Extension.Runtime.{CoreRuntime}
use duckflight_extension.Extension.Tables.{empty_chunk, Chunk, once, serve_func, serve_row}

module _ {S : Type 0} (func : Bool → Chunk → S → Result Chunk × S × Bool) where
  -- The results of `n` calls with a fresh chunk each, and the core after them.
  abbrev pub calls : ℕ → ℕ → Bool → S → List (Result Chunk) × S
  calls zero capacity done core = ([], core)
  calls (suc n) capacity done core =
      let (result, core', done') = func done (empty_chunk capacity) core in
      let (results, core'') = calls n capacity done' core' in (result ∷ results, core'')

abbrev pub no_rows : ℕ → ℕ → List (Result Chunk)
no_rows zero capacity = []
no_rows (suc n) capacity = ok (empty_chunk capacity) ∷ no_rows n capacity

-- What the first call of a scan returns.
module _ (nul_error : Text → Text) where
  abbrev pub started : Protocol → Result Text → ℕ → Result Chunk
  started protocol (ok bound) capacity = serve_row nul_error protocol bound (empty_chunk capacity)
  started protocol (err e) capacity = err e

module _ {S : Type 0} (nul_error : Text → Text) where
  done_lem :
      (core : CoreRuntime S) (protocol : Protocol) (address config_file : Text) (n capacity : ℕ)
      (s : S)
      → calls (serve_func nul_error core protocol address config_file) n capacity true s
        ≡ (no_rows n capacity, s)
  unfolding serve_func once
  done_lem core protocol address config_file zero capacity s = refl
  done_lem core protocol address config_file (suc n) capacity s =
      ap (λ (r : List (Result Chunk) × S). (ok (empty_chunk capacity) ∷ r.0, r.1))
        (done_lem core protocol address config_file n capacity s)

  started_lem :
      (protocol : Protocol) (r : Result Text × S) (capacity : ℕ)
      → continue r.0
          (λ bound (s : S). (serve_row nul_error protocol bound (empty_chunk capacity), s))
          r.1
        ≡ (started nul_error protocol r.0 capacity, r.1)
  started_lem protocol (ok bound, s) capacity = refl
  started_lem protocol (err e, s) capacity = refl

  -- However often DuckDB calls a serving table function in one scan, the core is asked once to start a
  -- server: its state is what that one call left, only the first chunk can have a row, and all later
  -- ones are empty, also after an error.
  pub calls-serve_func :
      (core : CoreRuntime S) (protocol : Protocol) (address config_file : Text) (n capacity : ℕ)
      (s : S)
      → calls (serve_func nul_error core protocol address config_file) (suc n) capacity false s ≡ (
        started nul_error protocol (core.start protocol address config_file s).0 capacity
            ∷ no_rows n capacity,
        (core.start protocol address config_file s).1,
      )
  unfolding serve_func once
  calls-serve_func core protocol address config_file n capacity s =
      let func = serve_func nul_error core protocol address config_file in
      let first = core.start protocol address config_file s in
      ap
        (λ (p : Result Chunk × S).
          (p.0 ∷ (calls func n capacity true p.1).0, (calls func n capacity true p.1).1))
        (started_lem protocol first capacity)
      ∙ ap
          (λ (q : List (Result Chunk) × S).
            (started nul_error protocol first.0 capacity ∷ q.0, q.1))
          (done_lem core protocol address config_file n capacity first.1)
