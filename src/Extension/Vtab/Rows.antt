-- ===== src/Extension/Vtab/Rows.antt =====
-- What the table functions of src/lib.rs write, against the columns that `bind` declares.
use mathlib.Core.Path.{subst}
use duckflight_extension.Common.{
  ℕ, zero, suc, ◌-◌, ◌≤◌, ◌<◌, Bool, true, false, ◌||◌, Option, none, some, List, [], ◌≡◌, refl,
  sym, ◌∙◌, arith, leb, ◌==◌, length, take, drop, length-take, length-drop,
}
use duckflight_extension.Abi.{Text, core_abi_v1}
use duckflight_extension.Extension.Results.{ok, continue-ok, Act, ok-eq-ok}
use duckflight_extension.Extension.Protocols.{Protocol, as_str, parse}
use duckflight_extension.Extension.Platform.{
  TableFunction, serve, stop_server, server_list, core_status_table,
}
use duckflight_extension.Extension.Runtime.{CoreRuntime, CoreStatus}
use duckflight_extension.Extension.Tables.{
  boolean, number, Chunk, empty_chunk, wrote, set_len, then_len, set_string, chunk_bounds, set_row,
  set_rows, list_bounds, list_func, status_rows, serve_row, stop_text, once, serve_func, stop_func,
  status_func,
}
use duckflight_extension.Extension.Vtab.{Columns, result_columns, BindData, InitData, func}
use duckflight_extension.Extension.Vtab.Columns.{
  covers, Fits, then_len-ok, none-else, Grown-trans, Grown-wrote, Grown,
}
use duckflight_extension.Extension.Vtab.Written.{
  RowSet, set_string-Grown, set_row-Grown, set_rows-Grown,
}

module _ (nul_error : Text → Text) where
  columns_set : (c r : ℕ) (m : Chunk) → c < 2 → RowSet r m → covers c r m.writes ≡ true
  columns_set zero r m lt set = set.protocol_set
  columns_set (suc zero) r m lt set = set.address_set
  columns_set (suc (suc c)) r m lt set = absurd (omega arith)

  -- The bounds of a page stay within the chunk and the servers.
  chunk_bounds_lem :
      (total start capacity first last : ℕ)
      → chunk_bounds total start capacity ≡ some (first, last)
      → (last - first ≤ capacity) × (last ≤ total)
  unfolding chunk_bounds
  chunk_bounds_lem total start capacity first last h =
      let (inside, some_eq) = none-else (leb total start || (capacity == 0)) _ (first, last) h in
      ground arith

  list_bounds-Fits :
      (snapshots : List (Text × Text)) (capacity : ℕ) (bounds : Option (ℕ × ℕ)) (result : Chunk)
      → ((first last : ℕ)
          → bounds ≡ some (first, last)
          → (last - first ≤ capacity) × (last ≤ length snapshots))
      → list_bounds nul_error snapshots (empty_chunk capacity) bounds ≡ ok result
      → Fits (result_columns server_list) result
  unfolding list_bounds result_columns
  list_bounds-Fits snapshots capacity none result bounded h =
      rw (sym (ok-eq-ok (empty_chunk capacity) result h))
        (record { typed = tt; complete = λ c r lt lt'. absurd (omega arith); within = omega arith })
  list_bounds-Fits snapshots capacity (some (first, last)) result bounded h =
      let (le, le') = bounded first last refl in
      let page = take (last - first) (drop first snapshots) in
      let (m, e, e') =
        then_len-ok (last - first) (set_rows nul_error 0 page (empty_chunk capacity)) result h in
      let (g, sets) =
        set_rows-Grown nul_error (result_columns server_list) refl refl 0 page
          (empty_chunk capacity) m e in
      rw e' (record {
        typed = g.types tt;
        complete = λ c r lt lt'. columns_set c r m lt (
            sets r (omega arith) (
              rw (length-take (last - first) (drop first snapshots), length-drop first snapshots)
                (omega arith)));
        within = rw g.same le;
      })

  empty-Fits : (columns : Columns) (capacity : ℕ) → Fits columns (empty_chunk capacity)
  empty-Fits columns capacity = record {
    typed = tt;
    complete = λ c r lt lt'. absurd (omega arith);
    within = omega arith;
  }

  one_row :
      (columns : Columns) (capacity : ℕ) (m : Chunk)
      → 0 < capacity
      → Grown columns (empty_chunk capacity) m
      → ((c : ℕ) → c < length columns → covers c 0 m.writes ≡ true)
      → Fits columns (set_len 1 m)
  one_row columns capacity m positive g covered = record {
    typed = g.types tt;
    complete = λ c r lt lt'.
        subst (λ q. covers c q m.writes ≡ true) {x = 0} {y = r} (omega arith) (covered c lt);
    within = rw g.same (omega arith);
  }

  serve_row-Fits :
      (protocol : Protocol) (address : Text) (capacity : ℕ) (result : Chunk)
      → 0 < capacity
      → serve_row nul_error protocol address (empty_chunk capacity) ≡ ok result
      → Fits (result_columns (serve protocol)) result
  unfolding serve_row result_columns
  serve_row-Fits protocol address capacity result positive h =
      let (m, e, e') =
        then_len-ok 1 (set_row nul_error 0 (as_str protocol, address) (empty_chunk capacity)) result
          h in
      let (g, set) =
        set_row-Grown nul_error (result_columns (serve protocol)) refl refl 0
          (as_str protocol, address) (empty_chunk capacity) m e in
      rw e' (
        one_row (result_columns (serve protocol)) capacity m positive g
          (λ c lt. columns_set c 0 m lt set))

  stop_row-Fits :
      (value : Text) (capacity : ℕ) (result : Chunk)
      → 0 < capacity
      → then_len 1 (set_string nul_error 0 0 value (empty_chunk capacity)) ≡ ok result
      → Fits (result_columns stop_server) result
  unfolding result_columns
  stop_row-Fits value capacity result positive h =
      let (m, e, e') =
        then_len-ok 1 (set_string nul_error 0 0 value (empty_chunk capacity)) result h in
      let (g, covered) =
        set_string-Grown nul_error (result_columns stop_server) 0 0 value (empty_chunk capacity) m
          refl e in
      rw e' (
        one_row (result_columns stop_server) capacity m positive g
          (λ c lt. subst (λ q. covers q 0 m.writes ≡ true) {x = 0} {y = c} (omega arith) covered))

  status_set :
      (loaded : Bool) (chunk m : Chunk)
      → Grown
          (result_columns core_status_table)
          (wrote (wrote chunk (boolean 0 0 loaded)) (number 1 0 core_abi_v1))
          m
      → covers 2 0 m.writes ≡ true
      → (c : ℕ) → c < 3
      → chunk.writes ≡ []
      → covers c 0 m.writes ≡ true
  status_set loaded chunk m g covered zero lt e = g.keeps 0 0 (rw e refl)
  status_set loaded chunk m g covered (suc zero) lt e = g.keeps 1 0 (rw e refl)
  status_set loaded chunk m g covered (suc (suc zero)) lt e = covered
  status_set loaded chunk m g covered (suc (suc (suc c))) lt e = absurd (omega arith)

  -- With room for a row the slices can be assigned to.
  status_rows-positive :
      (status : CoreStatus) (capacity : ℕ)
      → 0 < capacity
      → status_rows nul_error status (empty_chunk capacity)
        ≡ then_len 1 (
            set_string nul_error 2 0 status.detail (
              wrote
                (wrote (empty_chunk capacity) (boolean 0 0 status.loaded))
                (number 1 0 core_abi_v1)))
  unfolding status_rows
  status_rows-positive status capacity positive = rw (not_zero capacity positive) refl
    where
      not_zero : (n : ℕ) → 0 < n → (n == 0) ≡ false
      not_zero n h = ground arith

  status_rows-Fits :
      (status : CoreStatus) (capacity : ℕ) (result : Chunk)
      → 0 < capacity
      → status_rows nul_error status (empty_chunk capacity) ≡ ok result
      → Fits (result_columns core_status_table) result
  unfolding result_columns
  status_rows-Fits status capacity result positive h =
      let columns = result_columns core_status_table in
      let start = wrote (empty_chunk capacity) (boolean 0 0 status.loaded) in
      let middle = wrote start (number 1 0 core_abi_v1) in
      let (m, e, e') =
        then_len-ok 1 (set_string nul_error 2 0 status.detail middle) result
          (sym (status_rows-positive status capacity positive) ∙ h) in
      let (g, covered) = set_string-Grown nul_error columns 2 0 status.detail middle m refl e in
      let before =
        Grown-trans columns (empty_chunk capacity) start middle
          (Grown-wrote columns (empty_chunk capacity) (boolean 0 0 status.loaded) (refl, positive))
          (Grown-wrote columns start (number 1 0 core_abi_v1) (refl, positive)) in
      rw e' (
        one_row columns capacity m positive
          (Grown-trans columns (empty_chunk capacity) middle m before g)
          (λ c lt. status_set status.loaded (empty_chunk capacity) m g covered c lt refl))

  once-Fits :
      {S : Type 0} (columns : Columns) (done : Bool) (capacity : ℕ) (body : Act S Chunk) (s : S)
      (result : Chunk)
      → ((m : Chunk) → (body s).0 ≡ ok m → Fits columns m)
      → (once nul_error done (empty_chunk capacity) body s).0 ≡ ok result
      → Fits columns result
  unfolding once
  once-Fits columns true capacity body s result fits h =
      rw (sym (ok-eq-ok (empty_chunk capacity) result h)) (empty-Fits columns capacity)
  once-Fits columns false capacity body s result fits h = fits result h

  -- A chunk that a table function returns without an error has the columns that `bind` declared, if
  -- DuckDB handed it over with room for a row: every value is of the type of its column and within
  -- the vectors, and every column of every row has a value.
  pub func-Fits :
      {S : Type 0} (f : TableFunction) (core : CoreRuntime S) (data_ : BindData f)
      (scan : InitData f) (capacity : ℕ) (s : S) (result : Chunk)
      → 0 < capacity
      → (func nul_error f core data_ scan (empty_chunk capacity) s).0 ≡ ok result
      → Fits (result_columns f) result
  unfolding func serve_func stop_func status_func list_func
  func-Fits (serve protocol) core data_ done capacity s result positive h =
      once-Fits (result_columns (serve protocol)) done capacity _ s result
        (λ m e.
          let (bound, _, e') =
            continue-ok (core.start protocol data_.address data_.config_file s).0 _ _ m e in
          serve_row-Fits protocol bound capacity m positive e')
        h
  func-Fits stop_server core data_ done capacity s result positive h =
      once-Fits (result_columns stop_server) done capacity _ s result
        (λ m e.
          let (protocol, _, e') = continue-ok (parse data_.protocol) _ _ m e in
          let (stopped, _, e'') = continue-ok (core.stop protocol data_.address s).0 _ _ m e' in
          stop_row-Fits (stop_text protocol data_.address stopped) capacity m positive e'')
        h
  func-Fits server_list core data_ scan capacity s result positive h =
      list_bounds-Fits scan.snapshots capacity
        (chunk_bounds (length scan.snapshots) scan.offset capacity) result
        (chunk_bounds_lem (length scan.snapshots) scan.offset capacity) h
  func-Fits core_status_table core data_ done capacity s result positive h =
      once-Fits (result_columns core_status_table) done capacity _ s result
        (λ m e. status_rows-Fits core.status capacity m positive e) h
