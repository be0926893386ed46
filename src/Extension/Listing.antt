-- ===== src/Extension/Listing.antt =====
-- The scan of `duckflight_servers`: `ServerList` of src/lib.rs called again and again.
use mathlib.Core.List.{append-nil, append_assoc}
use duckflight_extension.Common.{
  ℕ, zero, suc, ◌+◌, ◌-◌, ◌*◌, ◌%◌, ◌≤◌, ◌<◌, min, Bool, true, false, not, ◌&&◌, none, some, List,
  [], ◌∷◌, ◌++◌, ◌≡◌, refl, sym, ap, ◌∙◌, arith, leb, leb→le, Bool-cases, inl, inr, length, take,
  drop, concat, pages, length-take, length-drop, take-all, take-min, drop-all, drop-drop,
  concat-pages,
}
use duckflight_extension.Abi.{Text}
use duckflight_extension.Extension.Results.{Result, ok}
use duckflight_extension.Extension.Tables.{
  empty_chunk, Write, text, Chunk, has_nul, wrote, then_len, set_string, usize_size, chunk_bounds,
  ServerListInit, advance, set_row, set_rows, list_bounds, list_func,
}

abbrev pub Server : Type 0
Server = Text × Text

-- No text of the servers has a NUL byte, which SQL values made from C strings cannot have.
unfoldable pub are_clean : List Server → Bool
are_clean [] = true
are_clean ((protocol, address) ∷ servers) =
    not (has_nul protocol) && not (has_nul address) && are_clean servers

-- The writes that put the servers into the rows from `row` on.
abbrev pub writes_of : ℕ → List Server → List Write
writes_of row [] = []
writes_of row ((protocol, address) ∷ servers) =
    text 0 row protocol ∷ text 1 row address ∷ writes_of (row + 1) servers

-- A chunk that shows exactly these servers.
abbrev pub shows : ℕ → List Server → Chunk
shows capacity servers = record {
  capacity = capacity;
  writes = writes_of 0 servers;
  rows = length servers;
}

all_clean :
    (p a rest : Bool) → (not p && not a && rest) ≡ true → (p ≡ false) × (a ≡ false) × (rest ≡ true)
all_clean p a rest h = (ground arith, ground arith, ground arith)

clean_cons :
    (protocol address : Text) (servers : List Server)
    → are_clean ((protocol, address) ∷ servers) ≡ true
    → (has_nul protocol ≡ false) × (has_nul address ≡ false) × (are_clean servers ≡ true)
unfolding are_clean
clean_cons protocol address servers h =
    all_clean (has_nul protocol) (has_nul address) (are_clean servers) h

-- The results of calls that show these pages.
abbrev pub shown : ℕ → List (List Server) → List (Result Chunk)
shown capacity [] = []
shown capacity (page ∷ pages') = ok (shows capacity page) ∷ shown capacity pages'

module _ (nul_error : Text → Text) where
  -- `n` calls with a fresh chunk each.
  abbrev pub scan : ℕ → ℕ → ServerListInit → List (Result Chunk)
  scan zero capacity init = []
  scan (suc n) capacity init =
      let (result, init') = list_func nul_error init (empty_chunk capacity) in
      result ∷ scan n capacity init'

  set_string_lem :
      (column row : ℕ) (value : Text) (chunk : Chunk)
      → has_nul value ≡ false
      → row < chunk.capacity
      → set_string nul_error column row value chunk ≡ ok (wrote chunk (text column row value))
  unfolding set_string
  set_string_lem column row value chunk clean fits = ground arith

  set_row_lem :
      (row : ℕ) (protocol address : Text) (chunk : Chunk)
      → has_nul protocol ≡ false
      → has_nul address ≡ false
      → row < chunk.capacity
      → set_row nul_error row (protocol, address) chunk
        ≡ ok (wrote (wrote chunk (text 0 row protocol)) (text 1 row address))
  unfolding set_row
  set_row_lem row protocol address chunk p a fits = rw (
    set_string_lem 0 row protocol chunk p fits,
    set_string_lem 1 row address (wrote chunk (text 0 row protocol)) a fits,
  )

  set_rows_lem :
      (servers : List Server) (row : ℕ) (chunk : Chunk)
      → are_clean servers ≡ true
      → row + length servers ≤ chunk.capacity
      → set_rows nul_error row servers chunk
        ≡ ok (record {
          capacity = chunk.capacity;
          writes = chunk.writes ++ writes_of row servers;
          rows = chunk.rows;
        })
  unfolding set_rows set_row set_string are_clean
  set_rows_lem [] row chunk clean fits = rw (append-nil chunk.writes)
  set_rows_lem ((protocol, address) ∷ servers) row chunk clean fits =
      let (p, a, rest) = clean_cons protocol address servers clean in
      let next = wrote (wrote chunk (text 0 row protocol)) (text 1 row address) in
      rw (
        set_row_lem row protocol address chunk p a (omega arith),
        set_rows_lem servers (row + 1) next rest (omega arith),
        append_assoc (chunk.writes ++ text 0 row protocol ∷ []) (text 1 row address ∷ [])
            (writes_of (row + 1) servers),
        append_assoc chunk.writes (text 0 row protocol ∷ [])
            (text 1 row address ∷ writes_of (row + 1) servers),
      )

  are_clean-take :
      (n : ℕ) (servers : List Server) → are_clean servers ≡ true → are_clean (take n servers) ≡ true
  unfolding are_clean
  are_clean-take zero servers h = refl
  are_clean-take (suc n) [] h = refl
  are_clean-take (suc n) ((protocol, address) ∷ servers) h =
      let (p, a, rest) = clean_cons protocol address servers h in
      rw (p, a, are_clean-take n servers rest)

  are_clean-drop :
      (n : ℕ) (servers : List Server) → are_clean servers ≡ true → are_clean (drop n servers) ≡ true
  unfolding are_clean
  are_clean-drop zero servers h = h
  are_clean-drop (suc n) [] h = refl
  are_clean-drop (suc n) ((protocol, address) ∷ servers) h =
      are_clean-drop n servers (clean_cons protocol address servers h).2

  written :
      (servers : List Server) (count capacity : ℕ)
      → are_clean servers ≡ true
      → count ≡ length servers
      → count ≤ capacity
      → then_len count (set_rows nul_error 0 servers (empty_chunk capacity))
        ≡ ok (shows capacity servers)
  written servers count capacity clean all fits =
      ap (then_len count) (set_rows_lem servers 0 (empty_chunk capacity) clean (omega arith))
      ∙ ap (λ n. ok (record { capacity = capacity; writes = writes_of 0 servers; rows = n })) all

  bounds_lem :
      (total start capacity : ℕ)
      → 0 < capacity
      → start + capacity < usize_size
      → leb total start ≡ false
      → chunk_bounds total start capacity ≡ some (start, start + min capacity (total - start))
  unfolding chunk_bounds
  bounds_lem total start capacity positive bound h = ground arith

  past_end :
      (total start capacity : ℕ) → leb total start ≡ true → chunk_bounds total start capacity ≡ none
  unfolding chunk_bounds
  past_end total start capacity h = rw h

  in_bounds :
      (servers : List Server) (start count capacity : ℕ)
      → list_bounds nul_error servers (empty_chunk capacity) (some (start, start + count))
        ≡ then_len count
            (set_rows nul_error 0 (take count (drop start servers)) (empty_chunk capacity))
  unfolding list_bounds
  in_bounds servers start count capacity =
      ap
        (λ k.
          then_len k (set_rows nul_error 0 (take k (drop start servers)) (empty_chunk capacity)))
        (let e : start + count - start ≡ count = omega arith in e)

  -- One call shows the next page.
  call_shows :
      (servers : List Server) (start capacity : ℕ)
      → are_clean servers ≡ true
      → 0 < capacity
      → start + capacity < usize_size
      → (list_func nul_error
          (record { snapshots = servers; offset = start })
          (empty_chunk capacity)).0
        ≡ ok (shows capacity (take capacity (drop start servers)))
  unfolding list_func list_bounds
  call_shows servers start capacity clean positive bound =
      elim (Bool-cases (leb (length servers) start)) [
        | inl h ↦
            ap (list_bounds nul_error servers (empty_chunk capacity))
              (past_end (length servers) start capacity h)
            ∙ ap (λ s. ok (shows capacity s))
                (sym (
                  ap (take capacity) (drop-all start servers (leb→le _ _ h))
                  ∙ take-all capacity [] (omega arith)))
        | inr h ↦
            let rest = drop start servers in
            let count = min capacity (length servers - start) in
            let cut : count ≡ min capacity (length rest) =
              omega (arith, length-drop start servers) in
            ap (list_bounds nul_error servers (empty_chunk capacity))
              (bounds_lem (length servers) start capacity positive bound h)
            ∙ in_bounds servers start count capacity
            ∙ ap (λ s. then_len count (set_rows nul_error 0 s (empty_chunk capacity)))
                (take-min capacity count rest cut)
            ∙ written (take capacity rest) count capacity
                (are_clean-take capacity rest (are_clean-drop start servers clean))
                (cut ∙ sym (length-take capacity rest)) (omega arith)
      ]

  scan_from-pages :
      (n capacity start : ℕ) (servers : List Server)
      → are_clean servers ≡ true
      → 0 < capacity
      → start + n * capacity < usize_size
      → scan n capacity (record { snapshots = servers; offset = start })
        ≡ shown capacity (pages n capacity (drop start servers))
  unfolding list_func
  scan_from-pages zero capacity start servers clean positive bound = refl
  scan_from-pages (suc n) capacity start servers clean positive bound =
      let next = start + capacity in
      let page = ok (shows capacity (take capacity (drop start servers))) in
      ap
        (λ r.
          r ∷ scan n capacity (advance capacity (record { snapshots = servers; offset = start })))
        (call_shows servers start capacity clean positive (omega arith))
      ∙ ap (λ o. page ∷ scan n capacity (record { snapshots = servers; offset = o }))
          (let e : next % usize_size ≡ next = omega arith in e)
      ∙ ap (λ rs. page ∷ rs) (scan_from-pages n capacity next servers clean positive (omega arith))
      ∙ ap (λ xs. page ∷ shown capacity (pages n capacity xs))
          (sym (drop-drop capacity start next servers refl))

  -- Calling `duckflight_servers` again and again shows one page of the servers after another, none
  -- larger than the output vectors and each in its own rows from 0 on, and once the calls have room
  -- for all servers, the pages together are exactly the servers in order. The texts have no NUL byte,
  -- and the calls do not reach the limit of `usize`.
  pub scan-pages :
      (n capacity : ℕ) (servers : List Server)
      → are_clean servers ≡ true
      → 0 < capacity
      → length servers ≤ n * capacity
      → n * capacity < usize_size
      → (scan n capacity (record { snapshots = servers; offset = 0 })
          ≡ shown capacity (pages n capacity servers))
        × (concat (pages n capacity servers) ≡ servers)
  scan-pages n capacity servers clean positive enough bound = (
    scan_from-pages n capacity 0 servers clean positive (omega arith),
    concat-pages n capacity servers enough,
  )
