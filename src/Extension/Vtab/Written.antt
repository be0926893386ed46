-- ===== src/Extension/Vtab/Written.antt =====
-- How set_string and the loop over servers of src/lib.rs grow a chunk.
use mathlib.Core.Path.{subst}
use duckflight_extension.Common.{
  ℕ, ◌+◌, ◌≤◌, ◌<◌, true, some, List, [], ◌∷◌, ◌≡◌, sym, arith, leb, length, Bool-cases, inl, inr,
  leb→le,
}
use duckflight_extension.Abi.{Text}
use duckflight_extension.Extension.Results.{ok, ok-eq-ok, else-ok}
use duckflight_extension.Extension.Tables.{
  text, Chunk, has_nul, wrote, set_string, set_row, set_rows,
}
use duckflight_extension.Extension.Vtab.{varchar, Columns}
use duckflight_extension.Extension.Vtab.Columns.{
  column_type, covers, covers-here, and_then-ok, Grown-refl, Grown-trans, Grown-wrote, Grown,
}

-- Both columns of a server have a value.
pub record RowSet (row : ℕ) (chunk : Chunk) : Type 0 where
  pub protocol_set : covers 0 row chunk.writes ≡ true
  pub address_set : covers 1 row chunk.writes ≡ true

module _ (nul_error : Text → Text) where
  set_string-ok :
      (column row : ℕ) (value : Text) (chunk chunk' : Chunk)
      → set_string nul_error column row value chunk ≡ ok chunk'
      → (row < chunk.capacity) × (chunk' ≡ wrote chunk (text column row value))
  unfolding set_string
  set_string-ok column row value chunk chunk' h =
      let (fits, h') = else-ok (leb chunk.capacity row) _ _ chunk' h in
      let (clean, e) = else-ok (has_nul value) _ _ chunk' h' in
      (ground arith, sym (ok-eq-ok (wrote chunk (text column row value)) chunk' e))

  pub set_string-Grown :
      (columns : Columns) (column row : ℕ) (value : Text) (chunk chunk' : Chunk)
      → column_type columns column ≡ some varchar
      → set_string nul_error column row value chunk ≡ ok chunk'
      → Grown columns chunk chunk' × (covers column row chunk'.writes ≡ true)
  set_string-Grown columns column row value chunk chunk' t h =
      let (fits, e) = set_string-ok column row value chunk chunk' h in
      rw e (
        Grown-wrote columns chunk (text column row value) (t, fits),
        covers-here column row value chunk.writes,
      )

  -- Two columns of texts, as of the servers.
  module _ (columns : Columns) (first : column_type columns 0 ≡ some varchar)
      (second : column_type columns 1 ≡ some varchar) where
    pub set_row-Grown :
        (row : ℕ) (server : Text × Text) (chunk chunk' : Chunk)
        → set_row nul_error row server chunk ≡ ok chunk'
        → Grown columns chunk chunk' × RowSet row chunk'
    unfolding set_row
    set_row-Grown row (protocol, address) chunk chunk' h =
        let (middle, e, e') =
          and_then-ok (set_string nul_error 0 row protocol chunk)
            (set_string nul_error 1 row address) chunk' h in
        let (g, covered) = set_string-Grown columns 0 row protocol chunk middle first e in
        let (g', covered') = set_string-Grown columns 1 row address middle chunk' second e' in
        (
          Grown-trans columns chunk middle chunk' g g',
          record { protocol_set = g'.keeps 0 row covered; address_set = covered' },
        )

    pub set_rows-Grown :
        (row : ℕ) (servers : List (Text × Text)) (chunk chunk' : Chunk)
        → set_rows nul_error row servers chunk ≡ ok chunk'
        → Grown columns chunk chunk'
          × ((r : ℕ) → row ≤ r → r < row + length servers → RowSet r chunk')
    unfolding set_rows
    set_rows-Grown row [] chunk chunk' h =
        rw (sym (ok-eq-ok chunk chunk' h))
          (Grown-refl columns chunk, λ r le lt. absurd (omega arith))
    set_rows-Grown row (server ∷ servers) chunk chunk' h =
        let (middle, e, e') =
          and_then-ok (set_row nul_error row server chunk) (set_rows nul_error (row + 1) servers)
            chunk' h in
        let (g, set) = set_row-Grown row server chunk middle e in
        let (g', sets) = set_rows-Grown (row + 1) servers middle chunk' e' in
        (Grown-trans columns chunk middle chunk' g g', rows g' set sets)
      where
        kept :
            {middle : Chunk} → Grown columns middle chunk' → RowSet row middle → RowSet row chunk'
        kept g set = record {
          protocol_set = g.keeps 0 row set.protocol_set;
          address_set = g.keeps 1 row set.address_set;
        }

        rows :
            {middle : Chunk}
            → Grown columns middle chunk'
            → RowSet row middle
            → ((r : ℕ) → row + 1 ≤ r → r < row + 1 + length servers → RowSet r chunk')
            → (r : ℕ) → row ≤ r
            → r < row + length (server ∷ servers)
            → RowSet r chunk'
        rows g set sets r le lt = elim (Bool-cases (leb (row + 1) r)) [
          | inl e ↦ sets r (leb→le (row + 1) r e) (omega arith)
          | inr e ↦ subst (λ q. RowSet q chunk') {x = row} {y = r} (ground arith) (kept g set)
        ]
