-- ===== src/Extension/Vtab/Columns.antt =====
-- When a chunk of a table function of src/lib.rs has the columns that `bind` declares.
use duckflight_extension.Common.{
  ℕ, zero, suc, ◌≤◌, ◌<◌, Bool, true, false, ◌&&◌, ◌||◌, Option, none, some, List, [], ◌∷◌, ◌++◌,
  ◌≡◌, refl, ◌∙◌, arith, ◌==◌, length, if◌then◌else◌,
}
use duckflight_extension.Abi.{Text}
use duckflight_extension.Extension.Results.{Result, ok, err}
use duckflight_extension.Extension.Tables.{
  Write, text, boolean, number, Chunk, wrote, set_len, and_then, then_len,
}
use duckflight_extension.Extension.Vtab.{LogicalType, varchar, boolean_type, ubigint, Columns}

abbrev pub column_type : Columns → ℕ → Option LogicalType
column_type [] c = none
column_type ((name, type) ∷ columns) zero = some type
column_type ((name, type) ∷ columns) (suc c) = column_type columns c

-- A value goes to a column of its type, in a row that the vectors have.
abbrev pub Typed : Columns → ℕ → Write → Type 0
Typed columns capacity (text c r v) = (column_type columns c ≡ some varchar) × (r < capacity)
Typed columns capacity (boolean c r v) =
    (column_type columns c ≡ some boolean_type) × (r < capacity)
Typed columns capacity (number c r v) = (column_type columns c ≡ some ubigint) × (r < capacity)

abbrev pub AllTyped : Columns → ℕ → List Write → Type 0
AllTyped columns capacity [] = Unit
AllTyped columns capacity (w ∷ ws) = Typed columns capacity w × AllTyped columns capacity ws

abbrev pub at_cell : ℕ → ℕ → Write → Bool
at_cell c r (text c' r' v) = (c == c') && (r == r')
at_cell c r (boolean c' r' v) = (c == c') && (r == r')
at_cell c r (number c' r' v) = (c == c') && (r == r')

-- Whether a cell has been written.
abbrev pub covers : ℕ → ℕ → List Write → Bool
covers c r [] = false
covers c r (w ∷ ws) = at_cell c r w || covers c r ws

-- Every value has the type of its column, and every column of every row has a value.
pub record Fits (columns : Columns) (chunk : Chunk) : Type 0 where
  pub typed : AllTyped columns chunk.capacity chunk.writes
  pub complete : (c r : ℕ) → c < length columns → r < chunk.rows → covers c r chunk.writes ≡ true
  pub within : chunk.rows ≤ chunk.capacity

pub AllTyped-append :
    (columns : Columns) (capacity : ℕ) (ws : List Write) (w : Write)
    → AllTyped columns capacity ws
    → Typed columns capacity w
    → AllTyped columns capacity (ws ++ w ∷ [])
AllTyped-append columns capacity [] w all t = (t, tt)
AllTyped-append columns capacity (w' ∷ ws) w all t =
    (all.0, AllTyped-append columns capacity ws w all.1 t)

pub covers-keep :
    (c r : ℕ) (ws : List Write) (w : Write)
    → covers c r ws ≡ true
    → covers c r (ws ++ w ∷ []) ≡ true
covers-keep c r [] w h = cc
covers-keep c r (w' ∷ ws) w h =
    or_mono (at_cell c r w') (covers c r ws) (covers c r (ws ++ w ∷ [])) (covers-keep c r ws w) h
  where
    or_mono : (a b b' : Bool) → (b ≡ true → b' ≡ true) → (a || b) ≡ true → (a || b') ≡ true
    or_mono true b b' m h = refl
    or_mono false b b' m h = m h

pub covers-here : (c r : ℕ) (v : Text) (ws : List Write) → covers c r (ws ++ text c r v ∷ []) ≡ true
covers-here c r v [] = ground arith
covers-here c r v (w ∷ ws) = rw (covers-here c r v ws) (or_true (at_cell c r w))
  where
    or_true : (a : Bool) → (a || true) ≡ true
    or_true true = refl
    or_true false = refl

pub and_then-ok :
    (r : Result Chunk) (k : Chunk → Result Chunk) (x : Chunk)
    → and_then r k ≡ ok x
    → (m : Chunk) × (r ≡ ok m) × (k m ≡ ok x)
and_then-ok (ok m) k x h = (m, refl, h)
and_then-ok (err e) k x h = cc

pub then_len-ok :
    (n : ℕ) (r : Result Chunk) (x : Chunk)
    → then_len n r ≡ ok x
    → (m : Chunk) × (r ≡ ok m) × (x ≡ set_len n m)
then_len-ok n (ok m) x h = (m, refl, cc)
then_len-ok n (err e) x h = cc

pub none-else :
    {A : Type 0} (c : Bool) (a b : A)
    → (if c then none else some a) ≡ some b
    → (c ≡ false) × (a ≡ b)
none-else true a b h = cc
none-else false a b h = (refl, cc)

-- More has been written, into the columns.
pub record Grown (columns : Columns) (before after : Chunk) : Type 0 where
  pub same : after.capacity ≡ before.capacity
  pub keeps : (c r : ℕ) → covers c r before.writes ≡ true → covers c r after.writes ≡ true
  pub types :
      AllTyped columns before.capacity before.writes → AllTyped columns after.capacity after.writes

pub Grown-refl : (columns : Columns) (chunk : Chunk) → Grown columns chunk chunk
Grown-refl columns chunk = record { same = refl; keeps = λ c r h. h; types = λ t. t }

pub Grown-trans :
    (columns : Columns) (x y z : Chunk) → Grown columns x y → Grown columns y z → Grown columns x z
Grown-trans columns x y z g h = record {
  same = h.same ∙ g.same;
  keeps = λ c r k. h.keeps c r (g.keeps c r k);
  types = λ t. h.types (g.types t);
}

pub Grown-wrote :
    (columns : Columns) (chunk : Chunk) (w : Write)
    → Typed columns chunk.capacity w
    → Grown columns chunk (wrote chunk w)
Grown-wrote columns chunk w t = record {
  same = refl;
  keeps = λ c r h. covers-keep c r chunk.writes w h;
  types = λ all. AllTyped-append columns chunk.capacity chunk.writes w all t;
}
