-- ===== src/Proxy/Json.antt =====
-- The part of `serde_json::Value` that crates/duckflight-idle-proxy/src/main.rs reads and builds.
use Prim.Native.Nat.{ℕ}
use text.Mathlib.Text.{◌==◌ as str_eq}
use duckflight_extension.Common.{
  String, Bool, true, false, Option, none, some, List, [], ◌∷◌, ◌==◌, if◌then◌else◌,
}

-- `serde_json::Number`: `neg_int n` is -(n + 1), and `float` is known by its bits alone.
pub data Number : Type 0 where
  pos_int : ℕ → Number
  neg_int : ℕ → Number
  float : ℕ → Number

mutual
  pub data Json : Type 0 where
    null : Json
    boolean : Bool → Json
    number : Number → Json
    string : String → Json
    array : Items → Json
    object : Fields → Json

  pub data Items : Type 0 where
    nil : Items
    item : Json → Items → Items

  pub data Fields : Type 0 where
    end : Fields
    field : String → Json → Fields → Fields

-- `map.get(key)`
abbrev pub find_field : Fields → String → Option Json
find_field end key = none
find_field (field k v rest) key = if str_eq k key then some v else find_field rest key

abbrev pub or_null : Option Json → Json
or_null none = null
or_null (some v) = v

-- `value[key]`, which is `null` on a missing key and on a value that is no object.
abbrev pub index : Json → String → Json
index (object fields) key = or_null (find_field fields key)
index _ key = null

-- `map.insert(key, value)`
abbrev pub set_field : Fields → String → Json → Fields
set_field end key value = field key value end
set_field (field k v rest) key value =
    if str_eq k key then field k value rest else field k v (set_field rest key value)

abbrev pub is_null : Json → Bool
is_null null = true
is_null _ = false

abbrev pub as_str : Json → Option String
as_str (string s) = some s
as_str _ = none

abbrev pub as_bool : Json → Option Bool
as_bool (boolean b) = some b
as_bool _ = none

abbrev pub as_u64 : Json → Option ℕ
as_u64 (number (pos_int n)) = some n
as_u64 _ = none

abbrev pub items : Items → List Json
items nil = []
items (item v rest) = v ∷ items rest

abbrev pub as_array : Json → Option (List Json)
as_array (array vs) = some (items vs)
as_array _ = none

-- `value == text`
abbrev pub is_text : Json → String → Bool
is_text (string s) text = str_eq s text
is_text _ text = false

-- `value == n` for a small literal `n`: `as_i64` is `None` from 2 ^ 63 on.
abbrev pub is_int : Json → ℕ → Bool
is_int (number (pos_int m)) n = m == n
is_int _ n = false
