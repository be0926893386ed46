-- ===== src/Extension/Protocols.antt =====
-- `Protocol` of src/lib.rs, and `abi_protocol` and `protocol_name` of src/dynamic_core.rs.
use duckflight_extension.Common.{
  ℕ, zero, suc, ◌+◌, Bool, true, false, ◌&&◌, Option, none, some, List, [], ◌∷◌, ◌++◌, leb, ◌==◌,
  length, if◌then◌else◌,
}
use duckflight_extension.Abi.{Text, pgwire, flight_sql, http, quack}
use duckflight_extension.Extension.Utf8.{ascii, decimal}
use duckflight_extension.Extension.Results.{Result, ok, err}

pub data Protocol : Type 0 where
  pg_wire_protocol flight_sql_protocol http_protocol quack_protocol : Protocol

unfoldable pub as_str : Protocol → Text
as_str pg_wire_protocol = ascii "pgwire"
as_str flight_sql_protocol = ascii "flight"
as_str http_protocol = ascii "http"
as_str quack_protocol = ascii "quack"

-- Equality of texts.
abbrev pub same : Text → Text → Bool
same [] [] = true
same [] (b ∷ bs) = false
same (a ∷ as') [] = false
same (a ∷ as') (b ∷ bs) = (a == b) && same as' bs

abbrev strip_prefix : Text → Text → Option Text
strip_prefix [] bs = some bs
strip_prefix (p ∷ ps) [] = none
strip_prefix (p ∷ ps) (b ∷ bs) = let rest = strip_prefix ps bs in if p == b then rest else none

abbrev strip_any : List Text → Text → Option Text
strip_any [] bs = none
strip_any (p ∷ ps) bs = elim (strip_prefix p bs) [ none ↦ strip_any ps bs | some rest ↦ some rest ]

-- At most every byte of the text is removed, so its length is enough fuel.
abbrev strip_all : ℕ → List Text → Text → Text
strip_all zero ps bs = bs
strip_all (suc fuel) ps bs = elim (strip_any ps bs) [
  | none ↦ bs
  | some rest ↦ strip_all fuel ps rest
]

abbrev reversed_onto : Text → Text → Text
reversed_onto [] out = out
reversed_onto (b ∷ bs) out = reversed_onto bs (b ∷ out)

abbrev reversed : Text → Text
reversed bs = reversed_onto bs []

abbrev reverse_each : List Text → List Text
reverse_each [] = []
reverse_each (p ∷ ps) = reversed p ∷ reverse_each ps

-- The characters of the Unicode property White_Space.
abbrev white_space : List Text
white_space =
    (9 ∷ [])
    ∷ (10 ∷ [])
    ∷ (11 ∷ [])
    ∷ (12 ∷ [])
    ∷ (13 ∷ [])
    ∷ (32 ∷ [])
    ∷ (0xc2 ∷ 0x85 ∷ [])
    ∷ (0xc2 ∷ 0xa0 ∷ [])
    ∷ (0xe1 ∷ 0x9a ∷ 0x80 ∷ [])
    ∷ (0xe2 ∷ 0x80 ∷ 0x80 ∷ [])
    ∷ (0xe2 ∷ 0x80 ∷ 0x81 ∷ [])
    ∷ (0xe2 ∷ 0x80 ∷ 0x82 ∷ [])
    ∷ (0xe2 ∷ 0x80 ∷ 0x83 ∷ [])
    ∷ (0xe2 ∷ 0x80 ∷ 0x84 ∷ [])
    ∷ (0xe2 ∷ 0x80 ∷ 0x85 ∷ [])
    ∷ (0xe2 ∷ 0x80 ∷ 0x86 ∷ [])
    ∷ (0xe2 ∷ 0x80 ∷ 0x87 ∷ [])
    ∷ (0xe2 ∷ 0x80 ∷ 0x88 ∷ [])
    ∷ (0xe2 ∷ 0x80 ∷ 0x89 ∷ [])
    ∷ (0xe2 ∷ 0x80 ∷ 0x8a ∷ [])
    ∷ (0xe2 ∷ 0x80 ∷ 0xa8 ∷ [])
    ∷ (0xe2 ∷ 0x80 ∷ 0xa9 ∷ [])
    ∷ (0xe2 ∷ 0x80 ∷ 0xaf ∷ [])
    ∷ (0xe2 ∷ 0x81 ∷ 0x9f ∷ [])
    ∷ (0xe3 ∷ 0x80 ∷ 0x80 ∷ [])
    ∷ []

-- `str::trim`
unfoldable pub trim : Text → Text
trim bs =
    let front = strip_all (length bs) white_space bs in
    reversed (strip_all (length front) (reverse_each white_space) (reversed front))

unfoldable pub to_ascii_lowercase : Text → Text
to_ascii_lowercase [] = []
to_ascii_lowercase (b ∷ bs) =
    (if leb b'A' b && leb b b'Z' then b + 32 else b) ∷ to_ascii_lowercase bs

unfoldable pub parse_name : Text → Result Protocol
parse_name name =
    if same name (ascii "pgwire")
    then ok pg_wire_protocol
    else if same name (ascii "postgres")
    then ok pg_wire_protocol
    else if same name (ascii "postgresql")
    then ok pg_wire_protocol
    else if same name (ascii "flight")
    then ok flight_sql_protocol
    else if same name (ascii "http")
    then ok http_protocol
    else if same name (ascii "quack")
    then ok quack_protocol
    else err (ascii "unsupported DuckFlight extension protocol: " ++ name)

-- `Protocol::parse`
unfoldable pub parse : Text → Result Protocol
unfolding parse_name trim to_ascii_lowercase
parse raw = parse_name (to_ascii_lowercase (trim raw))

unfoldable pub abi_protocol : Protocol → ℕ
abi_protocol pg_wire_protocol = pgwire
abi_protocol flight_sql_protocol = flight_sql
abi_protocol http_protocol = http
abi_protocol quack_protocol = quack

unfoldable pub protocol_name : ℕ → Result Text
protocol_name protocol =
    if protocol == pgwire
    then ok (ascii "pgwire")
    else if protocol == flight_sql
    then ok (ascii "flight")
    else if protocol == http
    then ok (ascii "http")
    else if protocol == quack
    then ok (ascii "quack")
    else err (ascii "runtime returned unsupported protocol " ++ decimal protocol)
