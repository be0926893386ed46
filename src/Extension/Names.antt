-- ===== src/Extension/Names.antt =====
-- The names of the protocols, as SQL reads them and as the core's numbers are shown.
use duckflight_extension.Common.{ℕ, ◌≡◌, refl, ◌↔◌, inl, inr, Bool-cases, arith, ◌==◌}
use duckflight_extension.Abi.{Text, pgwire, flight_sql, http, quack}
use duckflight_extension.Extension.Results.{ok}
use duckflight_extension.Extension.Protocols.{
  Protocol, pg_wire_protocol, flight_sql_protocol, http_protocol, quack_protocol, as_str, parse,
  parse_name, trim, to_ascii_lowercase, abi_protocol, protocol_name,
}

-- The name of every protocol is read back as that protocol.
pub parse-as_str : (p : Protocol) → parse (as_str p) ≡ ok p
unfolding parse parse_name trim to_ascii_lowercase as_str
parse-as_str pg_wire_protocol = refl
parse-as_str flight_sql_protocol = refl
parse-as_str http_protocol = refl
parse-as_str quack_protocol = refl

name_of : (p : Protocol) → protocol_name (abi_protocol p) ≡ ok (as_str p)
unfolding protocol_name abi_protocol as_str
name_of pg_wire_protocol = refl
name_of flight_sql_protocol = refl
name_of http_protocol = refl
name_of quack_protocol = refl

named_by :
    (n : ℕ) (t : Text)
    → protocol_name n ≡ ok t
    → (p : Protocol) × (abi_protocol p ≡ n) × (as_str p ≡ t)
unfolding protocol_name abi_protocol as_str
named_by n t h = elim (Bool-cases (n == pgwire)) [
  | inl e ↦ (pg_wire_protocol, ground arith, ground arith)
  | inr e1 ↦ elim (Bool-cases (n == flight_sql)) [
    | inl e ↦ (flight_sql_protocol, ground arith, ground arith)
    | inr e2 ↦ elim (Bool-cases (n == http)) [
      | inl e ↦ (http_protocol, ground arith, ground arith)
      | inr e3 ↦ elim (Bool-cases (n == quack)) [
        | inl e ↦ (quack_protocol, ground arith, ground arith)
        | inr e4 ↦ ground arith
      ]
    ]
  ]
]

-- A number has a name exactly if it is the number of a protocol, and then it has that protocol's
-- name.
pub protocol_name-abi_protocol :
    (n : ℕ) (t : Text)
    → (protocol_name n ≡ ok t) ↔ ((p : Protocol) × (abi_protocol p ≡ n) × (as_str p ≡ t))
protocol_name-abi_protocol n t = (named_by n t, λ (p, number, name). cc (name_of p))
