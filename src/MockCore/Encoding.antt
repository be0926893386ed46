-- ===== src/MockCore/Encoding.antt =====
-- How the mock core of test/mock_core/src/lib.rs keeps the servers of the registry, and how texts cross
-- the C ABI to it and back.
use duckflight_extension.Common.{
  ℕ, suc, ◌<◌, Bool, true, false, not, ◌&&◌, ◌||◌, some, List, [], ◌∷◌, ◌++◌, ◌==◌, ◌≡◌, refl, ap,
  ◌∙◌, arith, if◌then◌else◌, length, take-all, Bool-cases, and-both, inl, inr,
}
use duckflight_extension.Abi.{Text, pgwire, flight_sql, http, BytesV1, Handle}
use duckflight_extension.Extension.Utf8.{ascii, is_utf8}
use duckflight_extension.Extension.Results.{ok}
use duckflight_extension.Extension.Protocols.{
  Protocol, pg_wire_protocol, flight_sql_protocol, http_protocol, quack_protocol, as_str,
  abi_protocol, protocol_name,
}
use duckflight_extension.Extension.Core.{from_utf8, borrowed_bytes, borrowed_string, visited, visit}
use duckflight_extension.MockCore.{
  Servers, Heap, borrowed_text, borrowed_str, validate_protocol, bound_address, retain_others,
  any_port,
}
use duckflight_extension.MockCore.Registry.{Running, is_server, has_server, without, bound}

-- The servers as the core keeps them.
abbrev pub encode : Running → Servers
encode [] = []
encode ((protocol, address) ∷ servers) = (abi_protocol protocol, address) ∷ encode servers

abbrev pub all_texts : Running → Bool
all_texts [] = true
all_texts ((protocol, address) ∷ servers) = is_utf8 address && all_texts servers

-- The core at the handle keeps these servers.
pub record Keeps (handle : Handle) (servers : Running) (heap : Heap) : Type 0 where
  pub live : heap.cores handle ≡ some (encode servers)
  pub texts : all_texts servers ≡ true

pub retain_others-encode :
    (protocol : Protocol) (address : Text) (servers : Running)
    → retain_others (abi_protocol protocol) address (encode servers)
      ≡ encode (without protocol address servers)
unfolding retain_others without
retain_others-encode protocol address [] = refl
retain_others-encode protocol address ((protocol', address') ∷ servers) =
    rw (retain_others-encode protocol address servers)
      (pick (is_server protocol address (protocol', address')))
  where
    pick :
        (c : Bool)
        → (if c
            then encode (without protocol address servers)
            else (abi_protocol protocol', address') ∷ encode (without protocol address servers))
          ≡ encode (
              if c
              then without protocol address servers
              else (protocol', address') ∷ without protocol address servers)
    pick true = refl
    pick false = refl

pub encode-append :
    (servers : Running) (protocol : Protocol) (address : Text)
    → encode (servers ++ (protocol, address) ∷ [])
      ≡ encode servers ++ (abi_protocol protocol, address) ∷ []
encode-append [] protocol address = refl
encode-append (server ∷ servers) protocol address =
    ap (λ t. (abi_protocol server.0, server.1) ∷ t) (encode-append servers protocol address)

suc-nonzero : (n : ℕ) → (suc n == 0) ≡ false
suc-nonzero n = ground arith

abbrev Shorter : Bool → ℕ → ℕ → Type 0
Shorter true a b = a < b
Shorter false a b = a ≡ b

weaken : (c : Bool) (a b : ℕ) → Shorter c a b → a < suc b
weaken true a b h = omega arith
weaken false a b h = omega arith

without-Shorter :
    (protocol : Protocol) (address : Text) (servers : Running)
    → Shorter
        (has_server protocol address servers)
        (length (encode (without protocol address servers)))
        (length (encode servers))
unfolding without has_server
without-Shorter protocol address [] = refl
without-Shorter protocol address (server ∷ servers) =
    pick (is_server protocol address server) (has_server protocol address servers)
      (without-Shorter protocol address servers)
  where
    pick :
        (c h : Bool)
        → Shorter h (length (encode (without protocol address servers))) (length (encode servers))
        → Shorter
            (c || h)
            (length (
              encode (
                if c
                then without protocol address servers
                else server ∷ without protocol address servers)))
            (length (encode (server ∷ servers)))
    pick true h s = weaken h _ _ s
    pick false true s = omega arith
    pick false false s = omega arith

-- Removing a server makes the list shorter exactly if it was there.
pub length-without :
    (protocol : Protocol) (address : Text) (servers : Running)
    → (length (encode (without protocol address servers)) == length (encode servers))
      ≡ not (has_server protocol address servers)
length-without protocol address servers =
    differ (has_server protocol address servers) _ _ (without-Shorter protocol address servers)
  where
    differ : (h : Bool) (a b : ℕ) → Shorter h a b → (a == b) ≡ not h
    differ true a b s = ground arith
    differ false a b s = ground arith

pub all_texts-without :
    (protocol : Protocol) (address : Text) (servers : Running)
    → all_texts servers ≡ true
    → all_texts (without protocol address servers) ≡ true
unfolding without
all_texts-without protocol address [] h = refl
all_texts-without protocol address (server ∷ servers) h =
    let (u, t) = and-both (is_utf8 server.1) (all_texts servers) h in
    pick (is_server protocol address server) u (all_texts-without protocol address servers t)
  where
    pick :
        (c : Bool)
        → (is_utf8 server.1 ≡ true)
        → all_texts (without protocol address servers) ≡ true
        → all_texts (
            if c
            then without protocol address servers
            else server ∷ without protocol address servers)
          ≡ true
    pick true u t = t
    pick false u t = rw (u, t) refl

pub all_texts-append :
    (servers : Running) (protocol : Protocol) (address : Text)
    → all_texts servers ≡ true
    → is_utf8 address ≡ true
    → all_texts (servers ++ (protocol, address) ∷ []) ≡ true
all_texts-append [] protocol address h u = rw u refl
all_texts-append (server ∷ servers) protocol address h u =
    let (v, t) = and-both (is_utf8 server.1) (all_texts servers) h in
    rw (v, all_texts-append servers protocol address t u) refl

module _ (utf8_error : Text → Text) where
  pub borrowed_string-from_utf8 :
      (t : Text) → is_utf8 t ≡ true → borrowed_string utf8_error (from_utf8 t) ≡ ok t
  unfolding borrowed_string borrowed_bytes from_utf8
  borrowed_string-from_utf8 [] u = refl
  borrowed_string-from_utf8 (b ∷ bs) u =
      rw (suc-nonzero (length bs), take-all (length bs) bs (omega arith), u) refl

  pub borrowed_str-from_utf8 :
      (t name : Text) → is_utf8 t ≡ true → borrowed_str utf8_error (from_utf8 t) name ≡ ok t
  unfolding borrowed_str borrowed_text from_utf8
  borrowed_str-from_utf8 [] name u = refl
  borrowed_str-from_utf8 (b ∷ bs) name u =
      rw (suc-nonzero (length bs), take-all (length bs) bs (omega arith), u) refl

pub bound-is_utf8 :
    (protocol : Protocol) (address : Text)
    → is_utf8 address ≡ true
    → is_utf8 (bound protocol address) ≡ true
unfolding bound_address is_utf8 abi_protocol
bound-is_utf8 protocol address u = elim (Bool-cases (any_port address)) [
  | inl e ↦ rw e (constant protocol)
  | inr e ↦ rw e u
]
  where
    constant :
        (p : Protocol)
        → is_utf8 (
            if abi_protocol p == pgwire
            then ascii "127.0.0.1:15432"
            else if abi_protocol p == flight_sql
            then ascii "127.0.0.1:15051"
            else if abi_protocol p == http
            then ascii "127.0.0.1:18080"
            else ascii "127.0.0.1:18081")
          ≡ true
    constant pg_wire_protocol = refl
    constant flight_sql_protocol = refl
    constant http_protocol = refl
    constant quack_protocol = refl

pub validate_protocol-abi_protocol :
    (protocol : Protocol) → validate_protocol (abi_protocol protocol) ≡ ok tt
unfolding validate_protocol abi_protocol
validate_protocol-abi_protocol pg_wire_protocol = refl
validate_protocol-abi_protocol flight_sql_protocol = refl
validate_protocol-abi_protocol http_protocol = refl
validate_protocol-abi_protocol quack_protocol = refl

pub protocol_name-as_str :
    (protocol : Protocol) → protocol_name (abi_protocol protocol) ≡ ok (as_str protocol)
unfolding protocol_name abi_protocol as_str
protocol_name-as_str pg_wire_protocol = refl
protocol_name-as_str flight_sql_protocol = refl
protocol_name-as_str http_protocol = refl
protocol_name-as_str quack_protocol = refl

pub visit-nil :
    (utf8_error : Text → Text) (before : List (Text × Text))
    → visit utf8_error (ok before) [] ≡ ok before
unfolding visit
visit-nil utf8_error before = refl

-- One more server that can be read.
pub visit-add :
    (utf8_error : Text → Text) (protocol : ℕ) (bytes : BytesV1) (servers : List (ℕ × BytesV1))
    (before : List (Text × Text)) (name address : Text)
    → protocol_name protocol ≡ ok name
    → borrowed_string utf8_error bytes ≡ ok address
    → visit utf8_error (ok before) ((protocol, bytes) ∷ servers)
      ≡ visit utf8_error (ok (before ++ (name, address) ∷ [])) servers
unfolding visit
visit-add utf8_error protocol bytes servers before name address n a =
    ap
      (λ r.
        visit utf8_error (visited utf8_error (ok before) r (borrowed_string utf8_error bytes))
          servers)
      n
    ∙ ap (λ r. visit utf8_error (visited utf8_error (ok before) (ok name) r) servers) a
