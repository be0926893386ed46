-- ===== src/Extension/Servers.antt =====
-- `snapshots` of src/dynamic_core.rs: the visitor on the servers that a core lists.
use mathlib.Core.Path.{subst}
use mathlib.Core.List.{append-nil, append_assoc}
use duckflight_extension.Common.{
  ℕ, ◌≡◌, refl, sym, ap, ◌∙◌, List, [], ◌∷◌, ◌++◌, ◌↔◌, ◌⊎◌, inl, inr,
}
use duckflight_extension.Abi.{Text, BytesV1}
use duckflight_extension.Extension.Results.{Result, ok, err, ok-eq-ok}
use duckflight_extension.Extension.Protocols.{protocol_name}
use duckflight_extension.Extension.Core.{borrowed_string, visited, visit}

module _ (utf8_error : Text → Text) where
  -- The servers of the core with their names and texts, in order.
  pub data Named : List (ℕ × BytesV1) → List (Text × Text) → Type 0 where
    nobody : Named [] []
    server :
        {protocol : ℕ} {bytes : BytesV1} {name address : Text} {servers : List (ℕ × BytesV1)}
        {rest : List (Text × Text)}
        → protocol_name protocol ≡ ok name
        → borrowed_string utf8_error bytes ≡ ok address
        → Named servers rest
        → Named ((protocol, bytes) ∷ servers) ((name, address) ∷ rest)

  visited_err :
      (e : Text) (name address : Result Text)
      → (e' : Text) × (visited utf8_error (err e) name address ≡ err e')
  visited_err e (ok name) (ok address) = (e, refl)
  visited_err e (ok name) (err e') = (e', refl)
  visited_err e (err e') address = (e', refl)

  -- An error is never overcome.
  failed :
      (e : Text) (servers : List (ℕ × BytesV1)) (out : List (Text × Text))
      → visit utf8_error (err e) servers ≡ ok out
      → ⊥
  unfolding visit
  failed e [] out h = cc
  failed e ((protocol, bytes) ∷ servers) out h =
      let (e', still) = visited_err e (protocol_name protocol) (borrowed_string utf8_error bytes) in
      failed e' servers out (rw still at h)

  -- One more server: it is added at the end, or there is no list any more.
  visited_ok :
      (out : List (Text × Text)) (name address : Result Text)
      → ((n : Text) × (a : Text) × (name ≡ ok n) × (address ≡ ok a))
        ⊎ ((e : Text) × (visited utf8_error (ok out) name address ≡ err e))
  visited_ok out (ok name) (ok address) = inl (name, address, refl, refl)
  visited_ok out (ok name) (err e) = inr (e, refl)
  visited_ok out (err e) address = inr (e, refl)

  onto :
      (servers : List (ℕ × BytesV1)) (before out : List (Text × Text))
      → visit utf8_error (ok before) servers ≡ ok out
      → (rest : List (Text × Text)) × (out ≡ before ++ rest) × Named servers rest
  unfolding visit
  onto [] before out h = ([], sym (ok-eq-ok before out h) ∙ sym (append-nil before), nobody)
  onto ((protocol, bytes) ∷ servers) before out h =
      elim (visited_ok before (protocol_name protocol) (borrowed_string utf8_error bytes)) [
        | inl (name, address, n, a) ↦
            let (rest, e, named) =
              onto servers (before ++ (name, address) ∷ []) out (rw (n, a) at h) in
            (
              (name, address) ∷ rest,
              e ∙ append_assoc before ((name, address) ∷ []) rest,
              server n a named,
            )
        | inr (e, broken) ↦ absurd (failed e servers out (rw broken at h))
      ]

  Named-visit :
      {servers : List (ℕ × BytesV1)} {rest : List (Text × Text)} (before : List (Text × Text))
      → Named servers rest
      → visit utf8_error (ok before) servers ≡ ok (before ++ rest)
  unfolding visit
  Named-visit before nobody = ap (λ s. ok s) (sym (append-nil before))
  Named-visit before (server {name = name} {address = address} {rest = rest} n a named) = rw (
    n,
    a,
    Named-visit (before ++ (name, address) ∷ []) named,
    append_assoc before ((name, address) ∷ []) rest,
  )

  -- The list that SQL sees is made exactly if every server that the core lists has a known protocol and
  -- an address that is UTF-8, even if the core goes on after the visitor refused one; and then it has
  -- their names and addresses, in the order of the core.
  pub visit-Named :
      (servers : List (ℕ × BytesV1)) (out : List (Text × Text))
      → (visit utf8_error (ok []) servers ≡ ok out) ↔ Named servers out
  visit-Named servers out = (
    λ h. let (rest, e, named) = onto servers [] out h in subst (λ o. Named servers o) (sym e) named,
    Named-visit [],
  )
