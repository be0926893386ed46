-- ===== src/MockCore/Wanted.antt =====
-- Which servers the mock core of test/mock_core/src/lib.rs lists after commands, whatever their order in
-- the list.
use duckflight_extension.Common.{and-both, ==_refl, ==_sym}
use duckflight_extension.Common.{
  ℕ, suc, ◌+◌, Bool, true, false, not, ◌&&◌, ◌||◌, List, [], ◌∷◌, ◌++◌, some, ◌==◌, ◌≡◌, ◌≢◌, refl,
  sym, ap, ◌∙◌, arith, if◌then◌else◌,
}
use duckflight_extension.Abi.{Text}
use duckflight_extension.Extension.Results.{ok}
use duckflight_extension.Extension.Protocols.{
  Protocol, pg_wire_protocol, flight_sql_protocol, http_protocol, quack_protocol, abi_protocol,
  same,
}
use duckflight_extension.Extension.Core.{DynamicCore, initialize, list_servers, dynamic_core}
use duckflight_extension.MockCore.{Heap, mock_api}
use duckflight_extension.MockCore.Registry.{
  Running, is_server, without, listing, bound, registry, Command, start_server, stop_server,
  show_servers, run, are_texts,
}
use duckflight_extension.MockCore.Refinement.{loaded, list_lem, run_lem, initialize-Keeps}

-- Whether the last command about the server starts it, where a start is about the address that the
-- server gets, and `before` is whether it ran before the commands.
abbrev pub wanted : Protocol → Text → Bool → List Command → Bool
wanted protocol address before [] = before
wanted protocol address before (start_server p a config_file ∷ commands) =
    wanted protocol address (is_server protocol address (p, bound p a) || before) commands
wanted protocol address before (stop_server p a ∷ commands) =
    wanted protocol address (not (is_server protocol address (p, a)) && before) commands
wanted protocol address before (show_servers ∷ commands) = wanted protocol address before commands

-- How often a list has a server.
abbrev pub copies : Protocol → Text → Running → ℕ
copies protocol address [] = 0
copies protocol address (server ∷ servers) =
    if is_server protocol address server
    then suc (copies protocol address servers)
    else copies protocol address servers

abbrev pub once_if : Bool → ℕ
once_if b = if b then 1 else 0

protocol_of : ℕ → Protocol
protocol_of n =
    if n == 1
    then pg_wire_protocol
    else if n == 2
    then flight_sql_protocol
    else if n == 3
    then http_protocol
    else quack_protocol

protocol_of-abi_protocol : (p : Protocol) → protocol_of (abi_protocol p) ≡ p
unfolding abi_protocol protocol_of
protocol_of-abi_protocol pg_wire_protocol = refl
protocol_of-abi_protocol flight_sql_protocol = refl
protocol_of-abi_protocol http_protocol = refl
protocol_of-abi_protocol quack_protocol = refl

equal : (x y : ℕ) → (x == y) ≡ true → x ≡ y
equal x y h = ground arith

abi_protocol-injective : (p q : Protocol) → (abi_protocol p == abi_protocol q) ≡ true → p ≡ q
abi_protocol-injective p q h =
    sym (protocol_of-abi_protocol p)
    ∙ ap protocol_of (equal (abi_protocol p) (abi_protocol q) h)
    ∙ protocol_of-abi_protocol q

same-equal : (a b : Text) → same a b ≡ true → a ≡ b
same-equal [] [] h = refl
same-equal [] (y ∷ b) h = cc
same-equal (x ∷ a) [] h = cc
same-equal (x ∷ a) (y ∷ b) h =
    let (first, rest) = and-both (x == y) (same a b) h in
    ap (λ z. z ∷ a) (equal x y first) ∙ ap (λ t. y ∷ t) (same-equal a b rest)

same_sym : (a b : Text) → same a b ≡ same b a
same_sym [] [] = refl
same_sym [] (y ∷ b) = refl
same_sym (x ∷ a) [] = refl
same_sym (x ∷ a) (y ∷ b) = rw (same_sym a b, ==_sym x y) refl

true-neq-false : true ≡ false → ⊥
true-neq-false h = cc

is_server_sym : (p q : Protocol) (a b : Text) → is_server p a (q, b) ≡ is_server q b (p, a)
is_server_sym p q a b = rw (same_sym a b, ==_sym (abi_protocol p) (abi_protocol q)) refl

is_server-equal :
    (p : Protocol) (a : Text) (server : Protocol × Text)
    → is_server p a server ≡ true
    → server ≡ (p, a)
is_server-equal p a (q, b) h =
    let (first, rest) = and-both (abi_protocol q == abi_protocol p) (same b a) h in
    ap (λ r. (r, b)) (abi_protocol-injective q p first) ∙ ap (λ t. (p, t)) (same-equal b a rest)

is_server-same : (p : Protocol) (a : Text) → is_server p a (p, a) ≡ true
is_server-same p a = rw (same_refl a, ==_refl (abi_protocol p)) refl
  where
    same_refl : (t : Text) → same t t ≡ true
    same_refl [] = refl
    same_refl (x ∷ t) = rw (same_refl t, ==_refl x) refl

copies-append :
    (p : Protocol) (a : Text) (servers : Running) (server : Protocol × Text)
    → copies p a (servers ++ server ∷ []) ≡ copies p a servers + once_if (is_server p a server)
copies-append p a [] server = pick (is_server p a server)
  where
    pick : (b : Bool) → (if b then 1 else 0) ≡ 0 + once_if b
    pick true = refl
    pick false = refl
copies-append p a (other ∷ servers) server =
    rw (copies-append p a servers server)
      (pick (is_server p a other) (copies p a servers) (once_if (is_server p a server)))
  where
    pick : (b : Bool) (n m : ℕ) → (if b then suc (n + m) else n + m) ≡ (if b then suc n else n) + m
    pick true n m = omega arith
    pick false n m = refl

copies-without :
    (p q : Protocol) (a b : Text) (servers : Running)
    → copies p a (without q b servers) ≡ (if is_server q b (p, a) then 0 else copies p a servers)
unfolding without
copies-without p q a b [] = pick (is_server q b (p, a))
  where
    pick : (c : Bool) → copies p a [] ≡ (if c then 0 else copies p a [])
    pick true = refl
    pick false = refl
copies-without p q a b (server ∷ servers) =
    pick (is_server q b server) (is_server q b (p, a)) (is_server p a server)
      (λ e. ap (λ t. is_server q b t) (is_server-equal p a server e))
      (copies-without p q a b servers) refl
  where
    rest : Running
    rest = without q b servers

    pick :
        (c d m : Bool)
        → (m ≡ true → c ≡ d)
        → copies p a rest ≡ (if d then 0 else copies p a servers)
        → is_server p a server ≡ m
        → copies p a (if c then rest else server ∷ rest)
          ≡ (if d then 0 else (if m then suc (copies p a servers) else copies p a servers))
    pick true d false f h e = h
    pick true true true f h e = h
    pick true false true f h e = absurd (true-neq-false (f refl))
    pick false d false f h e = rw e h
    pick false true true f h e = absurd (true-neq-false (sym (f refl)))
    pick false false true f h e = rw e (ap suc h)

-- Adding a server that was removed before leaves one of it.
copies-start :
    (p q : Protocol) (a b : Text) (servers : Running) (before : Bool)
    → copies p a servers ≡ once_if before
    → copies p a (without q b servers ++ (q, b) ∷ []) ≡ once_if (is_server p a (q, b) || before)
copies-start p q a b servers before h =
    rw
      (
        copies-append p a (without q b servers) (q, b),
        copies-without p q a b servers,
        is_server_sym q p b a,
        h,
      )
      (pick (is_server p a (q, b)) before)
  where
    pick : (c d : Bool) → (if c then 0 else once_if d) + once_if c ≡ once_if (c || d)
    pick true d = refl
    pick false true = refl
    pick false false = refl

copies-stop :
    (p q : Protocol) (a b : Text) (servers : Running) (before : Bool)
    → copies p a servers ≡ once_if before
    → copies p a (without q b servers) ≡ once_if (not (is_server p a (q, b)) && before)
copies-stop p q a b servers before h =
    rw (copies-without p q a b servers, is_server_sym q p b a, h)
      (pick (is_server p a (q, b)) before)
  where
    pick : (c d : Bool) → (if c then 0 else once_if d) ≡ once_if (not c && d)
    pick true d = refl
    pick false d = refl

pub copies-run :
    (detail : Text) (p : Protocol) (a : Text) (commands : List Command) (servers : Running)
    (before : Bool)
    → copies p a servers ≡ once_if before
    → copies p a (run (registry detail) commands servers) ≡ once_if (wanted p a before commands)
unfolding run registry
copies-run detail p a [] servers before h = h
copies-run detail p a (start_server q b config_file ∷ commands) servers before h =
    copies-run detail p a commands _ _ (copies-start p q a (bound q b) servers before h)
copies-run detail p a (stop_server q b ∷ commands) servers before h =
    copies-run detail p a commands _ _ (copies-stop p q a b servers before h)
copies-run detail p a (show_servers ∷ commands) servers before h =
    copies-run detail p a commands servers before h

module _ (utf8_error : Text → Text) (detail : Text) (info access : ℕ) (heap : Heap)
    (free : heap.next ≢ 0) (commands : List Command) where
  abbrev code : DynamicCore Heap
  code = loaded heap.next free utf8_error detail

  -- After any commands with UTF-8 texts to a mock core that has just been loaded, its list can be read,
  -- and has once every server whose last command was a start, and no others.
  pub list_servers-wanted :
      are_texts commands ≡ true
      → let heap' =
          run
            (dynamic_core utf8_error code)
            commands
            (initialize (some (mock_api utf8_error)) info access detail heap).1 in
        (servers : Running) × ((list_servers utf8_error code heap').0 ≡ ok (listing servers))
        × ((p : Protocol) (a : Text) → copies p a servers ≡ once_if (wanted p a false commands))
  list_servers-wanted t =
      let loaded_keeps = initialize-Keeps utf8_error detail info access heap free in
      let servers = run (registry detail) commands [] in
      let keeps = run_lem heap.next free utf8_error detail commands [] _ t loaded_keeps in
      (
        servers,
        ap (λ r. r.0) (list_lem heap.next free utf8_error detail servers _ keeps),
        λ p a. copies-run detail p a commands [] false refl,
      )
