-- ===== src/Proxy/Config/Bounds.antt =====
-- The numbers that `Config::from_env` of crates/duckflight-idle-proxy/src/main.rs accepts.
use duckflight_extension.Common.{
  ℕ, ◌+◌, ◌*◌, ◌^◌, ◌≤◌, ◌<◌, String, Option, none, some, List, [], ◌∷◌, ◌++◌, ◌≡◌, refl, arith,
  length, length-append,
}
use duckflight_extension.Proxy.Text.{parse_uint, unsigned, in_range}
use duckflight_extension.Proxy.World.{
  Error, external, Result, ok, err, ◌>>=◌, continue, Environment, Io, Trace, pure, from_option,
  read_certificate,
}
use duckflight_extension.Proxy.Config.{Config, var, parsed, listener, some_listener, from_env}

abbrev pub AllBelow : ℕ → List ℕ → Type 0
AllBelow limit [] = Unit
AllBelow limit (n ∷ ns) = (n < limit) × AllBelow limit ns

abbrev pub IsSeconds : ℕ → Type 0
IsSeconds duration = (n : ℕ) × (n < 2 ^ 64) × (duration ≡ n * 1000)

-- The ports are ports, there are one or two listeners, and the timeouts are whole seconds that fit in `u64`.
pub record Bounded (c : Config) : Type 0 where
  pub control : c.control_port < 2 ^ 16
  pub listeners : AllBelow (2 ^ 16) c.listeners
  pub some : 1 ≤ length c.listeners
  pub at_most_two : length c.listeners ≤ 2
  pub idle : IsSeconds c.idle_timeout
  pub cold_start : IsSeconds c.cold_start_timeout

in_range-bound : (limit : ℕ) (n : Option ℕ) (a : ℕ) → in_range limit n ≡ some a → a < limit
unfolding in_range
in_range-bound limit none a e = ground arith
in_range-bound limit (some n) a e = ground arith

parse_uint-bound : (w : ℕ) (text : String) (a : ℕ) → parse_uint w text ≡ some a → a < 2 ^ w
unfolding parse_uint
parse_uint-bound w text a e = in_range-bound (2 ^ w) (unsigned text) a e

-- What is returned has the property, whatever the log is.
Accepted : {A : Type 0} → (A → Type 0) → Result A × Trace → Type 0
Accepted Q (ok a, t) = Q a
Accepted Q (err e, t) = Unit

record Accepts {A : Type 0} (m : Io A) (Q : A → Type 0) : Type 0 where
  at : (t : Trace) → Accepted Q (m t)

module _ {A : Type 0} where
  Accepts-pure : {Q : A → Type 0} (a : A) → Q a → Accepts (pure a) Q
  unfolding Accepted
  Accepts-pure a q = record { at = λ t. q }

  Accepts-option :
      {Q : A → Type 0} (e : Error) (o : Option A)
      → ((a : A) → o ≡ some a → Q a)
      → Accepts (from_option e o) Q
  unfolding Accepted
  Accepts-option e none h = record { at = λ t. tt }
  Accepts-option e (some a) h = record { at = λ t. h a refl }

module _ {A B : Type 0} {R : A → Type 0} {Q : B → Type 0} where
  Accepted-continue :
      (f : A → Io B)
      → ((a : A) → R a → Accepts (f a) Q)
      → (x : Result A × Trace) → Accepted R x
      → Accepted Q (continue x.0 f x.1)
  unfolding Accepted
  Accepted-continue f af (ok a, t) h = (af a h).at t
  Accepted-continue f af (err e, t) h = tt

  Accepts-bind :
      {m : Io A} {f : A → Io B}
      → Accepts m R
      → ((a : A) → R a → Accepts (f a) Q)
      → Accepts (m >>= f) Q
  Accepts-bind {m} {f} am af = record { at = λ t. Accepted-continue f af (m t) (am.at t) }

module _ (env : Environment) where
  Accepts-var : (name : String) → Accepts (var env name) λ a. Unit
  unfolding var
  Accepts-var name = Accepts-option external (env.variable name) λ a e. tt

  Accepts-parsed : (w : ℕ) (text : String) → Accepts (parsed env w text) λ n. n < 2 ^ w
  unfolding parsed
  Accepts-parsed w text = Accepts-option external (parse_uint w text) (parse_uint-bound w text)

  Accepts-certificate : (path : String) → Accepts (read_certificate env path) λ a. Unit
  unfolding read_certificate
  Accepts-certificate path = record {
    at = λ t. (Accepts-option external (env.certificate t path) λ a e. tt).at t;
  }

  -- A listener adds a port to those before it.
  Ports : ℕ → List ℕ → Type 0
  Ports most ports = AllBelow (2 ^ 16) ports × (length ports ≤ most)

  AllBelow-append :
      (limit : ℕ) (ns : List ℕ) (n : ℕ)
      → AllBelow limit ns
      → n < limit
      → AllBelow limit (ns ++ n ∷ [])
  AllBelow-append limit [] n all h = (h, tt)
  AllBelow-append limit (m ∷ ns) n all h = (all.0, AllBelow-append limit ns n all.1 h)

  Accepts-listener :
      (value : Option String) (ports : List ℕ) (most : ℕ)
      → Ports most ports
      → Accepts (listener env value ports) (Ports (most + 1))
  unfolding listener Ports
  Accepts-listener none ports most (all, h) = Accepts-pure _ (all, omega arith)
  Accepts-listener (some value) ports most (all, h) =
      Accepts-bind (Accepts-parsed 16 value) λ port b.
        Accepts-pure _ (
          AllBelow-append (2 ^ 16) ports port all b,
          omega (arith, length-append ports (port ∷ [])),
        )

  Accepts-some_listener :
      (ports : List ℕ) (most : ℕ)
      → Ports most ports
      → Accepts (some_listener env ports) λ ports'. Ports most ports' × (1 ≤ length ports')
  unfolding some_listener Ports Accepted
  Accepts-some_listener [] most h = record { at = λ t. tt }
  Accepts-some_listener (port ∷ ports) most h = Accepts-pure _ (h, omega arith)

  Accepts-from_env : Accepts (from_env env) Bounded
  unfolding from_env Ports
  Accepts-from_env =
      Accepts-bind
        (Accepts-listener (env.variable "DUCKFLIGHT_PROXY_POSTGRES_PORT") [] 0 (tt, omega arith))
        λ one h1.
          Accepts-bind (Accepts-listener (env.variable "DUCKFLIGHT_PROXY_FLIGHT_PORT") one 1 h1)
            λ both h2. Accepts-bind (Accepts-some_listener both 2 h2) λ ports h3.
              Accepts-bind (Accepts-var "POD_NAMESPACE") λ n _.
                Accepts-bind (Accepts-var "DUCKFLIGHT_PROXY_DEPLOYMENT") λ d _.
                  Accepts-bind (Accepts-var "DUCKFLIGHT_PROXY_SELECTOR") λ s _.
                    Accepts-bind (Accepts-var "DUCKFLIGHT_PROXY_HOSTNAME") λ h _.
                      Accepts-bind (Accepts-var "DUCKFLIGHT_PROXY_CONTROL_PORT") λ p _.
                        Accepts-bind (Accepts-parsed 16 p) λ port b1.
                          Accepts-bind (Accepts-var "DUCKFLIGHT_PROXY_IDLE_TIMEOUT_SECONDS") λ i _.
                            Accepts-bind (Accepts-parsed 64 i) λ idle b2.
                              Accepts-bind
                                (Accepts-var "DUCKFLIGHT_PROXY_COLD_START_TIMEOUT_SECONDS")
                                λ c _. Accepts-bind (Accepts-parsed 64 c) λ cold b3.
                                  Accepts-bind (Accepts-var "DUCKFLIGHT_PROXY_TOKEN_FILE") λ t _.
                                    Accepts-bind (Accepts-var "DUCKFLIGHT_PROXY_CA_FILE") λ f _.
                                      Accepts-bind (Accepts-certificate f) λ ca _.
                                        Accepts-pure _ (record {
                                          control = b1;
                                          listeners = h3.0.0;
                                          some = h3.1;
                                          at_most_two = h3.0.1;
                                          idle = (idle, b2, refl);
                                          cold_start = (cold, b3, refl);
                                        })

  -- Where from_env succeeds, in any environment, the control port and the listeners' ports are below
  -- 2 ^ 16, there are one or two listeners, and each timeout is a whole number of seconds below 2 ^ 64, in
  -- milliseconds.
  pub from_env-Bounded : (t t' : Trace) (c : Config) → from_env env t ≡ (ok c, t') → Bounded c
  unfolding Accepted
  from_env-Bounded t t' c e = rw e at (Accepts-from_env.at t)
