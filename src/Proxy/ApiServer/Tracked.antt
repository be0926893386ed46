-- ===== src/Proxy/ApiServer/Tracked.antt =====
-- What is known of the API server and of the writes on their way after a log of the proxy.
use mathlib.Core.Path.{subst}
use mathlib.Core.List.{Memᴰ}
use mathlib.Core.List.Memᴰ.{not-nil, cases_cons}
use text.Mathlib.Text.{◌==◌ as str_eq}
use text.Mathlib.TextEquality.{eq_iff}
use duckflight_extension.Common.{
  ℕ, String, Bool, true, false, ◌||◌, Option, none, some, ◌≡◌, refl, sym, ap, ◌∙◌, ◌⊎◌, inl, inr,
  Bool-cases,
}
use duckflight_extension.Proxy.Json.{Json, null, boolean, number, string, array, object, is_text}
use duckflight_extension.Proxy.World.{Call, Reply, Trace}
use duckflight_extension.Proxy.Evidence.{
  last_read, read_after, SettledAfter, IsSettled, CallAllowed, WriteAllowed, Guarded,
}
use duckflight_extension.Proxy.ApiServer.{
  ApiServer, is_among, is_used, next_version, resource_version, accepts, Move, other_write,
  late_write, wait_for, Answered, reads, read_failed, read_not_json, writes, write_failed,
  write_not_json, lists, worker_status, worker_suspend, worker_resume, request, reads_clock, draws,
  sleeps, opens, closes, History, began, moved, logged,
}

or-true : (a b : Bool) → b ≡ true → (a || b) ≡ true
or-true true b h = refl
or-true false b h = h

is_text-string : (j : Json) (v : String) → is_text j v ≡ true → j ≡ string v
is_text-string (string s) v h = ap string ((eq_iff s v).0 h)
is_text-string null v h = cc
is_text-string (boolean b) v h = cc
is_text-string (number n) v h = cc
is_text-string (array vs) v h = cc
is_text-string (object fs) v h = cc

str_eq_refl : (v : String) → str_eq v v ≡ true
str_eq_refl v = (eq_iff v v).1 refl

none-neq-some : (j : Json) → none ≡ some j → ⊥
none-neq-some j e = cc

-- The document has a version that the Deployment had once.
pub record Used (j : Json) (s : ApiServer) : Type 0 where
  pub version : String
  pub version_is : resource_version j ≡ string version
  pub used : is_used version s ≡ true

-- The same, and the Deployment has another one by now.
pub record Void (j : Json) (s : ApiServer) : Type 0 where
  pub version : String
  pub version_is : resource_version j ≡ string version
  pub outdated : is_among version s.past ≡ true

next-Void : (j : Json) (v : String) (s : ApiServer) → Used j s → Void j (next_version v s)
next-Void j v s u = record { version = u.version; version_is = u.version_is; outdated = u.used }

Void-Used : (j : Json) (s : ApiServer) → Void j s → Used j s
Void-Used j s v = record {
  version = v.version;
  version_is = v.version_is;
  used = or-true (str_eq v.version s.version) (is_among v.version s.past) v.outdated;
}

read-Used : (j : Json) (s : ApiServer) → is_text (resource_version j) s.version ≡ true → Used j s
read-Used j s h = record {
  version = s.version;
  version_is = is_text-string (resource_version j) s.version h;
  used = rw (str_eq_refl s.version) refl;
}

-- What holds of the server beside the Deployment that the proxy last read, and whether its last write
-- was answered.
pub record Tracked (latest : Option Json) (Settled : Type 0) (s : ApiServer) : Type 0 where
  pub current : is_among s.version s.past ≡ false
  pub read_used : (j : Json) → latest ≡ some j → Used j s
  pub late_used : (body : Json) → Memᴰ body s.late → Used body s
  pub late_void : Settled → (body : Json) → Memᴰ body s.late → Void body s

-- A version that the Deployment had is not the one it has.
pub Void-refused :
    (body : Json) (s : ApiServer)
    → is_among s.version s.past ≡ false
    → Void body s
    → accepts body s ≡ false
Void-refused body s current v = rw v.version_is (differs (Bool-cases (str_eq v.version s.version)))
  where
    clash : is_among s.version s.past ≡ true → ⊥
    clash h = cc

    differs :
        ((str_eq v.version s.version ≡ true) ⊎ (str_eq v.version s.version ≡ false))
        → str_eq v.version s.version ≡ false
    differs (inl e) = absurd (
        clash (subst (λ w. is_among w s.past ≡ true) ((eq_iff v.version s.version).0 e) v.outdated))
    differs (inr e) = e

next-Used : (j : Json) (v : String) (s : ApiServer) → Used j s → Used j (next_version v s)
next-Used j v s u = Void-Used j (next_version v s) (next-Void j v s u)

pub keep-Void : (j : Json) (v : String) (s : ApiServer) → Void j s → Void j (next_version v s)
keep-Void j v s d = next-Void j v s (Void-Used j s d)

waited-Used : (j body : Json) (s : ApiServer) → Used j s → Used j (wait_for body s)
waited-Used j body s u = record { version = u.version; version_is = u.version_is; used = u.used }

module _ {latest : Option Json} {Settled : Type 0} {s : ApiServer}
    (h : Tracked latest Settled s) where
  -- A write by somebody else.
  Tracked-next : (v : String) → is_used v s ≡ false → Tracked latest Settled (next_version v s)
  Tracked-next v new = record {
    current = new;
    read_used = λ j e. next-Used j v s (h.read_used j e);
    late_used = λ body m. next-Used body v s (h.late_used body m);
    late_void = λ settled body m. keep-Void body v s (h.late_void settled body m);
  }

  Tracked-Move : (s' : ApiServer) → Move s s' → Tracked latest Settled s'
  Tracked-Move s' (other_write v new) = Tracked-next v new
  Tracked-Move s' (late_write body v m ok new) = Tracked-next v new

  -- A write that was answered leaves every write without an answer behind.
  Tracked-writes :
      (v : String) (Any : Type 0) → is_used v s ≡ false → Tracked none Any (next_version v s)
  Tracked-writes v Any new = record {
    current = new;
    read_used = λ j e. absurd (none-neq-some j e);
    late_used = λ body m. next-Used body v s (h.late_used body m);
    late_void = λ settled body m. next-Void body v s (h.late_used body m);
  }

  -- One more write without an answer.
  Tracked-wait_for : (body : Json) → Used body s → Tracked none ⊥ (wait_for body s)
  Tracked-wait_for body u = record {
    current = h.current;
    read_used = λ j e. absurd (none-neq-some j e);
    late_used = λ other m. late other (cases_cons m);
    late_void = λ settled. absurd settled;
  }
    where
      late : (other : Json) → (other ≡ body) ⊎ Memᴰ other s.late → Used other (wait_for body s)
      late other (inl e) = subst (λ w. Used w (wait_for body s)) (sym e) (waited-Used body body s u)
      late other (inr m) = waited-Used other body s (h.late_used other m)

  Tracked-reads :
      (j : Json) → is_text (resource_version j) s.version ≡ true → Tracked (some j) Settled s
  Tracked-reads j fits = record {
    current = h.current;
    read_used = λ k e. subst (λ w. Used w s) (same j k e) (read-Used j s fits);
    late_used = h.late_used;
    late_void = h.late_void;
  }
    where
      same : (j k : Json) → some j ≡ some k → j ≡ k
      same j k e = cc

  Tracked-unread : Tracked none Settled s
  Tracked-unread = record {
    current = h.current;
    read_used = λ k e. absurd (none-neq-some k e);
    late_used = h.late_used;
    late_void = h.late_void;
  }

module _ (owner uid : String) (timeout : ℕ) where
  -- The version of a write is that of the Deployment that was last read.
  written-Used :
      (t : Trace) (s : ApiServer) (Settled : Type 0) (body : Json)
      → Tracked (last_read t) Settled s
      → WriteAllowed owner uid body t
      → Used body s
  written-Used t s Settled body h w =
      let u = h.read_used w.current w.read in
      record { version = u.version; version_is = w.version ∙ u.version_is; used = u.used }

  Tracked-Answered :
      (t : Trace) (s s' : ApiServer) (c : Call) (reply : Reply)
      → Answered s c reply s'
      → CallAllowed owner uid timeout c t
      → Tracked (last_read t) (IsSettled t) s
      → Tracked (read_after c reply (last_read t)) (SettledAfter c reply (IsSettled t)) s'
  Tracked-Answered t s s' c reply (reads j fits) g h = Tracked-reads h j fits
  Tracked-Answered t s s' c reply read_failed g h = Tracked-unread h
  Tracked-Answered t s s' c reply read_not_json g h = Tracked-unread h
  Tracked-Answered t s s' c reply (writes body j v ok new) g h = Tracked-writes h v Unit new
  Tracked-Answered t s s' c reply (write_failed body) g h =
      Tracked-wait_for h body (written-Used t s (IsSettled t) body h g)
  Tracked-Answered t s s' c reply (write_not_json body) g h =
      Tracked-wait_for h body (written-Used t s (IsSettled t) body h g)
  Tracked-Answered t s s' c reply (lists answer) g h = h
  Tracked-Answered t s s' c reply (worker_status b answer) g h = h
  Tracked-Answered t s s' c reply (worker_suspend b answer) g h = h
  Tracked-Answered t s s' c reply (worker_resume b permit answer) g h = h

  pub History-Tracked :
      {t : Trace} {s : ApiServer}
      → History t s
      → Guarded owner uid timeout t
      → Tracked (last_read t) (IsSettled t) s
  History-Tracked (began s new none_late) g = record {
    current = new;
    read_used = λ j e. absurd (none-neq-some j e);
    late_used = λ body m. absurd (not-nil (subst (λ bodies. Memᴰ body bodies) none_late m));
    late_void = λ settled. absurd settled;
  }
  History-Tracked (moved {t} {s} {s'} before m) g = Tracked-Move (History-Tracked before g) s' m
  History-Tracked (logged {t} {s} {s'} before (request r reply a)) g =
      Tracked-Answered t s s' r.call reply a g.0 (History-Tracked before g.1)
  History-Tracked (logged before (reads_clock n)) g = History-Tracked before g
  History-Tracked (logged before (draws u)) g = History-Tracked before g
  History-Tracked (logged before (sleeps d)) g = History-Tracked before g
  History-Tracked (logged before opens) g = History-Tracked before g
  History-Tracked (logged before closes) g = History-Tracked before g

-- The write will not be carried out any more.
