-- ===== src/Proxy/Ready/Examples.antt =====
-- The theorem on the readiness probe at a concrete container.
use duckflight_extension.Common.{true, false, some, [], ◌≡◌, refl, ◌↔◌, ◌∷◌}
use duckflight_extension.Proxy.Json.{null, boolean, number, pos_int, string, array, nil, item}
use duckflight_extension.Proxy.World.{ok, err, message, replied}
use duckflight_extension.Proxy.Backend.{deserialize}
use duckflight_extension.Proxy.Ready.{Probe, Host, worker_ready}
use duckflight_extension.Proxy.Ready.Probed.{Answered, worker_ready-Answered}

abbrev ready_host : Host
ready_host = record {
  variable = λ name. some name;
  parse_socket_addr = λ text. some ("10.0.0.7", 4091);
  read_to_string = λ path. some " secret ";
  certificate = λ path. some "ca";
  can_build = λ client. true;
  answer = λ probe. replied (
      array (
        item (number (pos_int 1))
          (item (string "boot") (item (boolean true) (item (boolean false) (item null nil))))));
}

-- It asks once and succeeds; an answer of another version is refused.
succeeds : (worker_ready ready_host []).0 ≡ ok tt
unfolding worker_ready deserialize
succeeds = refl

abbrev other_version : Host
other_version = record ready_host {
  answer = λ probe. replied (
      array (
        item (number (pos_int 2))
          (item (string "boot") (item (boolean true) (item (boolean false) (item null nil))))));
}

refuses : (worker_ready other_version []).0 ≡ err (message "idle-capable listeners are not ready")
unfolding worker_ready deserialize
refuses = refl

worker_ready-Answered_example :
    (((worker_ready ready_host []).0 ≡ ok tt) ↔ ((probe : Probe) × Answered ready_host probe))
    × ((probe : Probe)
        → (worker_ready ready_host [] ≡ (ok tt, probe ∷ [])) ↔ Answered ready_host probe)
worker_ready-Answered_example = worker_ready-Answered ready_host []
