-- ===== src/Supervise/Tests.antt =====
-- Runs of internal/supervise and the theorems about it at concrete policies and ticks; the natural
-- numbers stand in for `float64`.
use pmmcp.Prelude.{
  ℕ, ◌+◌, ◌-◌, ◌*◌, ◌≤◌, ◌<◌, String, ◌≡◌, refl, ◌⊎◌, true, false, none, some, List, [], ◌∷◌, arith,
  str_eq, ltb, leb, if◌then◌else◌,
}
use pmmcp.Prelude.Int.{pos, pos_part, add64, mul64, int64}
use pmmcp.Prelude.Time.{Time, time_add}
use pmmcp.Supervise.{
  Floats, RestartPolicy, RestartCounter, next_backoff, is_linear, exponential, new_restart_counter,
  jittered, grow, should_restart, record_restart, observe_unhealthy,
}
use pmmcp.Supervise.Loop.{
  Obs, Config, IdState, restart, on_exhausted, init, counter_of, step, run, down,
}
use pmmcp.Supervise.Budget.{restarts, resets, restart_budget}
use pmmcp.Supervise.Spacing.{restart_spacing}
use pmmcp.Supervise.Stops.{stopped_time_credited}
use pmmcp.Supervise.Health.{Http, request, guard_url, probe, classify, probe-IsLocal}
use pmmcp.Supervise.Probe.{
  Net, Url, IsLocal, all_loopback, check_addresses, check_host, dial_control, check_redirect,
  validate_loopback_url,
}

abbrev whole : Floats
whole = record {
  Float = ℕ;
  of_int = pos_part;
  to_int = pos;
  ltf = ltb;
  lef = leb;
  mulf = λ a b. a * b;
  addf = λ a b. a + b;
  subf = λ a b. a - b;
}

abbrev linear : RestartPolicy ℕ
linear = record {
  enabled = true;
  max = pos 2;
  backoff = pos 10;
  stable_window = pos 100;
  multiplier = 0;
  max_backoff = pos 0;
  jitter = 0;
}

abbrev doubling : RestartPolicy ℕ
doubling = record linear { multiplier = 2; max_backoff = pos 50 }

doubling_capped : next_backoff whole doubling (pos 7) 0 ≡ pos 50
unfolding next_backoff is_linear exponential grow jittered
doubling_capped = refl

abbrev config : Config ℕ
config = record { policy = linear; has_on_exhausted = true }

abbrev gone : Obs ℕ
gone = record {
  running = false;
  healthy = false;
  failed = false;
  desired = some "running";
  rnd = 0;
}

abbrev healthy : Obs ℕ
healthy = record gone { running = true; healthy = true }

abbrev stopped : Obs ℕ
stopped = record gone { desired = some "stopped" }

-- Three ticks of a process that stays down: two restarts, then the report.
abbrev crashes : List (Time × Obs ℕ)
crashes = (1000, gone) ∷ (2000, gone) ∷ (3000, gone) ∷ (4000, gone) ∷ []

run-crashes : (run whole config crashes init).1 ≡ restart ∷ restart ∷ on_exhausted ∷ []
unfolding run step down counter_of init new_restart_counter observe_unhealthy should_restart
    record_restart next_backoff is_linear add64 mul64 int64 time_add
run-crashes = refl

restart_budget_example :
    restarts (run whole config crashes init).1 ≤ 2 * (1 + resets whole config crashes init)
restart_budget_example = restart_budget whole config 2 crashes refl (omega arith) (omega arith)

restart_spacing_example :
    time_add 1000
      (next_backoff whole linear (counter_of config (step whole config 1000 gone init).0).count 0)
    ≤ 2000
unfolding run step down counter_of init new_restart_counter observe_unhealthy should_restart
    record_restart next_backoff is_linear add64 mul64 int64 time_add restarts
restart_spacing_example =
    restart_spacing whole config 1000 2000 gone gone ((1005, gone) ∷ []) init (omega arith) refl
      (omega arith)

abbrev counter : RestartCounter ℕ
counter = record {
  policy = linear;
  count = pos 2;
  healthy_for = pos 0;
  last_tick = 1000;
  initialized = true;
}

abbrev settled : IdState ℕ
settled = record { counter = some counter; next_attempt = none; exhausted = true }

stopped_time_credited_example :
    (counter_of config
      (step whole config 1300 healthy (run whole config ((1100, stopped) ∷ []) settled).0).0).count
    ≡ pos 0
stopped_time_credited_example =
    stopped_time_credited whole config ((1100, stopped) ∷ []) settled counter 1300 healthy 0 100
      refl refl refl refl ((refl, refl), tt) refl (omega arith) (omega arith)

-- A network in which only "127.0.0.1" is an address and "localhost" resolves to it.
abbrev local_net : Net
local_net = record {
  Ip = String;
  parse_ip = λ s. if str_eq s "127.0.0.1" then some s else none;
  is_loopback = λ s. str_eq s "127.0.0.1";
  resolve = λ s. if str_eq s "localhost" then some ("127.0.0.1" ∷ []) else none;
}

abbrev health : Url
health = record { scheme = "http"; host = "localhost" }

-- A server that answers every request with 204.
abbrev no_content : Http
no_content = record {
  parse_url = λ s. some health;
  can_request = λ s. true;
  send = λ dial redirect s. some 204;
}

probe-IsLocal_example :
    (u : Url) × (some health ≡ some u)
    × (no_content.send
          (dial_control local_net false)
          (check_redirect local_net false)
          "http://localhost/"
        ≡ some 204)
    × (200 ≤ 204)
    × (204 < 400)
    × (false ≡ false → ((u.scheme ≡ "http") ⊎ (u.scheme ≡ "https")) × IsLocal local_net u.host)
unfolding probe guard_url request classify validate_loopback_url check_host check_addresses
    all_loopback
probe-IsLocal_example = probe-IsLocal local_net no_content false "http://localhost/" 204 refl
