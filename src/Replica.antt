-- ===== src/Replica.antt =====
-- src/replica/: the simulated replica (server.ts), its profiles (synthetic.ts) and the injector of faults
-- (fault-injector.ts). A call of `/infer` gives way once, while it sleeps, so it is two steps: its
-- start and its end, which the `finally` block makes certain. The synthetic baseline load is an
-- argument: it comes from a sine of the clock.
pub mod Laws
use whyrouted.Prelude.{
  ℕ, ◌+◌, ◌-◌, ◌*◌, ◌%◌, String, str_append, str_eq, decimal, Bool, true, false, ◌||◌, Option, none,
  some, List, if◌then◌else◌, Result, ok, throw,
}
use whyrouted.Health.Scheduler.{get}
use whyrouted.Adapter.{is_ok}

pub record Server : Type 0 where
  pub in_flight : ℕ
  pub killed : Bool
  pub infer_failing : Bool

abbrev pub new_server : Server
new_server = record { in_flight = 0; killed = false; infer_failing = false }

pub data FaultMode : Type 0 where
  kill fail_infer revive : FaultMode

pub record FaultState : Type 0 where
  pub killed : Bool
  pub infer_failing : Bool

-- The answer of `GET /health`: a status, and the in-flight count after 200.
pub data HealthAnswer : Type 0 where
  healthy : ℕ → HealthAnswer
  unavailable : HealthAnswer

unfoldable pub health : Server → ℕ → HealthAnswer
health s baseline = if s.killed then unavailable else healthy (s.in_flight + baseline)

-- `POST /admin/...`: the state afterwards, and the body.
unfoldable pub admin : FaultMode → Server → Server
admin kill s = record s { killed = true }
admin fail_infer s = record s { infer_failing = true }
admin revive s = record s { killed = false; infer_failing = false }

abbrev pub report : Server → FaultState
report s = record { killed = s.killed; infer_failing = s.infer_failing }

-- The start of `POST /infer`: the error of a 503, or the call goes on.
pub data Started : Type 0 where
  rejected : String → Started
  running : Server → Started

unfoldable pub infer_start : Server → Started
infer_start s =
    if s.killed || s.infer_failing
    then rejected (if s.killed then "killed" else "infer_failing")
    else running (record s { in_flight = s.in_flight + 1 })

unfoldable pub infer_end : Server → Server
infer_end s = record s { in_flight = s.in_flight - 1 }

pub record SyntheticProfile : Type 0 where
  pub base_latency_ms : ℕ
  pub latency_jitter_ms : ℕ
  pub load_amplitude : ℕ
  pub period_ms : ℕ

abbrev pub default_profile : SyntheticProfile
default_profile = record {
  base_latency_ms = 15;
  latency_jitter_ms = 10;
  load_amplitude = 3;
  period_ms = 20000;
}

unfoldable pub profile_for_index : ℕ → SyntheticProfile
profile_for_index index =
    let band = index % 4 in
    record {
      base_latency_ms = default_profile.base_latency_ms + band * 10;
      latency_jitter_ms = default_profile.latency_jitter_ms;
      load_amplitude = default_profile.load_amplitude + band * 2;
      period_ms = default_profile.period_ms;
    }

abbrev pub admin_path : FaultMode → String
admin_path kill = "/admin/kill"
admin_path fail_infer = "/admin/fail-infer"
admin_path revive = "/admin/revive"

-- What a POST came to: `fetch` or `res.json()` threw, or a status and a body, which is a fault state or not.
pub data Posted : Type 0 where
  threw : String → Posted
  answered : ℕ → Option FaultState → Posted

-- The admin routes of the replica's app: what a POST to a path answers, and the state afterwards. Another
-- path has no route there.
unfoldable pub post_admin : String → Server → Posted × Server
post_admin path s =
    if str_eq path "/admin/kill"
    then (answered 200 (some (report (admin kill s))), admin kill s)
    else if str_eq path "/admin/fail-infer"
    then (answered 200 (some (report (admin fail_infer s))), admin fail_infer s)
    else if str_eq path "/admin/revive"
    then (answered 200 (some (report (admin revive s))), admin revive s)
    else (answered 404 none, s)

abbrev pub no_endpoint : String → String
no_endpoint id = str_append "no admin endpoint known for replica \"" (str_append id "\"")

abbrev bad_answer : String → FaultMode → ℕ → String
bad_answer id mode status = str_append "replica \"" (
    str_append id (
      str_append "\" answered "
        (str_append (decimal status) (str_append " to " (admin_path mode)))))

abbrev bad_body : String → FaultMode → String
bad_body id mode =
    str_append "replica \""
      (str_append id (str_append "\" returned an unexpected body from " (admin_path mode)))

abbrev checked_body : String → FaultMode → Option FaultState → Result String FaultState
checked_body id mode none = throw (bad_body id mode)
checked_body id mode (some body) = ok body

abbrev checked : String → FaultMode → Posted → Result String FaultState
checked id mode (threw message) = throw message
checked id mode (answered status body) =
    let result = checked_body id mode body in
    if is_ok status then result else throw (bad_answer id mode status)

abbrev inject_at : String → FaultMode → (String → Posted) → Option String → Result String FaultState
inject_at id mode post none = throw (no_endpoint id)
inject_at id mode post (some base) = checked id mode (post (str_append base (admin_path mode)))

unfoldable pub inject :
    List (String × String) → (String → Posted) → String → FaultMode → Result String FaultState
inject urls post id mode = inject_at id mode post (get id urls)
