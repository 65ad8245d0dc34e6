-- ===== src/Adapter.antt =====
-- src/adapter/types.ts and src/adapter/http.ts: how the router reaches a replica. `fetch`, the clock
-- and the parsing of a body are not code of the repository: what a `fetch` came to, the measured
-- round trip and what `res.json()` gave are arguments.
pub mod Laws
use whyrouted.Prelude.{
  ℕ, ◌*◌, String, str_append, decimal, str_eq, Bool, true, false, not, ◌&&◌, ◌||◌, leb, ltb, Option,
  none, some, List, [], ◌∷◌, if◌then◌else◌, Result, ok, throw, map,
}
use whyrouted.Types.{Replica}
use whyrouted.Health.Scheduler.{HealthResult, get, put}

pub data ReplicaErrorKind : Type 0 where
  timeout connection http_status : ReplicaErrorKind

-- `status` is there only when `kind` is `http_status`.
pub record ReplicaRequestError : Type 0 where
  pub kind : ReplicaErrorKind
  pub message : String
  pub status : Option ℕ

abbrev pub is_http_status : ReplicaErrorKind → Bool
is_http_status http_status = true
is_http_status _ = false

abbrev pub is_server_side : Option ℕ → Bool
is_server_side none = false
is_server_side (some status) = leb 500 status

-- The field that the constructor sets.
unfoldable pub retryable : ReplicaRequestError → Bool
retryable e = not (is_http_status e.kind) || is_server_side e.status

pub record SendResult (B : Type 0) : Type 0 where
  pub response : B
  pub latency_ms : ℕ

-- What a `sendRequest` that rejects throws: the typed error, or any other.
pub data SendError : Type 0 where
  request_error : ReplicaRequestError → SendError
  other_error : String → SendError

-- What `fetchWithTimeout` came to: the timer aborted it, it threw, or it gave a status and a body,
-- which `res.json()` parses or refuses.
pub data Fetched (B : Type 0) : Type 0 where
  aborted : Fetched B
  failed : String → Fetched B
  answered : ℕ → Result String B → Fetched B

-- `res.ok`
abbrev pub is_ok : ℕ → Bool
is_ok status = leb 200 status && ltb status 300

pub record HttpReplicaAdapter : Type 0 where
  pub urls : List (String × String)
  pub health_timeout_ms : ℕ
  pub request_timeout_ms : ℕ

unfoldable pub urls_from : List Replica → List (String × String) → List (String × String)
urls_from [] m = m
urls_from (r ∷ rs) m = urls_from rs (put r.id r.url m)

abbrev pub or_default : Option ℕ → ℕ → ℕ
or_default none n = n
or_default (some m) n = m

unfoldable pub create_adapter : List Replica → ℕ → Option ℕ → HttpReplicaAdapter
unfolding urls_from
create_adapter replicas health_timeout request_timeout = record {
  urls = urls_from replicas [];
  health_timeout_ms = health_timeout;
  request_timeout_ms = or_default request_timeout (health_timeout * 10);
}

abbrev pub unknown_replica : String → String
unknown_replica id = str_append "unknown replica \"" (str_append id "\"")

abbrev resolve_found : String → Option String → Result String String
resolve_found id none = throw (unknown_replica id)
resolve_found id (some url) = ok url

unfoldable pub resolve : HttpReplicaAdapter → String → Result String String
resolve a id = resolve_found id (get id a.urls)

abbrev pub failed_probe : HttpReplicaAdapter → HealthResult
failed_probe a = record { alive = false; latency_ms = a.health_timeout_ms; in_flight = 0 }

-- A body of a health answer that parses: `null`, whose field cannot be read, or any other value, with the
-- in-flight count in its field or no number there.
pub data HealthBody : Type 0 where
  null : HealthBody
  in_flight_of : Option ℕ → HealthBody

abbrev pub probe_result : HttpReplicaAdapter → ℕ → Fetched HealthBody → HealthResult
probe_result a latency aborted = failed_probe a
probe_result a latency (failed message) = failed_probe a
probe_result a latency (answered status (throw message)) = failed_probe a
probe_result a latency (answered status (ok null)) = failed_probe a
probe_result a latency (answered status (ok (in_flight_of count))) =
    if is_ok status
    then record { alive = true; latency_ms = latency; in_flight = or_default count 0 }
    else failed_probe a

abbrev check_resolved :
    HttpReplicaAdapter
    → (String → Fetched HealthBody)
    → ℕ
    → Result String String
    → Result String HealthResult
check_resolved a fetch latency (throw e) = throw e
check_resolved a fetch latency (ok base) =
    ok (probe_result a latency (fetch (str_append base "/health")))

unfoldable pub check_health :
    HttpReplicaAdapter → (String → Fetched HealthBody) → ℕ → String → Result String HealthResult
unfolding resolve
check_health a fetch latency id = check_resolved a fetch latency (resolve a id)

abbrev pub quoted : String → String
quoted id = str_append "\"" (str_append id "\"")

abbrev pub timed_out : HttpReplicaAdapter → String → ReplicaRequestError
timed_out a id = record {
  kind = timeout;
  message = str_append "replica " (
      str_append (quoted id) (
        str_append " did not respond to /infer within "
          (str_append (decimal a.request_timeout_ms) "ms")));
  status = none;
}

abbrev pub not_reached : String → String → ReplicaRequestError
not_reached id message = record {
  kind = connection;
  message =
      str_append "could not reach replica "
        (str_append (quoted id) (str_append " for /infer: " message));
  status = none;
}

abbrev pub bad_status : String → ℕ → ReplicaRequestError
bad_status id status = record {
  kind = http_status;
  message = str_append "replica " (
      str_append (quoted id) (str_append " returned " (str_append (decimal status) " for /infer")));
  status = some status;
}

module _ {B : Type 0} where
  -- A body that does not parse rejects with the error of `res.json()`.
  abbrev pub sent : HttpReplicaAdapter → String → ℕ → Fetched B → Result SendError (SendResult B)
  sent a id latency aborted = throw (request_error (timed_out a id))
  sent a id latency (failed message) = throw (request_error (not_reached id message))
  sent a id latency (answered status body) =
      if is_ok status
      then elim body [
        | throw message ↦ throw (other_error message)
        | ok b ↦ ok (record { response = b; latency_ms = latency })
      ]
      else throw (request_error (bad_status id status))

  abbrev send_resolved :
      HttpReplicaAdapter
      → String
      → (String → Fetched B)
      → ℕ
      → Result String String
      → Result SendError (SendResult B)
  send_resolved a id fetch latency (throw e) = throw (other_error e)
  send_resolved a id fetch latency (ok base) = sent a id latency (fetch (str_append base "/infer"))

  unfoldable pub send_request :
      HttpReplicaAdapter → (String → Fetched B) → ℕ → String → Result SendError (SendResult B)
  unfolding resolve
  send_request a fetch latency id = send_resolved a id fetch latency (resolve a id)
