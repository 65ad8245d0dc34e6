-- ===== src/Adapter/Laws.antt =====
-- Adapter/Laws: when a probe and a request reject, and which rejections are retried.
use whyrouted.Prelude.{
  ℕ, ◌≤◌, ◌<◌, false, String, str_append, true, false, Option, none, some, ◌≡◌, ◌↔◌, refl, arith,
  ◌⊎◌, inl, inr, Option-cases, Bool-cases, ok, throw,
}
use whyrouted.Health.Scheduler.{HealthResult, get}
use whyrouted.Adapter.{
  ReplicaRequestError, retryable, is_ok, request_error, other_error, Fetched, aborted, failed,
  answered, HttpReplicaAdapter, check_health, send_request, HealthBody, null, in_flight_of,
  or_default, probe_result, sent, timed_out, not_reached, bad_status, unknown_replica,
}

-- The errors that a request to a known replica can throw are retried exactly when the request timed
-- out, did not reach the replica, or was answered with a status of 500 or more.
pub retryable_iff :
    (a : HttpReplicaAdapter) (id message : String) (status : ℕ)
    → (retryable (timed_out a id) ≡ true)
      × (retryable (not_reached id message) ≡ true)
      × ((retryable (bad_status id status) ≡ true) ↔ (500 ≤ status))
unfolding retryable
retryable_iff a id message status = (refl, refl, ground arith)

-- The replica answered a probe with a status from 200 to 299 and a body that parses and is not `null`, with
-- this number, if any, as its in-flight count.
abbrev pub IsAnswer : Fetched HealthBody → Option ℕ → Type 0
IsAnswer x count =
    (status : ℕ) × (x ≡ answered status (ok (in_flight_of count))) × (200 ≤ status) × (status < 300)

-- The result of a probe: alive with the measured latency and the count, 0 if there is none; or dead with
-- the timeout as the latency and no calls in flight.
abbrev pub IsResultOf : HttpReplicaAdapter → ℕ → Fetched HealthBody → HealthResult → Type 0
IsResultOf a latency x r =
    ((count : Option ℕ) × IsAnswer x count
      × (r.alive ≡ true)
      × (r.latency_ms ≡ latency)
      × (r.in_flight ≡ or_default count 0))
    ⊎ (((count : Option ℕ) → ¬ IsAnswer x count)
        × (r.alive ≡ false)
        × (r.latency_ms ≡ a.health_timeout_ms)
        × (r.in_flight ≡ 0))

probe_result-IsResultOf :
    (a : HttpReplicaAdapter) (latency : ℕ) (x : Fetched HealthBody)
    → IsResultOf a latency x (probe_result a latency x)
probe_result-IsResultOf a latency aborted = inr ((λ c (s, e, _, _). cc), refl, refl, refl)
probe_result-IsResultOf a latency (failed message) = inr ((λ c (s, e, _, _). cc), refl, refl, refl)
probe_result-IsResultOf a latency (answered status (throw message)) =
    inr ((λ c (s, e, _, _). cc), refl, refl, refl)
probe_result-IsResultOf a latency (answered status (ok null)) =
    inr ((λ c (s, e, _, _). cc), refl, refl, refl)
probe_result-IsResultOf a latency (answered status (ok (in_flight_of count))) =
    elim (Bool-cases (is_ok status)) [
      | inl e ↦
          rw e (inl (count, (status, refl, ground (arith, e), ground (arith, e)), refl, refl, refl))
      | inr e ↦ rw e (
          inr (
            (λ c (s, q, low, high).
                let same : status ≡ s = cc in ground (arith, e, same, low, high)),
            refl,
            refl,
            refl,
          ))
    ]

-- A probe rejects exactly for an id that the adapter was not built with. Any other probe resolves: alive,
-- with the measured latency and the count in the body, or 0 if that is no number, after a status from
-- 200 to 299 with a body that parses and is not `null`; and otherwise not alive, with the timeout as
-- its latency and 0 as its count.
pub check_health_lem :
    (a : HttpReplicaAdapter) (latency : ℕ) (id : String) (fetch : String → Fetched HealthBody)
    → ((get id a.urls ≡ none) × (check_health a fetch latency id ≡ throw (unknown_replica id)))
      ⊎ ((url : String) × (r : HealthResult) × (get id a.urls ≡ some url)
          × (check_health a fetch latency id ≡ ok r)
          × IsResultOf a latency (fetch (str_append url "/health")) r)
unfolding check_health
check_health_lem a latency id fetch = elim (Option-cases (get id a.urls)) [
  | inl e ↦ inl (e, rw e)
  | inr (url, e) ↦ inr (
    url,
    probe_result a latency (fetch (str_append url "/health")),
    e,
    rw e,
    probe_result-IsResultOf a latency (fetch (str_append url "/health")),
  )
]

-- No answer, or one with a status outside 200 to 299.
abbrev pub IsRefused : {B : Type 0} → Fetched B → Type 0
IsRefused (answered status body) = is_ok status ≡ false
IsRefused _ = Unit

sent-cases :
    {B : Type 0} (a : HttpReplicaAdapter) (latency : ℕ) (id : String) (x : Fetched B)
    → ((e : ReplicaRequestError) × (sent a id latency x ≡ throw (request_error e)) × IsRefused x)
      ⊎ ((status : ℕ) × (message : String) × (x ≡ answered status (throw message))
          × (is_ok status ≡ true)
          × (sent a id latency x ≡ throw (other_error message)))
      ⊎ ((status : ℕ) × (b : B) × (x ≡ answered status (ok b))
          × (is_ok status ≡ true)
          × (sent a id latency x ≡ ok (record { response = b; latency_ms = latency })))
sent-cases a latency id aborted = inl (timed_out a id, refl, tt)
sent-cases a latency id (failed message) = inl (not_reached id message, refl, tt)
sent-cases a latency id (answered status (throw message)) = elim (Bool-cases (is_ok status)) [
  | inl e ↦ inr (inl (status, message, refl, e, rw e))
  | inr e ↦ inl (bad_status id status, rw e, e)
]
sent-cases a latency id (answered status (ok b)) = elim (Bool-cases (is_ok status)) [
  | inl e ↦ inr (inr (status, b, refl, e, rw e))
  | inr e ↦ inl (bad_status id status, rw e, e)
]

-- A request to a replica that the adapter knows resolves with the body and the measured latency after
-- a status from 200 to 299 and a body that parses; after such a status and a body that does not parse
-- it rejects with an error that is not typed; and it rejects with a typed error when there is no answer or its status is another.
pub send_request_lem :
    {B : Type 0} (a : HttpReplicaAdapter) (latency : ℕ) (id url : String)
    (fetch : String → Fetched B)
    → get id a.urls ≡ some url
    → let x = fetch (str_append url "/infer") in
      let sent = send_request a fetch latency id in
      ((e : ReplicaRequestError) × (sent ≡ throw (request_error e)) × IsRefused x)
      ⊎ ((status : ℕ) × (message : String) × (x ≡ answered status (throw message))
          × (is_ok status ≡ true)
          × (sent ≡ throw (other_error message)))
      ⊎ ((status : ℕ) × (b : B) × (x ≡ answered status (ok b))
          × (is_ok status ≡ true)
          × (sent ≡ ok (record { response = b; latency_ms = latency })))
unfolding send_request
send_request_lem a latency id url fetch e =
    rw e (sent-cases a latency id (fetch (str_append url "/infer")))
