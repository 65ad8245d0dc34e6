-- ===== src/Replica/Laws.antt =====
-- Replica/Laws: the fault modes, the count of running calls, and the profiles.
use whyrouted.Prelude.{
  ℕ, suc, ◌+◌, ◌%◌, ◌<◌, String, true, false, ◌||◌, List, [], ◌∷◌, ◌≡◌, ◌≢◌, refl, arith, inl, inr,
  Bool-cases, if◌then◌else◌,
}
use whyrouted.Replica.{
  Server, new_server, FaultMode, kill, fail_infer, revive, healthy, unavailable, health, admin,
  rejected, running, infer_start, infer_end, profile_for_index,
}

-- The steps of a replica, with the number of calls of `/infer` that run: a call that starts, the end of
-- one that runs, an admin call.
pub data Reachable : ℕ → Server → Type 0 where
  starts_up : Reachable 0 new_server
  starts_call :
      {n : ℕ} {s t : Server} → Reachable n s → infer_start s ≡ running t → Reachable (suc n) t
  ends_call : {n : ℕ} {s : Server} → Reachable (suc n) s → Reachable n (infer_end s)
  sets_fault :
      {n : ℕ} {s : Server} → Reachable n s → (mode : FaultMode) → Reachable n (admin mode s)

infer_start-running : (s t : Server) → infer_start s ≡ running t → t.in_flight ≡ s.in_flight + 1
unfolding infer_start
infer_start-running s t e = elim (Bool-cases (s.killed || s.infer_failing)) [
  | inl b ↦ ground (arith, e, b)
  | inr b ↦ ground (arith, e, b)
]

-- The in-flight count is the number of calls that run, whatever faults are injected meanwhile: it
-- comes back to 0 and never goes below.
pub in_flight_lem : (n : ℕ) (s : Server) → Reachable n s → s.in_flight ≡ n
unfolding infer_end admin
in_flight_lem n s starts_up = refl
in_flight_lem n s (starts_call {n = m} {s = u} r e) =
    omega (arith, infer_start-running u s e, in_flight_lem m u r)
in_flight_lem n s (ends_call {n = m} {s = u} r) = omega (arith, in_flight_lem (suc n) u r)
in_flight_lem n s (sets_fault {n = m} {s = u} r kill) = in_flight_lem m u r
in_flight_lem n s (sets_fault {n = m} {s = u} r fail_infer) = in_flight_lem m u r
in_flight_lem n s (sets_fault {n = m} {s = u} r revive) = in_flight_lem m u r

-- The server after these admin calls, the oldest first.
unfoldable pub admins : List FaultMode → Server → Server
admins [] s = s
admins (m ∷ ms) s = admins ms (admin m s)

-- No `revive` among the calls.
abbrev pub NoRevive : List FaultMode → Type 0
NoRevive [] = Unit
NoRevive (revive ∷ ms) = ⊥
NoRevive (m ∷ ms) = NoRevive ms

killed-stays :
    (ms : List FaultMode) (s : Server) → NoRevive ms → s.killed ≡ true → (admins ms s).killed ≡ true
unfolding admins admin
killed-stays [] s h e = e
killed-stays (kill ∷ ms) s h e = killed-stays ms (admin kill s) h refl
killed-stays (fail_infer ∷ ms) s h e = killed-stays ms (admin fail_infer s) h e
killed-stays (revive ∷ ms) s h e = absurd h

failing-stays :
    (ms : List FaultMode) (s : Server)
    → NoRevive ms
    → s.infer_failing ≡ true
    → (admins ms s).infer_failing ≡ true
unfolding admins admin
failing-stays [] s h e = e
failing-stays (kill ∷ ms) s h e = failing-stays ms (admin kill s) h e
failing-stays (fail_infer ∷ ms) s h e = failing-stays ms (admin fail_infer s) h refl
failing-stays (revive ∷ ms) s h e = absurd h

-- Until a `revive`, a killed replica fails every probe and every request, and one with `fail_infer`
-- fails every request, while its probes pass unless it is killed too; a `revive` clears both faults,
-- whatever came before.
pub fault_lem :
    (s : Server) (ms : List FaultMode) (baseline : ℕ)
    → (NoRevive ms
        → (health (admins ms (admin kill s)) baseline ≡ unavailable)
          × (infer_start (admins ms (admin kill s)) ≡ rejected "killed"))
      × (NoRevive ms
          → (error : String) × (infer_start (admins ms (admin fail_infer s)) ≡ rejected error))
      × (health (admin fail_infer s) baseline ≡ health s baseline)
      × (health (admin revive (admins ms s)) baseline
          ≡ healthy ((admins ms s).in_flight + baseline))
      × (infer_start (admin revive (admins ms s))
          ≡ running (record {
            in_flight = (admins ms s).in_flight + 1;
            killed = false;
            infer_failing = false;
          }))
unfolding health infer_start admin
fault_lem s ms baseline = (
  λ h. let e = killed-stays ms (admin kill s) h refl in (rw e, rw e),
  λ h.
      let e = failing-stays ms (admin fail_infer s) h refl in
      let t = admins ms (admin fail_infer s) in
      (if t.killed then "killed" else "infer_failing", ground (arith, e)),
  refl,
  refl,
  refl,
)

-- Four replicas in a row have four different latency bands and load amplitudes, and the fifth has
-- those of the first.
pub profile_for_index_lem :
    (i j : ℕ)
    → (profile_for_index (i + 4) ≡ profile_for_index i)
      × (i < j
          → j < i + 4
          → (profile_for_index i).base_latency_ms ≢ (profile_for_index j).base_latency_ms)
      × (i < j
          → j < i + 4
          → (profile_for_index i).load_amplitude ≢ (profile_for_index j).load_amplitude)
unfolding profile_for_index
profile_for_index_lem i j =
    (let e : (i + 4) % 4 ≡ i % 4 = omega arith in rw e, λ h k e. omega arith, λ h k e. omega arith)
