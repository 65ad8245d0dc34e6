-- ===== src/Main/Reach.antt =====
-- src/main.ts, `waitUntilReachable`: a replica's `/health` is asked until it answers. Whether probe `n` is
-- answered, and the clock after it, are arguments; `sleep(50)` comes between two probes.
use whyrouted.Prelude.{
  ℕ, zero, suc, ◌+◌, ◌*◌, ◌/◌, ◌≤◌, ◌<◌, leb, Bool, true, false, if◌then◌else◌, ◌≡◌, inl, inr,
  arith, Bool-cases,
}

pub data Reach : Type 0 where
  reachable : ℕ → Reach
  not_reachable : ℕ → Reach
  out_of_fuel : Reach

module _ (answers : ℕ → Bool) (clock : ℕ → ℕ) where
  -- From probe `n` on; the result names the last probe.
  unfoldable pub probe_until : ℕ → ℕ → ℕ → Reach
  probe_until zero deadline n = out_of_fuel
  probe_until (suc fuel) deadline n =
      let rest = probe_until fuel deadline (n + 1) in
      if answers n then reachable n else if leb deadline (clock n) then not_reachable n else rest

  -- The clock was read `started` before the first probe.
  unfoldable pub wait_until_reachable : ℕ → ℕ → ℕ → Reach
  wait_until_reachable fuel started timeout = probe_until fuel (started + timeout) 0

  -- From probe `n` on none is answered before `k`, and the deadline is not over.
  abbrev pub Unanswered : ℕ → ℕ → ℕ → Type 0
  Unanswered deadline n k = (i : ℕ) → n ≤ i → i < k → (answers i ≡ false) × (clock i < deadline)

  -- How the wait ended.
  abbrev pub EndsAt : ℕ → ℕ → Reach → Type 0
  EndsAt deadline n (reachable k) = (n ≤ k) × (answers k ≡ true) × Unanswered deadline n k
  EndsAt deadline n (not_reachable k) =
      (n ≤ k) × (answers k ≡ false) × (deadline ≤ clock k) × Unanswered deadline n k
  EndsAt deadline n out_of_fuel = ⊥

  module _ (later : (n : ℕ) → clock n + 50 ≤ clock (n + 1)) where
    EndsAt-back :
        (deadline n : ℕ) (r : Reach)
        → answers n ≡ false
        → clock n < deadline
        → EndsAt deadline (n + 1) r
        → EndsAt deadline n r
    EndsAt-back deadline n (reachable k) h c (le, good, before) = (
      omega arith,
      good,
      λ i lo hi. elim (Bool-cases (leb (n + 1) i)) [
        | inl after ↦ before i (ground arith) hi
        | inr at ↦ let same : i ≡ n = ground arith in rw same (h, c)
      ],
    )
    EndsAt-back deadline n (not_reachable k) h c (le, bad, over, before) = (
      omega arith,
      bad,
      over,
      λ i lo hi. elim (Bool-cases (leb (n + 1) i)) [
        | inl after ↦ before i (ground arith) hi
        | inr at ↦ let same : i ≡ n = ground arith in rw same (h, c)
      ],
    )
    EndsAt-back deadline n out_of_fuel h c e = e

    probe_until-EndsAt :
        (fuel deadline n : ℕ)
        → deadline ≤ clock n + 50 * fuel
        → EndsAt deadline n (probe_until (suc fuel) deadline n)
    unfolding probe_until
    probe_until-EndsAt zero deadline n h = elim (Bool-cases (answers n)) [
      | inl good ↦ rw good (omega arith, good, λ i lo hi. absurd (omega arith))
      | inr bad ↦
          let over : leb deadline (clock n) ≡ true = ground (arith, h) in
          rw (bad, over) (omega arith, bad, omega arith, λ i lo hi. absurd (omega arith))
    ]
    probe_until-EndsAt (suc fuel) deadline n h = elim (Bool-cases (answers n)) [
      | inl good ↦ rw good (omega arith, good, λ i lo hi. absurd (omega arith))
      | inr bad ↦ elim (Bool-cases (leb deadline (clock n))) [
        | inl over ↦
            rw (bad, over) (omega arith, bad, ground arith, λ i lo hi. absurd (omega arith))
        | inr early ↦
            rw (bad, early)
              (EndsAt-back deadline n _ bad (ground arith)
                (probe_until-EndsAt fuel deadline (n + 1) (omega (arith, later n))))
      ]
    ]

    -- With a clock that does not go back and a sleep of at least 50 ms, `timeout / 50 + 2` probes are enough: the
    -- wait ends. It ends well at the first probe that is answered; and it gives up at the first one that
    -- is not answered and after which the timeout has elapsed.
    pub wait_until_reachable-EndsAt :
        (started timeout : ℕ)
        → started ≤ clock 0
        → EndsAt
            (started + timeout)
            0
            (wait_until_reachable (suc (suc (timeout / 50))) started timeout)
    unfolding wait_until_reachable
    wait_until_reachable-EndsAt started timeout h =
        probe_until-EndsAt (suc (timeout / 50)) (started + timeout) 0 (omega arith)
