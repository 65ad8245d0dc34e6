-- ===== src/Health/Scheduler/Streaks.antt =====
-- Health/Scheduler/Streaks: hysteresis over a history of probes. No blip moves a replica: only a
-- whole streak does.
use whyrouted.Prelude.{
  ℕ, zero, suc, ◌+◌, ◌<◌, ◌≤◌, Bool, true, false, List, [], ◌∷◌, ◌≡◌, ◌≢◌, refl, arith,
}
use whyrouted.Types.{healthy, unhealthy}
use whyrouted.Health.Scheduler.{Hysteresis, Thresholds}
use whyrouted.Health.Scheduler.Model.{probed, ejected}

-- The hysteresis after probes with these results, the oldest first.
unfoldable pub probed_all : Thresholds → List Bool → Hysteresis → Hysteresis
probed_all opts [] h = h
probed_all opts (b ∷ bs) h = probed_all opts bs (probed opts b h)

-- No `n` successes in a row, counting `c` that came before.
abbrev pub NoSuccessStreak : ℕ → ℕ → List Bool → Type 0
NoSuccessStreak n c [] = Unit
NoSuccessStreak n c (true ∷ bs) = (c + 1 < n) × NoSuccessStreak n (c + 1) bs
NoSuccessStreak n c (false ∷ bs) = NoSuccessStreak n 0 bs

abbrev pub NoFailureStreak : ℕ → ℕ → List Bool → Type 0
NoFailureStreak n c [] = Unit
NoFailureStreak n c (false ∷ bs) = (c + 1 < n) × NoFailureStreak n (c + 1) bs
NoFailureStreak n c (true ∷ bs) = NoFailureStreak n 0 bs

-- An unhealthy replica stays unhealthy as long as no `M` successes come in a row.
pub stays_unhealthy :
    (opts : Thresholds) (bs : List Bool) (h : Hysteresis)
    → h.health ≡ unhealthy
    → NoSuccessStreak opts.healthy_threshold h.consec_successes bs
    → (probed_all opts bs h).health ≡ unhealthy
unfolding probed_all probed
stays_unhealthy opts [] h e n = e
stays_unhealthy opts (true ∷ bs) h e n =
    stays_unhealthy opts bs (probed opts true h) (ground arith) n.1
stays_unhealthy opts (false ∷ bs) h e n =
    stays_unhealthy opts bs (probed opts false h) (ground arith) n

-- A healthy replica stays healthy as long as no `N` failures come in a row.
pub stays_healthy :
    (opts : Thresholds) (bs : List Bool) (h : Hysteresis)
    → h.health ≡ healthy
    → NoFailureStreak opts.unhealthy_threshold h.consec_failures bs
    → (probed_all opts bs h).health ≡ healthy
unfolding probed_all probed
stays_healthy opts [] h e n = e
stays_healthy opts (false ∷ bs) h e n =
    stays_healthy opts bs (probed opts false h) (ground arith) n.1
stays_healthy opts (true ∷ bs) h e n = stays_healthy opts bs (probed opts true h) (ground arith) n

abbrev pub repeat : ℕ → Bool → List Bool
repeat zero b = []
repeat (suc n) b = b ∷ repeat n b

stays_up :
    (opts : Thresholds) (k : ℕ) (h : Hysteresis)
    → h.health ≡ healthy
    → (probed_all opts (repeat k true) h).health ≡ healthy
unfolding probed_all probed
stays_up opts zero h e = e
stays_up opts (suc k) h e = stays_up opts k (probed opts true h) (ground arith)

stays_down :
    (opts : Thresholds) (k : ℕ) (h : Hysteresis)
    → h.health ≡ unhealthy
    → (probed_all opts (repeat k false) h).health ≡ unhealthy
unfolding probed_all probed
stays_down opts zero h e = e
stays_down opts (suc k) h e = stays_down opts k (probed opts false h) (ground arith)

-- The missing successes in a row, or more, make any replica healthy.
pub streak_up :
    (opts : Thresholds) (k : ℕ) (h : Hysteresis)
    → 0 < k
    → opts.healthy_threshold ≤ h.consec_successes + k
    → (probed_all opts (repeat k true) h).health ≡ healthy
unfolding probed_all probed
streak_up opts zero h p q = elim p [ ]
streak_up opts (suc zero) h p q = ground arith
streak_up opts (suc (suc k)) h p q =
    streak_up opts (suc k) (probed opts true h) (omega arith) (omega arith)

-- The missing failures in a row, or more, make any replica unhealthy.
pub streak_down :
    (opts : Thresholds) (k : ℕ) (h : Hysteresis)
    → 0 < k
    → opts.unhealthy_threshold ≤ h.consec_failures + k
    → (probed_all opts (repeat k false) h).health ≡ unhealthy
unfolding probed_all probed
streak_down opts zero h p q = elim p [ ]
streak_down opts (suc zero) h p q = ground arith
streak_down opts (suc (suc k)) h p q =
    streak_down opts (suc k) (probed opts false h) (omega arith) (omega arith)

NoSuccessStreak-repeat : (n c k : ℕ) → c + k < n → NoSuccessStreak n c (repeat k true)
NoSuccessStreak-repeat n c zero h = tt
NoSuccessStreak-repeat n c (suc k) h =
    (omega arith, NoSuccessStreak-repeat n (c + 1) k (omega arith))

-- After a request-driven ejection the replica is back exactly when `M` probes in a row have passed:
-- `k` successes leave it unhealthy for `k < M` and make it healthy for `k ≥ M`.
pub ejected_recovers :
    (opts : Thresholds) (h : Hysteresis) (k : ℕ)
    → h.health ≢ unhealthy
    → 0 < opts.healthy_threshold
    → let health = (probed_all opts (repeat k true) (ejected opts h)).health in
      (k < opts.healthy_threshold → health ≡ unhealthy)
      × (opts.healthy_threshold ≤ k → health ≡ healthy)
unfolding ejected
ejected_recovers opts h k up pos =
    let down : Hysteresis = record {
      health = unhealthy;
      consec_failures = opts.unhealthy_threshold;
      consec_successes = 0;
    } in
    let e : ejected opts h ≡ down = ground arith in
    rw e (
      λ few.
          stays_unhealthy opts (repeat k true) down refl
            (NoSuccessStreak-repeat opts.healthy_threshold 0 k (omega arith)),
      λ enough. streak_up opts k down (omega arith) (omega arith),
    )
