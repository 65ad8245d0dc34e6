-- ===== src/Mcp/Aggregate/Laws.antt =====
-- Mcp/Aggregate/Laws: what the counts of an aggregate count.
use whyrouted.Prelude.{
  ℕ, ◌+◌, ◌≤◌, ltb, String, str_eq, str_eq_iff, Bool, true, false, Option, none, some, List, [],
  ◌∷◌, ◌++◌, length, filter, sort, length-sort, append_assoc, append-nil, ◌≡◌, refl, sym, ap, ◌∙◌,
  arith, if◌then◌else◌,
}
use whyrouted.Health.Scheduler.{get}
use whyrouted.Health.Scheduler.Writes.{get-put}
use whyrouted.Decisions.{Decision}
use whyrouted.Mcp.Aggregate.{
  AggregateData, Counted, or_zero, count_served, count_latency, count_all, aggregate, summary_of,
}

abbrev pub is_served : Decision → Bool
is_served d = elim d.chosen_replica_id [ none ↦ false | some id ↦ true ]

abbrev chose : String → Option String → Bool
chose id none = false
chose id (some other) = str_eq other id

abbrev pub is_served_by : String → Decision → Bool
is_served_by id d = chose id d.chosen_replica_id

abbrev add_latency : Option ℕ → List ℕ → List ℕ
add_latency none rest = rest
add_latency (some ms) rest = ms ∷ rest

-- The latencies of the decisions that carry one.
abbrev pub latencies_of : List Decision → List ℕ
latencies_of [] = []
latencies_of (d ∷ ds) = add_latency d.latency_ms (latencies_of ds)

count_all-served :
    (ds : List Decision) (t : Counted)
    → (count_all ds t).served ≡ t.served + length (filter is_served ds)
unfolding count_all
count_all-served [] t = omega arith
count_all-served (d ∷ ds) t =
    let t' = count_latency d.latency_ms (count_served d.chosen_replica_id t) in
    ground (arith, count_all-served ds t')

count_served-by_replica :
    (o : Option String) (t : Counted) (id : String)
    → or_zero (get id (count_served o t).served_by_replica)
      ≡ or_zero (get id t.served_by_replica) + (if chose id o then 1 else 0)
count_served-by_replica none t id = omega arith
count_served-by_replica (some other) t id = ground (
  arith,
  get-put other id (or_zero (get other t.served_by_replica) + 1) t.served_by_replica,
  str_eq_iff other id,
)

count_latency-by_replica :
    (o : Option ℕ) (t : Counted) → (count_latency o t).served_by_replica ≡ t.served_by_replica
count_latency-by_replica none t = refl
count_latency-by_replica (some ms) t = refl

count_served-latencies :
    (o : Option String) (t : Counted) → (count_served o t).latencies ≡ t.latencies
count_served-latencies none t = refl
count_served-latencies (some id) t = refl

latencies-step :
    (o : Option ℕ) (t : Counted) (rest : List ℕ)
    → (count_latency o t).latencies ++ rest ≡ t.latencies ++ add_latency o rest
latencies-step none t rest = refl
latencies-step (some ms) t rest = append_assoc t.latencies (ms ∷ []) rest

count_all-by_replica :
    (ds : List Decision) (t : Counted) (id : String)
    → or_zero (get id (count_all ds t).served_by_replica)
      ≡ or_zero (get id t.served_by_replica) + length (filter (is_served_by id) ds)
unfolding count_all
count_all-by_replica [] t id = omega arith
count_all-by_replica (d ∷ ds) t id =
    let t' = count_latency d.latency_ms (count_served d.chosen_replica_id t) in
    ground (
      arith,
      count_all-by_replica ds t' id,
      count_latency-by_replica d.latency_ms (count_served d.chosen_replica_id t),
      count_served-by_replica d.chosen_replica_id t id,
    )

count_all-latencies :
    (ds : List Decision) (t : Counted) → (count_all ds t).latencies ≡ t.latencies ++ latencies_of ds
unfolding count_all
count_all-latencies [] t = sym (append-nil t.latencies)
count_all-latencies (d ∷ ds) t =
    let t' = count_latency d.latency_ms (count_served d.chosen_replica_id t) in
    count_all-latencies ds t'
    ∙ latencies-step d.latency_ms (count_served d.chosen_replica_id t) (latencies_of ds)
    ∙ ap (λ l. l ++ add_latency d.latency_ms (latencies_of ds))
        (count_served-latencies d.chosen_replica_id t)

filter-le {ℓ} : {A : Type ℓ} (p : A → Bool) (xs : List A) → length (filter p xs) ≤ length xs
filter-le p [] = omega arith
filter-le p (x ∷ xs) = ground (arith, filter-le p xs)

abbrev pub sample_size : AggregateData → ℕ
sample_size a = elim a.latency [ none ↦ 0 | some l ↦ l.sample_size ]

summary_size :
    (xs : List ℕ) → elim (summary_of xs) [ none ↦ 0 | some l ↦ l.sample_size ] ≡ length xs
summary_size [] = refl
summary_size (x ∷ xs) = refl

-- The aggregate counts every decision once, as served or as failed: served are those with a chosen
-- replica, and for each replica the decisions that chose it; the sample of latencies is as large as
-- the number of decisions that carry one.
pub aggregate_lem :
    (ds : List Decision) (from to id : String)
    → let a = aggregate ds from to in
      (a.total ≡ length ds)
      × (a.served ≡ length (filter is_served ds))
      × (a.served + a.failed ≡ a.total)
      × (or_zero (get id a.served_by_replica) ≡ length (filter (is_served_by id) ds))
      × (sample_size a ≡ length (latencies_of ds))
unfolding aggregate get
aggregate_lem ds from to id =
    let t : Counted = record { served = 0; served_by_replica = []; latencies = [] } in
    (
      refl,
      omega (arith, count_all-served ds t),
      omega (arith, count_all-served ds t, filter-le is_served ds),
      ground (arith, count_all-by_replica ds t id),
      summary_size (sort ltb (count_all ds t).latencies)
          ∙ length-sort ltb (count_all ds t).latencies
          ∙ ap length (count_all-latencies ds t),
    )
