-- ===== src/Health/Scheduler/Sweep.antt =====
-- src/health/scheduler.ts, `start`, `stop` and `pollAll`: the timer and the flag that keeps sweeps from
-- overlapping. A probe that has been sent and not handled is pending. `Promise.all` settles when all probes
-- of its sweep are handled or one of them rejects; `settle` is the `finally` block that runs then, and
-- the probes that are still pending after a rejection are stray from there on.
use whyrouted.Prelude.{
  ℕ, suc, ◌+◌, ◌*◌, ◌≤◌, String, str_eq, Bool, true, false, List, [], ◌∷◌, ◌++◌, filter, length,
  if◌then◌else◌, ◌≡◌, append-nil, refl, sym, subst, arith,
}
use native.Mathlib.Nat.{le_trans, add-le-add, suc-mul}

pub record Sweeper : Type 0 where
  pub timer : Bool
  pub polling : Bool
  pub pending : List String
  pub rejected : Bool
  pub stray : List String

abbrev pub idle : Sweeper
idle = record { timer = false; polling = false; pending = []; rejected = false; stray = [] }

-- Up to the `await`: one more probe for each id, unless a sweep is running.
unfoldable pub poll_all : List String → Sweeper → Sweeper
poll_all ids s = if s.polling then s else record s { polling = true; pending = s.pending ++ ids }

-- The first sweep is sent before the timer is set.
unfoldable pub start : List String → Sweeper → Sweeper
start ids s = if s.timer then s else record (poll_all ids s) { timer = true }

unfoldable pub stop : Sweeper → Sweeper
stop s = record s { timer = false }

remove_one : String → List String → List String
remove_one id [] = []
remove_one id (x ∷ xs) = let rest = remove_one id xs in if str_eq x id then xs else x ∷ rest

-- A probe of `id` is handled, or rejects: one of the running sweep, or a stray one, for which nobody waits.
unfoldable pub handled : String → Sweeper → Sweeper
unfolding remove_one
handled id s = record s { pending = remove_one id s.pending }

unfoldable pub rejects : String → Sweeper → Sweeper
unfolding remove_one
rejects id s = record s { pending = remove_one id s.pending; rejected = true }

unfoldable pub stray_ended : String → Sweeper → Sweeper
unfolding remove_one
stray_ended id s = record s { stray = remove_one id s.stray }

unfoldable pub settle : Sweeper → Sweeper
settle s = record s {
  polling = false;
  pending = [];
  rejected = false;
  stray = s.stray ++ s.pending;
}

-- What can happen: the program starts or stops the scheduler, the timer fires while it is set, a probe is
-- handled or rejects, and a sweep ends, when none of its probes is pending or when one has rejected.
-- The number counts the sweeps that ended by a rejection.
pub data Reachable (ids : List String) : ℕ → Sweeper → Type 0 where
  at_first : Reachable ids 0 idle
  starts : {n : ℕ} {s : Sweeper} → Reachable ids n s → Reachable ids n (start ids s)
  stops : {n : ℕ} {s : Sweeper} → Reachable ids n s → Reachable ids n (stop s)
  fires :
      {n : ℕ} {s : Sweeper} → Reachable ids n s → s.timer ≡ true → Reachable ids n (poll_all ids s)
  handles :
      {n : ℕ} {s : Sweeper} → Reachable ids n s → (id : String) → Reachable ids n (handled id s)
  fails :
      {n : ℕ} {s : Sweeper}
      → Reachable ids n s
      → (id : String) → s.polling ≡ true
      → Reachable ids n (rejects id s)
  ends_stray :
      {n : ℕ} {s : Sweeper} → Reachable ids n s → (id : String) → Reachable ids n (stray_ended id s)
  settles :
      {n : ℕ} {s : Sweeper}
      → Reachable ids n s
      → s.polling ≡ true
      → s.pending ≡ []
      → Reachable ids n (settle s)
  gives_up :
      {n : ℕ} {s : Sweeper}
      → Reachable ids n s
      → s.polling ≡ true
      → s.rejected ≡ true
      → Reachable ids (suc n) (settle s)

abbrev pub count : String → List String → ℕ
count id xs = length (filter (λ x. str_eq x id) xs)

remove_one-le : (id j : String) (xs : List String) → count j (remove_one id xs) ≤ count j xs
unfolding remove_one
remove_one-le id j [] = omega arith
remove_one-le id j (x ∷ xs) = ground (arith, remove_one-le id j xs)

count-append : (id : String) (xs ys : List String) → count id (xs ++ ys) ≡ count id xs + count id ys
count-append id [] ys = omega arith
count-append id (x ∷ xs) ys = ground (arith, count-append id xs ys)

remove_one-nil : (id : String) (xs : List String) → xs ≡ [] → remove_one id xs ≡ []
unfolding remove_one
remove_one-nil id [] e = refl
remove_one-nil id (x ∷ xs) e = cc

pub record Bounded (ids : List String) (n : ℕ) (s : Sweeper) : Type 0 where
  pub quiet : s.polling ≡ false → s.pending ≡ []
  pub at_most_once : (id : String) → count id s.pending ≤ count id ids
  pub few_stray : (id : String) → count id s.stray ≤ n * count id ids

poll_all-Bounded :
    (ids : List String) (n : ℕ) (s : Sweeper) → Bounded ids n s → Bounded ids n (poll_all ids s)
unfolding poll_all
poll_all-Bounded ids n s b = go s.polling refl
  where
    go :
        (p : Bool)
        → s.polling ≡ p
        → Bounded ids n (if p then s else record s { polling = true; pending = s.pending ++ ids })
    go true e = b
    go false e = record {
      quiet = λ q. cc;
      at_most_once =
          λ id. subst (λ xs. count id (xs ++ ids) ≤ count id ids) (sym (b.quiet e)) (omega arith);
      few_stray = b.few_stray;
    }

either-Bounded :
    (ids : List String) (n : ℕ) (b : Bool) (s t : Sweeper)
    → Bounded ids n s
    → Bounded ids n t
    → Bounded ids n (if b then s else t)
either-Bounded ids n true s t h k = h
either-Bounded ids n false s t h k = k

-- However often the scheduler is started, stopped and fired, probes do not stack up: the running sweep has
-- no more probes of a replica pending than the replica has entries among the scheduler's ids, and none
-- is pending when no sweep is running; and of stray probes, which only a sweep that ended by a
-- rejection leaves, there are for each replica no more than its entries times the number of such
-- sweeps.
pub sweeps-Bounded : (ids : List String) (n : ℕ) (s : Sweeper) → Reachable ids n s → Bounded ids n s
unfolding handled rejects stray_ended settle stop start
sweeps-Bounded ids n s at_first = record {
  quiet = λ q. refl;
  at_most_once = λ id. omega arith;
  few_stray = λ id. omega arith;
}
sweeps-Bounded ids n s (starts {s = t} r) =
    let b = poll_all-Bounded ids n t (sweeps-Bounded ids n t r) in
    either-Bounded ids n t.timer t (record (poll_all ids t) { timer = true })
      (sweeps-Bounded ids n t r)
      (record { quiet = b.quiet; at_most_once = b.at_most_once; few_stray = b.few_stray })
sweeps-Bounded ids n s (stops {s = t} r) =
    let b = sweeps-Bounded ids n t r in
    record { quiet = b.quiet; at_most_once = b.at_most_once; few_stray = b.few_stray }
sweeps-Bounded ids n s (fires {s = t} r e) = poll_all-Bounded ids n t (sweeps-Bounded ids n t r)
sweeps-Bounded ids n s (handles {s = t} r id) =
    let b = sweeps-Bounded ids n t r in
    record {
      quiet = λ q. remove_one-nil id t.pending (b.quiet q);
      at_most_once = λ j. omega (arith, remove_one-le id j t.pending, b.at_most_once j);
      few_stray = b.few_stray;
    }
sweeps-Bounded ids n s (fails {s = t} r id p) =
    let b = sweeps-Bounded ids n t r in
    record {
      quiet = λ q. remove_one-nil id t.pending (b.quiet q);
      at_most_once = λ j. omega (arith, remove_one-le id j t.pending, b.at_most_once j);
      few_stray = b.few_stray;
    }
sweeps-Bounded ids n s (ends_stray {s = t} r id) =
    let b = sweeps-Bounded ids n t r in
    record {
      quiet = b.quiet;
      at_most_once = b.at_most_once;
      few_stray = λ j.
          let few : count j t.stray ≤ n * count j ids = b.few_stray j in
          le_trans (remove_one-le id j t.stray) few;
    }
sweeps-Bounded ids n s (settles {s = t} r e none_left) =
    let b = sweeps-Bounded ids n t r in
    record {
      quiet = λ q. refl;
      at_most_once = λ j. omega arith;
      few_stray = λ j. rw (none_left, append-nil t.stray) (b.few_stray j);
    }
sweeps-Bounded ids n s (gives_up {n = m} {s = t} r e f) =
    let b = sweeps-Bounded ids m t r in
    record {
      quiet = λ q. refl;
      at_most_once = λ j. omega arith;
      few_stray = λ j.
          rw (count-append j t.stray t.pending, suc-mul m (count j ids))
            (add-le-add (b.few_stray j) (b.at_most_once j));
    }
