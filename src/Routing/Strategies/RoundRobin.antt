-- ===== src/Routing/Strategies/RoundRobin.antt =====
-- src/routing/strategies/round-robin.ts. The cursor is the state that an instance keeps.
use whyrouted.Prelude.{
  ℕ, zero, suc, ◌+◌, ◌-◌, ◌%◌, ◌<◌, ◌≤◌, String, Option, none, some, List, [], ◌∷◌, length,
  get_elem?, ◌≡◌, refl, Memᴰ, All, sym, ap, ◌∙◌, arith, ◌↔◌, ◌⊎◌, inl, inr,
}
use native.Mathlib.Nat.{mod_self, add-zero, mod-lt, mod-eq_of_lt, mod-eq-sub-mod, mod-add-mod}
use mathlib.Core.Option
use native.Mathlib.Decide.{dec_lt}
use whyrouted.Types.{ReplicaState}
use whyrouted.Routing.Score.{CandidateScore, score_entry}

-- The chosen id and the next cursor.
unfoldable pub pick : ℕ → List ReplicaState → Option String × ℕ
pick cursor [] = (none, cursor)
pick cursor (c ∷ cs) =
    let candidates = c ∷ cs in
    (
      Option.map (λ (chosen : ReplicaState). chosen.id)
          (get_elem? candidates (cursor % length candidates)),
      cursor + 1,
    )

-- The callback of `map`, from `index` on, for `n` candidates.
score_from : ℕ → ℕ → ℕ → List ReplicaState → List CandidateScore
score_from cursor n index [] = []
score_from cursor n index (c ∷ cs) =
    score_entry c ((index + n - cursor % n) % n) ∷ score_from cursor n (index + 1) cs

unfoldable pub score : ℕ → List ReplicaState → List CandidateScore
unfolding score_from
score cursor candidates = score_from cursor (length candidates) 0 candidates

mod_below_twice : (a n : ℕ) → a < n + n → ((a < n) × (a % n ≡ a)) ⊎ ((n ≤ a) × (a % n + n ≡ a))
mod_below_twice a n h = elim (dec_lt a n) [
  | yes p ↦ inl (p, mod-eq_of_lt p)
  | no p ↦
      let above : n ≤ a = omega arith in
      let below : a - n < n = omega arith in
      inr (above, omega (arith, mod-eq-sub-mod above, mod-eq_of_lt below))
]

-- The score of index `i` is the number of picks after which the cursor points at it.
distance :
    (cursor n i j : ℕ) → i < n → j < n → ((i + n - cursor % n) % n ≡ j) ↔ ((cursor + j) % n ≡ i)
distance cursor n i j h k =
    let q : cursor % n < n = mod-lt cursor (omega arith) in
    let same : (cursor % n + j) % n ≡ (cursor + j) % n = mod-add-mod cursor n j in
    let there = mod_below_twice (i + n - cursor % n) n (omega arith) in
    let back = mod_below_twice (cursor % n + j) n (omega arith) in
    (λ e. omega (arith, there, back, same), λ e. omega (arith, there, back, same))

get_elem?-score_from :
    (cursor n k i : ℕ) (cs : List ReplicaState) (c : ReplicaState)
    → get_elem? cs i ≡ some c
    → get_elem? (score_from cursor n k cs) i ≡ some (score_entry c ((k + i + n - cursor % n) % n))
unfolding score_from
get_elem?-score_from cursor n k i [] c h = cc
get_elem?-score_from cursor n k zero (d ∷ cs) c h = ground arith
get_elem?-score_from cursor n k (suc i) (d ∷ cs) c h =
    let e : k + suc i ≡ k + 1 + i = omega arith in
    rw e (get_elem?-score_from cursor n (k + 1) i cs c h)

get_elem?-some :
    (cs : List ReplicaState) (i : ℕ)
    → i < length cs
    → (c : ReplicaState) × (get_elem? cs i ≡ some c)
get_elem?-some [] i h = elim h [ ]
get_elem?-some (c ∷ cs) zero h = (c, refl)
get_elem?-some (c ∷ cs) (suc i) h = get_elem?-some cs i (omega arith)

-- `k` picks in a row, from one list of candidates.
unfoldable pub picks : ℕ → ℕ → List ReplicaState → List (Option String)
picks zero cursor cs = []
picks (suc k) cursor cs = let (id, next) = pick cursor cs in id ∷ picks k next cs

pub pick_lem :
    (cursor : ℕ) (c : ReplicaState) (cs : List ReplicaState)
    → (d : ReplicaState) × (get_elem? (c ∷ cs) (cursor % length (c ∷ cs)) ≡ some d)
      × (pick cursor (c ∷ cs) ≡ (some d.id, cursor + 1))
unfolding pick
pick_lem cursor c cs =
    let (d, e) = get_elem?-some (c ∷ cs) (cursor % length (c ∷ cs)) (mod-lt cursor (omega arith)) in
    (d, e, ground arith)

get_elem?-picks :
    (k j cursor : ℕ) (c : ReplicaState) (cs : List ReplicaState)
    → j < k
    → (d : ReplicaState) × (get_elem? (c ∷ cs) ((cursor + j) % length (c ∷ cs)) ≡ some d)
      × (get_elem? (picks k cursor (c ∷ cs)) j ≡ some (some d.id))
unfolding picks
get_elem?-picks zero j cursor c cs h = elim h [ ]
get_elem?-picks (suc k) zero cursor c cs h =
    let (d, e, p) = pick_lem cursor c cs in (d, rw (add-zero cursor) e, rw p)
get_elem?-picks (suc k) (suc j) cursor c cs h =
    let (_, _, p) = pick_lem cursor c cs in
    let (d, e, q) = get_elem?-picks k j (cursor + 1) c cs (omega arith) in
    let same : cursor + suc j ≡ cursor + 1 + j = omega arith in (d, rw same e, rw p q)

get_elem?-lt :
    (cs : List ReplicaState) (i : ℕ) (c : ReplicaState) → get_elem? cs i ≡ some c → i < length cs
get_elem?-lt [] i c h = cc
get_elem?-lt (d ∷ cs) zero c h = omega arith
get_elem?-lt (d ∷ cs) (suc i) c h = omega (arith, get_elem?-lt cs i c h)

-- The ids of the candidates differ from place to place.
abbrev pub HasDistinctIds : List ReplicaState → Type 0
HasDistinctIds cs =
    (i j : ℕ) (c d : ReplicaState)
    → get_elem? cs i ≡ some c
    → get_elem? cs j ≡ some d
    → c.id ≡ d.id
    → i ≡ j

-- A candidate's score `s` is less than the number `n` of candidates, and says when it is picked: of
-- the next `n` picks from the same candidates, whose ids differ, number `s` picks it, counting from
-- 0, and no other does. So each candidate is picked exactly once in `n` picks.
pub score-picks :
    (cursor i : ℕ) (cs : List ReplicaState) (d : ReplicaState)
    → HasDistinctIds cs
    → get_elem? cs i ≡ some d
    → (e : CandidateScore) × (get_elem? (score cursor cs) i ≡ some e)
      × (e.replica_id ≡ d.id)
      × (e.score < length cs)
      × (get_elem? (picks (length cs) cursor cs) e.score ≡ some (some d.id))
      × ((j : ℕ)
          → j < length cs
          → get_elem? (picks (length cs) cursor cs) j ≡ some (some d.id)
          → j ≡ e.score)
score-picks cursor i [] d distinct h = cc
score-picks cursor i (c ∷ cs) d distinct h =
    let n = length (c ∷ cs) in
    let s = (0 + i + n - cursor % n) % n in
    let bound : i < n = get_elem?-lt (c ∷ cs) i d h in
    let small : s < n = mod-lt (0 + i + n - cursor % n) (omega arith) in
    let zero_first : 0 + i ≡ i = omega arith in
    let there : (cursor + s) % n ≡ i = (distance cursor n i s bound small).0 (rw zero_first) in
    let (d', e, p) = get_elem?-picks n s cursor c cs small in
    let same : some d ≡ some d' = sym h ∙ (rw there at e) in
    (
      score_entry d s,
      unfold score in get_elem?-score_from cursor n 0 i (c ∷ cs) d h,
      refl,
      small,
      p ∙ ap some (cc),
      λ j k q.
          let (d'', e'', p'') = get_elem?-picks n j cursor c cs k in
          let at_i : (cursor + j) % n ≡ i = distinct _ i d'' d e'' h (cc) in
          sym ((distance cursor n i j bound k).1 at_i) ∙ rw zero_first,
    )

get_elem?-mem {ℓ} : {A : Type ℓ} (xs : List A) (i : ℕ) (a : A) → get_elem? xs i ≡ some a → Memᴰ a xs
get_elem?-mem [] i a h = cc
get_elem?-mem (x ∷ xs) zero a h = Memᴰ.head (cc)
get_elem?-mem (x ∷ xs) (suc i) a h = Memᴰ.tail (get_elem?-mem xs i a h)

-- What is picked is one of the candidates.
pub pick-mem :
    (cursor : ℕ) (cs : List ReplicaState) (id : String)
    → (pick cursor cs).0 ≡ some id
    → (c : ReplicaState) × Memᴰ c cs × (c.id ≡ id)
pick-mem cursor [] id h = unfold pick in cc
pick-mem cursor (c ∷ cs) id h =
    let (d, e, p) = pick_lem cursor c cs in (d, get_elem?-mem (c ∷ cs) _ d e, cc)

All-zero-le :
    (scores : List CandidateScore) (n : ℕ)
    → n ≡ 0
    → All (λ (x : CandidateScore). n ≤ x.score) scores
All-zero-le [] n h = tt
All-zero-le (e ∷ scores) n h = (omega arith, All-zero-le scores n h)

-- The candidate that is picked next has the lowest score, 0.
pub pick-score :
    (cursor : ℕ) (cs : List ReplicaState) (id : String)
    → (pick cursor cs).0 ≡ some id
    → (e : CandidateScore) × Memᴰ e (score cursor cs)
      × (e.replica_id ≡ id)
      × All (λ x. e.score ≤ x.score) (score cursor cs)
pick-score cursor [] id h = unfold pick in cc
pick-score cursor (c ∷ cs) id h =
    let n = length (c ∷ cs) in
    let (d, e, p) = pick_lem cursor c cs in
    let i = cursor % n in
    let s = (0 + i + n - cursor % n) % n in
    let full : 0 + i + n - i ≡ n = omega arith in
    (
      score_entry d s,
      get_elem?-mem (score cursor (c ∷ cs)) i _
          (unfold score in get_elem?-score_from cursor n 0 i (c ∷ cs) d e),
      cc,
      All-zero-le (score cursor (c ∷ cs)) s (rw full (mod_self n)),
    )
