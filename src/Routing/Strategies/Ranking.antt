-- ===== src/Routing/Strategies/Ranking.antt =====
-- The ranking that least-loaded and latency-weighted share: the lower score, and of equal scores the
-- lower id. `best_of` is the loop that keeps the better of two.
use whyrouted.Prelude.{
  ℕ, ◌≤◌, str_lt, str_lt-IsWeakOrder, str_lt_total, Bool, false, ◌&&◌, ◌||◌, List, [], ◌∷◌,
  if◌then◌else◌, ltb, ◌==◌, ◌≡◌, refl, arith, All, All_of_mem, Memᴰ, Bool-cases, ◌⊎◌, inl, inr,
  IsWeakOrder, map, ap,
}
use whyrouted.Types.{ReplicaState}
use whyrouted.Routing.Score.{CandidateScore, score_entry}

module _ (score : ReplicaState → ℕ) where
  -- `candidateScore < bestScore || (candidateScore === bestScore && candidate.id < best.id)`
  unfoldable pub better : ReplicaState → ReplicaState → Bool
  better c best = ltb (score c) (score best) || (score c == score best) && str_lt c.id best.id

  unfoldable pub best_of : ReplicaState → List ReplicaState → ReplicaState
  unfolding better
  best_of best [] = best
  best_of best (c ∷ cs) = best_of (if better c best then c else best) cs

  pub better-IsWeakOrder : IsWeakOrder better
  unfolding better
  better-IsWeakOrder = record {
    asym = λ a b h. ground (arith, str_lt-IsWeakOrder.asym a.id b.id);
    neg_trans = λ a b c h k. ground (arith, str_lt-IsWeakOrder.neg_trans a.id b.id c.id);
  }

  -- Two replicas of which neither is better have one id.
  pub id_of_tie : (a b : ReplicaState) → better a b ≡ false → better b a ≡ false → a.id ≡ b.id
  unfolding better
  id_of_tie a b h k = str_lt_total a.id b.id (ground arith) (ground arith)

  -- `r` is one of the candidates, and none is better.
  pub record IsBest (cs : List ReplicaState) (r : ReplicaState) : Type 0 where
    pub listed : Memᴰ r cs
    pub least : All (λ c. better c r ≡ false) cs

  open better-IsWeakOrder use {asym, neg_trans}

  better_irrefl : (a : ReplicaState) → better a a ≡ false
  better_irrefl a = elim (Bool-cases (better a a)) [ inl e ↦ asym a a e | inr e ↦ e ]

  -- One round of the loop: what is not beaten by the better of two is beaten by neither.
  round-least :
      (best c r : ReplicaState)
      → better (if better c best then c else best) r ≡ false
      → (better best r ≡ false) × (better c r ≡ false)
  round-least best c r h = elim (Bool-cases (better c best)) [
    | inl e ↦
        let kept : better c r ≡ false = rw e at h in (neg_trans r c best kept (asym c best e), kept)
    | inr e ↦ let kept : better best r ≡ false = rw e at h in (kept, neg_trans r best c kept e)
  ]

  best_of-least :
      (best : ReplicaState) (cs : List ReplicaState)
      → (better best (best_of best cs) ≡ false) × All (λ c. better c (best_of best cs) ≡ false) cs
  unfolding best_of
  best_of-least best [] = (better_irrefl best, tt)
  best_of-least best (c ∷ cs) =
      let (kept, rest) = best_of-least (if better c best then c else best) cs in
      let (old, new) = round-least best c _ kept in (old, (new, rest))

  best_of-mem :
      (best : ReplicaState) (cs : List ReplicaState)
      → (best_of best cs ≡ best) ⊎ Memᴰ (best_of best cs) cs
  unfolding best_of
  best_of-mem best [] = inl refl
  best_of-mem best (c ∷ cs) = elim (Bool-cases (better c best)) [
    | inl e ↦
        rw e (elim (best_of-mem c cs) [ inl h ↦ inr (Memᴰ.head h) | inr m ↦ inr (Memᴰ.tail m) ])
    | inr e ↦ rw e (elim (best_of-mem best cs) [ inl h ↦ inl h | inr m ↦ inr (Memᴰ.tail m) ])
  ]

  pub best_of-IsBest :
      (best : ReplicaState) (cs : List ReplicaState) → IsBest (best ∷ cs) (best_of best cs)
  best_of-IsBest best cs = record {
    listed = elim (best_of-mem best cs) [ inl h ↦ Memᴰ.head h | inr m ↦ Memᴰ.tail m ];
    least = best_of-least best cs;
  }

  -- Two best candidates of lists with the same members have one id.
  pub IsBest-unique :
      (cs ds : List ReplicaState) {a b : ReplicaState}
      → ((x : ReplicaState) → Memᴰ x cs → Memᴰ x ds)
      → ((x : ReplicaState) → Memᴰ x ds → Memᴰ x cs)
      → IsBest cs a
      → IsBest ds b
      → a.id ≡ b.id
  IsBest-unique cs ds {a} {b} into back p q =
      id_of_tie a b (All_of_mem (λ c. better c b ≡ false) ds q.least (into a p.listed))
        (All_of_mem (λ c. better c a ≡ false) cs p.least (back b q.listed))

  -- The best candidate's entry has the lowest score.
  pub IsBest-least :
      (cs : List ReplicaState) (r : ReplicaState)
      → All (λ c. better c r ≡ false) cs
      → All (λ (e : CandidateScore). score r ≤ e.score) (map (λ c. score_entry c (score c)) cs)
  unfolding better
  IsBest-least [] r h = tt
  IsBest-least (c ∷ cs) r h = (ground arith, IsBest-least cs r h.1)

pub mem-map {ℓ κ} :
    {A : Type ℓ} {B : Type κ} (f : A → B) {a : A} {xs : List A} → Memᴰ a xs → Memᴰ (f a) (map f xs)
mem-map f (Memᴰ.head e) = Memᴰ.head (ap f e)
mem-map f (Memᴰ.tail m) = Memᴰ.tail (mem-map f m)
