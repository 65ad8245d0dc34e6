-- ===== src/Http/Keeps.antt =====
-- Http/Keeps: apps whose handlers leave the state as it is, and routes that are passed over.
use whyrouted.Prelude.{
  ◌∙◌, false, String, sym, ◌≢◌, ◌⊎◌, Option, List, [], ◌∷◌, All, Result, ok, throw, ◌≡◌, refl, inl,
  inr, Bool-cases,
}
use whyrouted.Http.{
  Method, get, head, HttpRequest, Turn, passed, sent, silent, raised, Registered, on_all, on_route,
  on_error, Express, carry, parsed, json_parser,
}

module _ {B E J W : Type 0} (x : Express B E J W) (w : W) where
  abbrev pub turn_after : Turn B E J W → W
  turn_after (passed j w') = w'
  turn_after (sent r w') = w'
  turn_after (silent w') = w'
  turn_after (raised e w') = w'

  abbrev pub KeepsState : Registered B E J W → Type 0
  KeepsState (on_all f) = (q : HttpRequest) (j : Option J) → turn_after (f q j w) ≡ w
  KeepsState (on_route m p f) = (q : HttpRequest) (j : Option J) → turn_after (f q j w) ≡ w
  KeepsState (on_error f) = (e : E) (q : HttpRequest) → turn_after (f e q w) ≡ w

  parsed-after : (r : Result E (Option J)) → turn_after (parsed r w) ≡ w
  parsed-after (ok j) = refl
  parsed-after (throw e) = refl

  pub json_parser-KeepsState :
      (read : HttpRequest → Result E (Option J)) → KeepsState (json_parser read)
  json_parser-KeepsState read q j = parsed-after (read q)

  -- No request and no error changes the state, over what is registered in `ls`.
  abbrev pub IsKept : List (Registered B E J W) → Type 0
  IsKept ls =
      ((q : HttpRequest) (j : Option J) → (x.serve ls q j w).after ≡ w)
      × ((e : E) (q : HttpRequest) → (x.fail ls e q w).after ≡ w)

  carry-after :
      (ls : List (Registered B E J W)) (q : HttpRequest) (t : Turn B E J W)
      → IsKept ls
      → turn_after t ≡ w
      → (carry x.serve x.fail ls q t).after ≡ w
  carry-after ls q (passed j w') k h = rw h (k.0 q j)
  carry-after ls q (sent r w') k h = h
  carry-after ls q (silent w') k h = h
  carry-after ls q (raised e w') k h = rw h (k.1 e q)

  pub serve-IsKept : (ls : List (Registered B E J W)) → All KeepsState ls → IsKept ls
  serve-IsKept [] h = (λ q j. x.not_found_keeps q j w, λ e q. x.fail_keeps e q w)
  serve-IsKept (on_all f ∷ ls) (h, hs) =
      let k = serve-IsKept ls hs in
      (
        λ q j. rw (x.all_runs f ls q j w) (carry-after ls q (f q j w) k (h q j)),
        λ e q. rw (x.fail_skips_all f ls e q w) (k.1 e q),
      )
  serve-IsKept (on_route m p f ∷ ls) (h, hs) =
      let k = serve-IsKept ls hs in
      (
        λ q j. elim (Bool-cases (x.matches m p q)) [
          | inl here ↦ rw (x.route_runs m p f ls q j w here) (carry-after ls q (f q j w) k (h q j))
          | inr other ↦ rw (x.route_skips m p f ls q j w other) (k.0 q j)
        ],
        λ e q. rw (x.fail_skips_route m p f ls e q w) (k.1 e q),
      )
  serve-IsKept (on_error f ∷ ls) (h, hs) =
      let k = serve-IsKept ls hs in
      (
        λ q j. rw (x.error_skips f ls q j w) (k.0 q j),
        λ e q. rw (x.error_runs f ls e q w) (carry-after ls q (f e q w) k (h e q)),
      )

-- A route of another method is passed over.
pub no_other :
    {B E J W : Type 0} (x : Express B E J W) (m : Method) (path : String) (q : HttpRequest)
    (m' : Method)
    → q.method ≡ m'
    → m' ≢ m
    → m ≢ get ⊎ m' ≢ head
    → x.matches m path q ≡ false
no_other x m path q m' e d g = elim (Bool-cases (x.matches m path q)) [
  | inr other ↦ other
  | inl here ↦ elim (x.same_method m path q here) [
    | inl same ↦ absurd (d (sym e ∙ same))
    | inr (first, second) ↦ elim g [
      | inl n ↦ absurd (n first)
      | inr n ↦ absurd (n (sym e ∙ second))
    ]
  ]
]
