-- ===== src/Tests/Direct.antt =====
-- An Express for the tests: routes are matched by equality, and errors and unknown paths have an answer.
use whyrouted.Prelude.{
  str_eq, str_eq_iff, str_eq_refl, Bool, true, false, ◌&&◌, Option, none, List, [], ◌∷◌, ◌≡◌, inl,
  refl, sym, ap, arith, if◌then◌else◌,
}
use whyrouted.Http.{
  Method, other_method, get, head, post, delete, HttpRequest, HttpResponse, Turn, passed, sent,
  silent, raised, Registered, on_all, on_route, on_error, Served, replied_with, carry, Express,
}

abbrev pub same_verb : Method → Method → Bool
same_verb get get = true
same_verb head head = true
same_verb post post = true
same_verb delete delete = true
same_verb (other_method s) (other_method t) = str_eq s t
same_verb _ _ = false

pub same_verb_refl : (m : Method) → same_verb m m ≡ true
same_verb_refl get = refl
same_verb_refl head = refl
same_verb_refl post = refl
same_verb_refl delete = refl
same_verb_refl (other_method s) = str_eq_refl s

same_verb_eq : (m n : Method) → same_verb m n ≡ true → n ≡ m
same_verb_eq (other_method s) (other_method t) h = ap other_method (sym ((str_eq_iff s t).0 h))
same_verb_eq m n h = ground arith

pub same_route : (m n : Method) (b : Bool) → same_verb m n && b ≡ true → n ≡ m
same_route m n b h = same_verb_eq m n (ground (arith, h))

abbrev Rest : Type 0 → Type 0 → Type 0 → Type 0 → Type 0
Rest B E J W = (HttpRequest → Option J → W → Served B W) × (E → HttpRequest → W → Served B W)

module _ {B E J W : Type 0} (lost broken : HttpResponse B) where
  abbrev goes_on : Rest B E J W → HttpRequest → Turn B E J W → Served B W
  goes_on rest q (passed j w) = rest.0 q j w
  goes_on rest q (sent r w) = replied_with r w
  goes_on rest q (silent w) = record { reply = none; after = w }
  goes_on rest q (raised e w) = rest.1 e q w

  abbrev runs : Registered B E J W → Rest B E J W → Rest B E J W
  runs (on_all f) rest = (λ q j w. goes_on rest q (f q j w), rest.1)
  runs (on_error f) rest = (rest.0, λ e q w. goes_on rest q (f e q w))
  runs (on_route m p f) rest = (
    λ q j w.
        if same_verb m q.method && str_eq p q.path then goes_on rest q (f q j w) else rest.0 q j w,
    rest.1,
  )

  abbrev all_of : List (Registered B E J W) → Rest B E J W
  all_of [] = (λ q j w. replied_with lost w, λ e q w. replied_with broken w)
  all_of (l ∷ ls) = runs l (all_of ls)

  pub goes_on-carry :
      (ls : List (Registered B E J W)) (q : HttpRequest) (t : Turn B E J W)
      → goes_on (all_of ls) q t ≡ carry (λ ms. (all_of ms).0) (λ ms. (all_of ms).1) ls q t
  goes_on-carry ls q (passed j w) = refl
  goes_on-carry ls q (sent r w) = refl
  goes_on-carry ls q (silent w) = refl
  goes_on-carry ls q (raised e w) = refl

  abbrev pub direct : Express B E J W
  direct = record {
    matches = λ m p q. same_verb m q.method && str_eq p q.path;
    serve = λ ls. (all_of ls).0;
    fail = λ ls. (all_of ls).1;
    same_path = λ q. rw (same_verb_refl q.method, str_eq_refl q.path) refl;
    same_method = λ m p q h. inl (same_route m q.method (str_eq p q.path) h);
    all_runs = λ f ls q j w. goes_on-carry ls q (f q j w);
    route_runs = λ m p f ls q j w h. rw h (goes_on-carry ls q (f q j w));
    route_skips = λ m p f ls q j w h. rw h refl;
    error_skips = λ f ls q j w. refl;
    not_found_keeps = λ q j w. refl;
    error_runs = λ f ls e q w. goes_on-carry ls q (f e q w);
    fail_skips_all = λ f ls e q w. refl;
    fail_skips_route = λ m p f ls e q w. refl;
    fail_keeps = λ e q w. refl;
  }
