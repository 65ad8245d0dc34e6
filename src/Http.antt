-- ===== src/Http.antt =====
-- What src/api/server.ts and src/mcp/server.ts use of Express: an app is the list of what was registered on
-- it, in order. Express itself is a parameter, with the behaviour that its guide documents.
pub mod Keeps
use whyrouted.Prelude.{
  ℕ, String, Bool, true, false, Option, none, some, List, [], ◌∷◌, Result, ok, throw, ◌≡◌, ◌⊎◌,
}

pub data Method : Type 0 where
  get head post delete : Method
  other_method : String → Method

pub record HttpRequest : Type 0 where
  pub method : Method
  pub path : String
  pub authorization : Option String
  pub text : String

-- `challenge` is the header `WWW-Authenticate`.
pub record HttpResponse (B : Type 0) : Type 0 where
  pub status : ℕ
  pub challenge : Option String
  pub body : B

-- What a handler does: it calls `next`, answers, ends without an answer, or passes an error to `next`. A
-- parser of bodies leaves a body, of type `J`, to the handlers after it.
pub data Turn (B E J W : Type 0) : Type 0 where
  passed : Option J → W → Turn B E J W
  sent : HttpResponse B → W → Turn B E J W
  silent : W → Turn B E J W
  raised : E → W → Turn B E J W

pub data Registered (B E J W : Type 0) : Type 0 where
  on_all : (HttpRequest → Option J → W → Turn B E J W) → Registered B E J W
  on_route : Method → String → (HttpRequest → Option J → W → Turn B E J W) → Registered B E J W
  on_error : (E → HttpRequest → W → Turn B E J W) → Registered B E J W

-- What the client gets, and the state after.
pub record Served (B W : Type 0) : Type 0 where
  pub reply : Option (HttpResponse B)
  pub after : W

abbrev pub replied_with : {B W : Type 0} → HttpResponse B → W → Served B W
replied_with r w = record { reply = some r; after = w }

-- Where a request goes on after a handler.
abbrev pub carry :
    {B E J W : Type 0}
    → (List (Registered B E J W) → HttpRequest → Option J → W → Served B W)
    → (List (Registered B E J W) → E → HttpRequest → W → Served B W)
    → List (Registered B E J W)
    → HttpRequest
    → Turn B E J W
    → Served B W
carry serve fail ls q (passed j w) = serve ls q j w
carry serve fail ls q (sent r w) = replied_with r w
carry serve fail ls q (silent w) = record { reply = none; after = w }
carry serve fail ls q (raised e w) = fail ls e q w

-- Whether a route is for a request; what becomes of a request, and of an error, over the rest of what is
-- registered. At the end of the list Express answers by itself.
pub record Express (B E J W : Type 0) : Type 0 where
  pub matches : Method → String → HttpRequest → Bool
  pub serve : List (Registered B E J W) → HttpRequest → Option J → W → Served B W
  pub fail : List (Registered B E J W) → E → HttpRequest → W → Served B W
  pub same_path : (q : HttpRequest) → matches q.method q.path q ≡ true
  pub same_method :
      (m : Method) (p : String) (q : HttpRequest)
      → matches m p q ≡ true
      → (q.method ≡ m) ⊎ ((m ≡ get) × (q.method ≡ head))
  pub all_runs :
      (f : HttpRequest → Option J → W → Turn B E J W) (ls : List (Registered B E J W))
      (q : HttpRequest) (j : Option J) (w : W)
      → serve (on_all f ∷ ls) q j w ≡ carry serve fail ls q (f q j w)
  pub route_runs :
      (m : Method) (p : String) (f : HttpRequest → Option J → W → Turn B E J W)
      (ls : List (Registered B E J W)) (q : HttpRequest) (j : Option J) (w : W)
      → matches m p q ≡ true
      → serve (on_route m p f ∷ ls) q j w ≡ carry serve fail ls q (f q j w)
  pub route_skips :
      (m : Method) (p : String) (f : HttpRequest → Option J → W → Turn B E J W)
      (ls : List (Registered B E J W)) (q : HttpRequest) (j : Option J) (w : W)
      → matches m p q ≡ false
      → serve (on_route m p f ∷ ls) q j w ≡ serve ls q j w
  pub error_skips :
      (f : E → HttpRequest → W → Turn B E J W) (ls : List (Registered B E J W)) (q : HttpRequest)
      (j : Option J) (w : W)
      → serve (on_error f ∷ ls) q j w ≡ serve ls q j w
  pub not_found_keeps : (q : HttpRequest) (j : Option J) (w : W) → (serve [] q j w).after ≡ w
  pub error_runs :
      (f : E → HttpRequest → W → Turn B E J W) (ls : List (Registered B E J W)) (e : E)
      (q : HttpRequest) (w : W)
      → fail (on_error f ∷ ls) e q w ≡ carry serve fail ls q (f e q w)
  pub fail_skips_all :
      (f : HttpRequest → Option J → W → Turn B E J W) (ls : List (Registered B E J W)) (e : E)
      (q : HttpRequest) (w : W)
      → fail (on_all f ∷ ls) e q w ≡ fail ls e q w
  pub fail_skips_route :
      (m : Method) (p : String) (f : HttpRequest → Option J → W → Turn B E J W)
      (ls : List (Registered B E J W)) (e : E) (q : HttpRequest) (w : W)
      → fail (on_route m p f ∷ ls) e q w ≡ fail ls e q w
  pub fail_keeps : (e : E) (q : HttpRequest) (w : W) → (fail [] e q w).after ≡ w

-- `express.json()`: what it reads of a request, or the error it passes on.
abbrev pub parsed : {B E J W : Type 0} → Result E (Option J) → W → Turn B E J W
parsed (ok j) w = passed j w
parsed (throw e) w = raised e w

abbrev pub json_parser :
    {B E J W : Type 0} → (HttpRequest → Result E (Option J)) → Registered B E J W
json_parser read = on_all (λ q j w. parsed (read q) w)
