-- ===== src/Api/App.antt =====
-- src/api/server.ts, `createStatusApp`: the HTTP app around the route handler, over the router of Traffic. The
-- handler of POST /route starts a request and returns; its response comes when the request is over. The
-- payload, which is handed on to the replica as it is, is left out. The snapshot's clock, the ids of a
-- request and the parser of bodies are arguments; the parts that the app is given are a Boolean each.
use whyrouted.Prelude.{
  subst, String, Bool, true, false, not, ◌&&◌, ◌||◌, Option, none, List, [], ◌∷◌, ◌++◌, Result, ok,
  throw, if◌then◌else◌, ◌≡◌, ◌⊎◌, inl, inr, refl, ap, ◌∙◌, subst, arith, Bool-cases,
}
use whyrouted.Types.{RegistrySnapshot}
use whyrouted.Registry.{get_snapshot}
use whyrouted.Api.Route.{Stamp, new_request}
use whyrouted.Traffic.{Settings, Traffic, depart}
use whyrouted.Http.{
  Method, get, post, HttpRequest, HttpResponse, Turn, sent, silent, raised, Registered, on_route,
  on_error, Express, Served, replied_with, carry, parsed,
}
use whyrouted.Http.Keeps.{no_other}

-- Which of the optional parts are supplied.
pub record ApiServerDeps : Type 0 where
  pub engine : Bool
  pub adapter : Bool
  pub scheduler : Bool
  pub failover_log : Bool
  pub decision_log : Bool

abbrev pub some_given : ApiServerDeps → Bool
some_given d = d.engine || d.adapter || d.scheduler || d.failover_log || d.decision_log

abbrev pub all_given : ApiServerDeps → Bool
all_given d = d.engine && d.adapter && d.scheduler && d.failover_log && d.decision_log

pub data AppError : Type 0 where
  needs_all_or_none : AppError

pub data ApiBody : Type 0 where
  snapshot : RegistrySnapshot → ApiBody
  invalid_json_body : ApiBody

abbrev pub bad_request : HttpResponse ApiBody
bad_request = record { status = 400; challenge = none; body = invalid_json_body }

abbrev pub status_response : {B : Type 0} → String → Traffic B → HttpResponse ApiBody
status_response now t = record {
  status = 200;
  challenge = none;
  body = snapshot (get_snapshot t.world.scheduler.sink now);
}

-- A request for one of the two routes.
pub data ApiCall (q : HttpRequest) : Type 0 where
  reads_status : q.method ≡ get → q.path ≡ "/status" → ApiCall q
  posts_route : q.method ≡ post → q.path ≡ "/route" → ApiCall q

module _ {B E D : Type 0} (c : Settings) (now request_id : String) (stamp : Stamp)
    (json : HttpRequest → Result E (Option D)) (is_body_error : E → Bool) where
  unfoldable pub bad_json_body : E → HttpRequest → Traffic B → Turn ApiBody E D (Traffic B)
  bad_json_body e q t = if is_body_error e then sent bad_request t else raised e t

  abbrev route_layers : List (Registered ApiBody E D (Traffic B))
  route_layers =
      on_route post "/route" (λ q j t. parsed (json q) t)
      ∷ on_route post "/route" (λ q j t. silent (depart c request_id stamp 0 new_request t))
      ∷ []

  abbrev layers_of : Bool → List (Registered ApiBody E D (Traffic B))
  layers_of served =
      on_route get "/status" (λ q j t. sent (status_response now t) t)
        ∷ (if served then route_layers else [])
      ++ on_error bad_json_body ∷ []

  unfoldable pub create_status_app :
      ApiServerDeps → Result AppError (List (Registered ApiBody E D (Traffic B)))
  create_status_app d =
      if some_given d && not (all_given d)
      then throw needs_all_or_none
      else ok (layers_of (all_given d))

  module _ (x : Express ApiBody E D (Traffic B)) where
    -- What a POST to /route comes to, by whether the route is there and what is read of the body.
    abbrev pub RouteServed :
        Bool
        → HttpRequest
        → Option D
        → Traffic B
        → Result E (Option D)
        → Served ApiBody (Traffic B)
        → Type 0
    RouteServed false q j t body s = s ≡ x.serve [] q j t
    RouteServed true q j t (ok b) s =
        s ≡ record { reply = none; after = depart c request_id stamp 0 new_request t }
    RouteServed true q j t (throw e) s =
        s ≡ (if is_body_error e then replied_with bad_request t else x.fail [] e q t)

    abbrev pub CallServed :
        Bool
        → (q : HttpRequest) → ApiCall q
        → Option D
        → Traffic B
        → Served ApiBody (Traffic B)
        → Type 0
    CallServed given q (reads_status m p) j t s = s ≡ replied_with (status_response now t) t
    CallServed given q (posts_route m p) j t s = RouteServed given q j t (json q) s

    status-layers_of :
        (served : Bool) (q : HttpRequest) (j : Option D) (t : Traffic B)
        → x.matches get "/status" q ≡ true
        → x.serve (layers_of served) q j t ≡ replied_with (status_response now t) t
    status-layers_of served q j t here =
        x.route_runs get "/status" (λ q j t. sent (status_response now t) t) _ q j t here

    error-RouteServed :
        (q : HttpRequest) (j : Option D) (t : Traffic B) (e : E)
        → RouteServed true q j t (throw e) (x.fail (on_error bad_json_body ∷ []) e q t)
    unfolding bad_json_body
    error-RouteServed q j t e =
        rw (x.error_runs bad_json_body [] e q t) (elim (Bool-cases (is_body_error e)) [
          | inl known ↦ rw known refl
          | inr unknown_ ↦ rw unknown_ refl
        ])

    route-RouteServed :
        (q : HttpRequest) (j : Option D) (t : Traffic B) (body : Result E (Option D))
        → json q ≡ body
        → x.matches post "/route" q ≡ true
        → RouteServed true q j t body (x.serve (route_layers ++ on_error bad_json_body ∷ []) q j t)
    route-RouteServed q j t (ok b) e here =
        x.route_runs post "/route" (λ q j t. parsed (json q) t) _ q j t here
        ∙ ap
            (λ r.
              carry x.serve x.fail
                (on_route post "/route"
                    (λ q j t. silent (depart c request_id stamp 0 new_request t))
                  ∷ on_error bad_json_body
                  ∷ [])
                q (parsed r t))
            e
        ∙ x.route_runs post "/route" (λ q j t. silent (depart c request_id stamp 0 new_request t)) _
            q b t here
    route-RouteServed q j t (throw err) e here =
        x.route_runs post "/route" (λ q j t. parsed (json q) t) _ q j t here
        ∙ ap
            (λ r.
              carry x.serve x.fail
                (on_route post "/route"
                    (λ q j t. silent (depart c request_id stamp 0 new_request t))
                  ∷ on_error bad_json_body
                  ∷ [])
                q (parsed r t))
            e
        ∙ x.fail_skips_route post "/route"
            (λ q j t. silent (depart c request_id stamp 0 new_request t)) _ err q t
        ∙ error-RouteServed q j t err

    layers-RouteServed :
        (served : Bool) (q : HttpRequest) (j : Option D) (t : Traffic B)
        → q.method ≡ post
        → x.matches post "/route" q ≡ true
        → RouteServed served q j t (json q) (x.serve (layers_of served) q j t)
    layers-RouteServed true q j t m here =
        rw
          (x.route_skips get "/status" (λ q j t. sent (status_response now t) t)
            (route_layers ++ on_error bad_json_body ∷ []) q j t
            (no_other x get "/status" q post m (λ e. cc) (inr (λ e. cc))))
          (route-RouteServed q j t (json q) refl here)
    layers-RouteServed false q j t m here =
        x.route_skips get "/status" (λ q j t. sent (status_response now t) t) _ q j t
          (no_other x get "/status" q post m (λ e. cc) (inr (λ e. cc)))
        ∙ x.error_skips bad_json_body [] q j t

    matched :
        (m : Method) (path : String) (q : HttpRequest)
        → q.method ≡ m
        → q.path ≡ path
        → x.matches m path q ≡ true
    matched m path q e p =
        subst (λ n. x.matches n path q ≡ true) e
          (subst (λ s. x.matches q.method s q ≡ true) p (x.same_path q))

    layers-CallServed :
        (served : Bool) (q : HttpRequest) (call : ApiCall q) (j : Option D) (t : Traffic B)
        → CallServed served q call j t (x.serve (layers_of served) q j t)
    layers-CallServed served q (reads_status m p) j t =
        status-layers_of served q j t (matched get "/status" q m p)
    layers-CallServed served q (posts_route m p) j t =
        layers-RouteServed served q j t m (matched post "/route" q m p)

    -- The app refuses to start exactly when some of its five optional parts are given and others not. Otherwise
    -- a GET of /status is answered 200 with a snapshot of the registry and changes nothing; and a POST
    -- to /route, where there are no parts, is not a route, and where there are, starts a request if
    -- its body can be read, and gets 400 if it is not JSON, or else Express's answer to the error.
    pub create_status_app_lem :
        (d : ApiServerDeps) (q : HttpRequest) (call : ApiCall q) (j : Option D) (t : Traffic B)
        → ((create_status_app d ≡ throw needs_all_or_none)
            × (some_given d ≡ true)
            × (all_given d ≡ false))
          ⊎ ((app : List (Registered ApiBody E D (Traffic B))) × (create_status_app d ≡ ok app)
              × (some_given d ≡ all_given d)
              × CallServed (all_given d) q call j t (x.serve app q j t))
    unfolding create_status_app
    create_status_app_lem d q call j t = elim (Bool-cases (some_given d && not (all_given d))) [
      | inl mixed ↦ inl (rw mixed refl, ground (arith, mixed), ground (arith, mixed))
      | inr alike ↦ inr (
        layers_of (all_given d),
        rw alike refl,
        ground (arith, alike),
        layers-CallServed (all_given d) q call j t,
      )
    ]
