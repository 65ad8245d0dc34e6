-- ===== src/Mcp/Server/Endpoint.antt =====
-- Mcp/Server/Endpoint: what the MCP app answers, whatever the tools.
use whyrouted.Prelude.{
  String, Bool, true, false, Option, none, some, List, [], ◌∷◌, Result, ok, throw, ◌≡◌, inl, inr,
  refl, sym, ap, ◌∙◌, subst, Bool-cases,
}
use whyrouted.Http.{
  Method, other_method, get, head, post, delete, HttpRequest, HttpResponse, sent, on_route,
  Registered, Express, Served, replied_with, carry, parsed,
}
use whyrouted.Http.Keeps.{no_other}
use whyrouted.Mcp.Action.{ActionResult}
use whyrouted.Mcp.Dispatch.{ToolResult}
use whyrouted.Mcp.Auth.{bearer_matches}
use whyrouted.Mcp.Server.{
  ToolDefinition, McpServer, create_mcp_server, McpBody, Handled, not_authorized,
  method_not_allowed, internal_error, auth_middleware, post_outcome, post_turn, mcp_routes,
  create_mcp_app,
}
use whyrouted.Mcp.Server.Access.{turned_away}

-- A request passes the middleware.
abbrev pub admitted : (String → String) → Option String → HttpRequest → Bool
admitted sha256 none q = true
admitted sha256 (some token) q = bearer_matches sha256 q.authorization token

-- The transport's answer, or an internal error where it threw before there was one, or nothing.
abbrev pub reply_for :
    {R : Type 0}
    → Option String
    → Option (HttpResponse (McpBody R))
    → Option (HttpResponse (McpBody R))
reply_for thrown (some r) = some r
reply_for (some e) none = some internal_error
reply_for none none = none

-- What the client gets for what the transport did.
abbrev pub AnswersFor : {R W : Type 0} → Handled R W → Served (McpBody R) W → Type 0
AnswersFor h s = (s.after ≡ h.after) × (s.reply ≡ reply_for h.thrown h.reply)

module _ {Z A J E D R W : Type 0} (read_text : ToolResult J → String)
    (action_text : ActionResult J → String) (sha256 : String → String)
    (json : HttpRequest → Result E (Option D))
    (handle_request : McpServer Z A W → HttpRequest → Option D → W → Handled R W)
    (x : Express (McpBody R) E D W) where
  abbrev methods : List (Registered (McpBody R) E D W)
  methods =
      on_route get "/mcp" (λ p c v. sent method_not_allowed v)
      ∷ on_route delete "/mcp" (λ p c v. sent method_not_allowed v)
      ∷ []

  module _ (handle : HttpRequest → Option D → W → Handled R W) (q : HttpRequest) (w : W)
      (b : Option D) (h : json q ≡ ok b) where
    parsed-serve :
        (j : Option D)
        → x.serve (mcp_routes json handle) q j w
          ≡ x.serve (on_route post "/mcp" (λ p c v. post_turn (handle p c v)) ∷ methods) q b w
    parsed-serve j =
        x.all_runs (λ p c v. parsed (json p) v) _ q j w
        ∙ ap
            (λ r.
              carry x.serve x.fail
                (on_route post "/mcp" (λ p c v. post_turn (handle p c v)) ∷ methods) q (parsed r w))
            h

    outcome-answers :
        (t : Handled R W) (ls : List (Registered (McpBody R) E D W))
        → AnswersFor t (carry x.serve x.fail ls q (post_turn t))
    outcome-answers t ls = go t.thrown t.reply t.after
      where
        go :
            (thrown : Option String) (reply : Option (HttpResponse (McpBody R))) (after : W)
            → AnswersFor
                (record { reply = reply; thrown = thrown; after = after })
                (carry x.serve x.fail ls q (post_outcome thrown reply after))
        go none none v = (refl, refl)
        go none (some r) v = (refl, refl)
        go (some m) (some r) v = (refl, refl)
        go (some m) none v = (refl, refl)

    post-answers :
        (j : Option D)
        → x.matches post "/mcp" q ≡ true
        → AnswersFor (handle q b w) (x.serve (mcp_routes json handle) q j w)
    post-answers j here =
        subst (AnswersFor (handle q b w))
          (sym (
            parsed-serve j
            ∙ x.route_runs post "/mcp" (λ p c v. post_turn (handle p c v)) methods q b w here))
          (outcome-answers (handle q b w) methods)

    get-answers :
        (j : Option D)
        → q.method ≡ get
        → x.matches get "/mcp" q ≡ true
        → x.serve (mcp_routes json handle) q j w ≡ replied_with method_not_allowed w
    get-answers j m here =
        parsed-serve j
        ∙ x.route_skips post "/mcp" _ methods q b w
            (no_other x post "/mcp" q get m (λ e. cc) (inl (λ e. cc)))
        ∙ x.route_runs get "/mcp" (λ p c v. sent method_not_allowed v) _ q b w here

    delete-answers :
        (j : Option D)
        → q.method ≡ delete
        → x.matches delete "/mcp" q ≡ true
        → x.serve (mcp_routes json handle) q j w ≡ replied_with method_not_allowed w
    delete-answers j m here =
        parsed-serve j
        ∙ x.route_skips post "/mcp" _ methods q b w
            (no_other x post "/mcp" q delete m (λ e. cc) (inl (λ e. cc)))
        ∙ x.route_skips get "/mcp" _ _ q b w
            (no_other x get "/mcp" q delete m (λ e. cc) (inr (λ e. cc)))
        ∙ x.route_runs delete "/mcp" (λ p c v. sent method_not_allowed v) [] q b w here

  fail-mcp_routes :
      (handle : HttpRequest → Option D → W → Handled R W) (e : E) (q : HttpRequest) (j : Option D)
      (w : W)
      → json q ≡ throw e
      → x.serve (mcp_routes json handle) q j w ≡ x.fail [] e q w
  fail-mcp_routes handle e q j w h =
      x.all_runs (λ p c v. parsed (json p) v) _ q j w
      ∙ ap
          (λ r.
            carry x.serve x.fail
              (on_route post "/mcp" (λ p c v. post_turn (handle p c v)) ∷ methods) q (parsed r w))
          h
      ∙ x.fail_skips_route post "/mcp" (λ p c v. post_turn (handle p c v)) _ e q w
      ∙ x.fail_skips_route get "/mcp" (λ p c v. sent method_not_allowed v) _ e q w
      ∙ x.fail_skips_route delete "/mcp" (λ p c v. sent method_not_allowed v) [] e q w

  -- The answer to a request for /mcp, by whether it is admitted, what is read of its body, and its method.
  -- Of other methods nothing is said.
  abbrev pub Expected :
      McpServer Z A W
      → HttpRequest
      → W
      → Bool
      → Result E (Option D)
      → Method
      → Served (McpBody R) W
      → Type 0
  Expected server q w false body m s = s ≡ replied_with not_authorized w
  Expected server q w true (throw e) m s = s ≡ x.fail [] e q w
  Expected server q w true (ok b) post s = AnswersFor (handle_request server q b w) s
  Expected server q w true (ok b) get s = s ≡ replied_with method_not_allowed w
  Expected server q w true (ok b) delete s = s ≡ replied_with method_not_allowed w
  Expected server q w true (ok b) _ s = Unit

  routes-Expected :
      (server : McpServer Z A W) (q : HttpRequest) (j : Option D) (w : W)
      (body : Result E (Option D)) (m : Method)
      → json q ≡ body
      → q.method ≡ m
      → x.matches m "/mcp" q ≡ true
      → Expected server q w true body m (x.serve (mcp_routes json (handle_request server)) q j w)
  routes-Expected server q j w (throw e) m h k here =
      fail-mcp_routes (handle_request server) e q j w h
  routes-Expected server q j w (ok b) post h k here =
      post-answers (handle_request server) q w b h j here
  routes-Expected server q j w (ok b) get h k here =
      get-answers (handle_request server) q w b h j k here
  routes-Expected server q j w (ok b) delete h k here =
      delete-answers (handle_request server) q w b h j k here
  routes-Expected server q j w (ok b) head h k here = tt
  routes-Expected server q j w (ok b) (other_method s) h k here = tt

  -- A request for /mcp without the token, where there is one, is answered 401, whatever its method and its body,
  -- and changes nothing. Any other is answered by Express itself if its body cannot be read; a GET or a
  -- DELETE gets 405 and changes nothing; and a POST gets what the transport sends for a new server
  -- with the tools, or 500 where the transport throws before it has sent anything.
  pub create_mcp_app_lem :
      (tools : List (ToolDefinition Z A J W)) (token : Option String) (q : HttpRequest)
      (j : Option D) (w : W)
      → q.path ≡ "/mcp"
      → Expected
          (create_mcp_server read_text action_text tools)
          q
          w
          (admitted sha256 token q)
          (json q)
          q.method
          (x.serve
            (create_mcp_app read_text action_text sha256 json handle_request tools token)
            q
            j
            w)
  unfolding create_mcp_app auth_middleware
  create_mcp_app_lem tools none q j w e =
      routes-Expected (create_mcp_server read_text action_text tools) q j w (json q) q.method refl
        refl (subst (λ p. x.matches q.method p q ≡ true) e (x.same_path q))
  create_mcp_app_lem tools (some token) q j w e =
      let server = create_mcp_server read_text action_text tools in
      elim (Bool-cases (bearer_matches sha256 q.authorization token)) [
        | inl known ↦
            rw
              (
                x.all_runs (auth_middleware sha256 token) (mcp_routes json (handle_request server))
                    q j w,
                known,
              )
              (routes-Expected server q j w (json q) q.method refl refl
                (subst (λ p. x.matches q.method p q ≡ true) e (x.same_path q)))
        | inr unknown_ ↦ rw unknown_ (
            turned_away read_text action_text sha256 json handle_request x tools token q j w
              unknown_)
      ]
