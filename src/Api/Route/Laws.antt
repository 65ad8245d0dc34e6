-- ===== src/Api/Route/Laws.antt =====
-- Api/Route/Laws: what a request comes to.
use whyrouted.Prelude.{◌+◌, some, ◌≡◌, arith}
use whyrouted.Api.Route.{World, Context, new_request, Reply, handle_route}
use whyrouted.Api.Route.Trace.{Resolved, Retried, new_request-Retried, loop-induct}
use whyrouted.Api.Route.Steps.{pass-Keeps}

-- `maxRetries + 1` passes are enough, whatever the adapter answers and whatever happens meanwhile: the
-- handler replies, unless an ejection throws. A reply comes with one decision recorded last, under the
-- id of the request, that accounts for it: its first rounds are the failed attempts of the response,
-- in order; a replica is chosen, and its latency kept, exactly in a 200, and it is the one that
-- answered; no replica is tried twice; and a 503 after failures has run out of retries or of replicas
-- to pick.
pub handle_route_lem :
    {B : Type 0} (x : Context B) (w : World)
    → (reply : Reply B) × (handle_route x w ≡ some reply) × Resolved x reply
unfolding handle_route
handle_route_lem x w =
    loop-induct x (λ n q w. Retried x n q) (Resolved x) (λ n q w t. t.bound)
      (λ n q w t. pass-Keeps x n q t w) (x.max_retries + 1) 0 new_request w (omega arith)
      (new_request-Retried x)
