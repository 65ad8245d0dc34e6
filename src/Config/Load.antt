-- ===== src/Config/Load.antt =====
-- Config/Load: what `loadConfig` gives is usable, and its weights are numbers that the router accepts.
use whyrouted.Prelude.{
  String, true, Result, ok, throw, ◌>>=◌, ◌≡◌, refl, ap, subst, arith, inl, inr, Option-cases, List,
  [], ◌∷◌,
}
use whyrouted.Routing.Weights.{Number, is_finite}
use whyrouted.Routing.Config.{is_valid_weight}
use whyrouted.Config.{
  ℤ, Config, default_config, Env, Problem, LoadError, checks, pushed, valid_or_throw, validate,
  read_int, read_number, read_strategy, load_config,
}
use whyrouted.Config.Laws.{IsUsable, validate_iff}

pub record IsLoaded (c : Config) : Type 0 where
  pub usable : IsUsable c
  pub load_weight : is_valid_weight c.scoring_weights.load_weight ≡ true
  pub latency_weight : is_valid_weight c.scoring_weights.latency_weight ≡ true

-- A result that is given has the property.
abbrev Ensures : (Config → Type 0) → Result LoadError Config → Type 0
Ensures P (ok c) = P c
Ensures P (throw e) = Unit

Ensures-bind :
    {A : Type 0} (P : Config → Type 0) (m : Result LoadError A) (f : A → Result LoadError Config)
    → ((a : A) → m ≡ ok a → Ensures P (f a))
    → Ensures P (m >>= f)
Ensures-bind P (ok a) f h = h a refl
Ensures-bind P (throw e) f h = tt

read_number-is_finite :
    (env : Env) (name : String) (fallback n : Number)
    → is_finite fallback ≡ true
    → read_number env name fallback ≡ ok n
    → is_finite n ≡ true
unfolding read_number
read_number-is_finite env name fallback n h e = elim (Option-cases (env name)) [
  | inl none_there ↦ ground (arith, e, none_there, h)
  | inr (raw, there) ↦ ground (arith, e, there, h)
]

validated :
    (c : Config)
    → is_finite c.scoring_weights.load_weight ≡ true
    → is_finite c.scoring_weights.latency_weight ≡ true
    → Ensures IsLoaded (validate c)
unfolding validate
validated c f g = of_problems (pushed (checks c)) refl
  where
    of_problems :
        (ps : List Problem) → pushed (checks c) ≡ ps → Ensures IsLoaded (valid_or_throw c ps)
    of_problems (p ∷ ps) e = tt
    of_problems [] e =
        let u : IsUsable c = (validate_iff c).0 (unfold validate in ap (valid_or_throw c) e) in
        record {
          usable = u;
          load_weight = ground (arith, f, u.load_weight);
          latency_weight = ground (arith, g, u.latency_weight);
        }

-- A variable that is read as an integer says nothing of the rest.
Ensures-read_int :
    (env : Env) (name : String) (fallback : ℤ) (f : ℤ → Result LoadError Config)
    → ((n : ℤ) → Ensures IsLoaded (f n))
    → Ensures IsLoaded (read_int env name fallback >>= f)
Ensures-read_int env name fallback f h =
    Ensures-bind IsLoaded (read_int env name fallback) f (λ n _. h n)

Ensures-read_number :
    (env : Env) (name : String) (fallback : Number) (f : Number → Result LoadError Config)
    → is_finite fallback ≡ true
    → ((n : Number) → is_finite n ≡ true → Ensures IsLoaded (f n))
    → Ensures IsLoaded (read_number env name fallback >>= f)
Ensures-read_number env name fallback f finite h =
    Ensures-bind IsLoaded (read_number env name fallback) f
      (λ n e. h n (read_number-is_finite env name fallback n finite e))

load_config-Ensures : (env : Env) → Ensures IsLoaded (load_config env)
unfolding load_config
load_config-Ensures env = Ensures-read_int env "WR_FLEET_SIZE" default_config.fleet_size _ λ _.
    Ensures-read_int env "WR_BASE_PORT" default_config.base_port _ λ _.
      Ensures-read_int env "WR_STATUS_PORT" default_config.status_port _ λ _.
        Ensures-read_int env "WR_MCP_PORT" default_config.mcp_port _ λ _.
          Ensures-read_int env "WR_HEALTH_INTERVAL_MS" default_config.health_interval_ms _ λ _.
            Ensures-read_int env "WR_HEALTH_TIMEOUT_MS" default_config.health_timeout_ms _ λ _.
              Ensures-read_int env "WR_UNHEALTHY_THRESHOLD" default_config.unhealthy_threshold _
                λ _.
                  Ensures-read_int env "WR_HEALTHY_THRESHOLD" default_config.healthy_threshold _
                    λ _.
                      Ensures-bind IsLoaded
                        (read_strategy env "WR_ROUTING_STRATEGY" default_config.routing_strategy) _
                        λ _ _.
                          Ensures-read_int env "WR_MAX_RETRIES" default_config.max_retries _ λ _.
                            Ensures-read_number env "WR_LOAD_WEIGHT"
                              default_config.scoring_weights.load_weight _ refl
                              λ _ f.
                                Ensures-read_number env "WR_LATENCY_WEIGHT"
                                  default_config.scoring_weights.latency_weight _ refl
                                  λ _ g. validated _ f g

pub load_config-IsLoaded : (env : Env) (c : Config) → load_config env ≡ ok c → IsLoaded c
load_config-IsLoaded env c e = subst (Ensures IsLoaded) e (load_config-Ensures env)
