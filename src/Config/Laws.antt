-- ===== src/Config/Laws.antt =====
-- Config/Laws: exactly the usable configurations are accepted.
use whyrouted.Prelude.{
  ℕ, ◌+◌, ◌-◌, ◌≤◌, ◌<◌, ltb, ◌==◌, Bool, true, false, not, ◌&&◌, List, [], ◌∷◌, ok, ◌≡◌, ◌≢◌, ◌↔◌,
  refl, arith, ◌⊎◌, All,
}
use whyrouted.Routing.Weights.{is_negative}
use whyrouted.Config.{
  ℤ, pos, negsuc, lt_int, eq_int, Config, Problem, checks, pushed, valid_or_throw, validate,
  is_short, top_port, bad_port, in_fleet,
}

-- A port that a socket can bind.
abbrev pub IsPort : ℤ → Type 0
IsPort p = (n : ℕ) × (p ≡ pos n) × (1 ≤ n) × (n ≤ 65535)

abbrev pub AtLeast : ℕ → ℤ → Type 0
AtLeast k z = (n : ℕ) × (z ≡ pos n) × (k ≤ n)

pushed-nil_iff : (xs : List (Bool × Problem)) → (pushed xs ≡ []) ↔ All (λ x. x.0 ≡ false) xs
unfolding pushed
pushed-nil_iff [] = (λ e. tt, λ e. refl)
pushed-nil_iff ((true, p) ∷ xs) = (λ e. cc, λ h. cc)
pushed-nil_iff ((false, p) ∷ xs) =
    (λ e. (refl, (pushed-nil_iff xs).0 e), λ h. (pushed-nil_iff xs).1 h.1)

bad_port_iff : (p : ℤ) → (bad_port p ≡ false) ↔ IsPort p
bad_port_iff (pos n) = (λ e. (n, refl, ground arith, ground arith), λ (m, e, a, b). ground arith)
bad_port_iff (negsuc n) = (λ e. cc, λ (m, e, a, b). cc)

low_iff : (k : ℕ) (z : ℤ) → (lt_int z (pos k) ≡ false) ↔ AtLeast k z
low_iff k (pos n) = (λ e. (n, refl, ground arith), λ (m, e, a). ground arith)
low_iff k (negsuc n) = (λ e. cc, λ (m, e, a). cc)

-- What the router can start with: a fleet of at least one replica on ports that can be bound, the two
-- servers on ports apart from the fleet's and from each other, a token of at least 16 code units if
-- there is one, a probe timeout below the interval, thresholds of at least 1 and weights that are not
-- negative.
pub record IsUsable (c : Config) : Type 0 where
  pub size : ℕ
  pub base : ℕ
  pub status : ℕ
  pub mcp : ℕ
  pub timeout : ℕ
  pub interval : ℕ
  pub fleet_size : (c.fleet_size ≡ pos size) × (1 ≤ size)
  pub base_port : (c.base_port ≡ pos base) × (1 ≤ base) × (base + size ≤ 65536)
  pub status_port :
      (c.status_port ≡ pos status)
      × (1 ≤ status)
      × (status ≤ 65535)
      × ((status < base) ⊎ (base + size ≤ status))
  pub mcp_port :
      (c.mcp_port ≡ pos mcp) × (1 ≤ mcp) × (mcp ≤ 65535) × ((mcp < base) ⊎ (base + size ≤ mcp))
  pub ports_apart : mcp ≢ status
  pub token : is_short c.mcp_token ≡ false
  pub probes :
      (c.health_timeout_ms ≡ pos timeout)
      × (c.health_interval_ms ≡ pos interval)
      × (1 ≤ timeout)
      × (timeout < interval)
  pub unhealthy_threshold : AtLeast 1 c.unhealthy_threshold
  pub healthy_threshold : AtLeast 1 c.healthy_threshold
  pub max_retries : AtLeast 0 c.max_retries
  pub load_weight : is_negative c.scoring_weights.load_weight ≡ false
  pub latency_weight : is_negative c.scoring_weights.latency_weight ≡ false

validate-pushed : (c : Config) → (validate c ≡ ok c) ↔ (pushed (checks c) ≡ [])
unfolding validate
validate-pushed c = go (pushed (checks c))
  where
    go : (ps : List Problem) → (valid_or_throw c ps ≡ ok c) ↔ (ps ≡ [])
    go [] = (λ e. refl, λ e. refl)
    go (p ∷ ps) = (λ e. cc, λ e. cc)

apart :
    (p b s : ℕ)
    → 1 ≤ s
    → (not (lt_int (pos p) (pos b)) && not (lt_int (pos (b + (s - 1))) (pos p))) ≡ false
    → (p < b) ⊎ (b + s ≤ p)
apart p b s h e = ground arith

in_fleet_at :
    (c : Config) (port : ℤ) (p b s : ℕ)
    → port ≡ pos p
    → c.base_port ≡ pos b
    → c.fleet_size ≡ pos s
    → in_fleet c port ≡ false
    → (not (lt_int (pos p) (pos b)) && not (lt_int (pos (b + (s - 1))) (pos p))) ≡ false
in_fleet_at c port p b s e f g h = rw (e, f, g) at h

ports_differ :
    (c : Config) (m s : ℕ)
    → c.mcp_port ≡ pos m
    → c.status_port ≡ pos s
    → eq_int c.mcp_port c.status_port ≡ false
    → (m == s) ≡ false
ports_differ c m s e f h = rw (e, f) at h

timeout_below :
    (c : Config) (t i : ℕ)
    → c.health_timeout_ms ≡ pos t
    → c.health_interval_ms ≡ pos i
    → not (lt_int c.health_timeout_ms c.health_interval_ms) ≡ false
    → t < i
timeout_below c t i e f h = let h' : not (ltb t i) ≡ false = rw (e, f) at h in ground arith

clear :
    (c : Config) (port : ℤ) (p b s : ℕ)
    → port ≡ pos p
    → c.base_port ≡ pos b
    → c.fleet_size ≡ pos s
    → 1 ≤ s
    → (p < b) ⊎ (b + s ≤ p)
    → in_fleet c port ≡ false
clear c port p b s e f g h k = rw (e, f, g) (ground arith)

-- `validate` accepts exactly the usable configurations, and gives them back as they are.
pub validate_iff : (c : Config) → (validate c ≡ ok c) ↔ IsUsable c
validate_iff c = (
  λ h. into ((pushed-nil_iff (checks c)).0 ((validate-pushed c).0 h)),
  λ u. (validate-pushed c).1 ((pushed-nil_iff (checks c)).1 (back u)),
)
  where
    into : All (λ (x : Bool × Problem). x.0 ≡ false) (checks c) → IsUsable c
    into
          (
            size_low,
            (
              bp,
              (
                sp,
                (
                  mp,
                  (
                    top,
                    (sf, (mf, (ms, (tok, (int, (tim, (below, (ut, (ht, (mr, (lw, (tw, _)))))))))))),
                  ),
                ),
              ),
            ),
          ) =
        let (size, e_size, h_size) = (low_iff 1 c.fleet_size).0 size_low in
        let (base, e_base, base_low, base_high) = (bad_port_iff c.base_port).0 bp in
        let (status, e_status, status_low, status_high) = (bad_port_iff c.status_port).0 sp in
        let (mcp, e_mcp, mcp_low, mcp_high) = (bad_port_iff c.mcp_port).0 mp in
        let (interval, e_interval, interval_low) = (low_iff 1 c.health_interval_ms).0 int in
        let (timeout, e_timeout, timeout_low) = (low_iff 1 c.health_timeout_ms).0 tim in
        let e_top : top_port c ≡ pos (base + (size - 1)) = rw (e_base, e_size) in
        let top' : lt_int (pos 65535) (pos (base + (size - 1))) ≡ false = rw e_top at top in
        record {
          size = size;
          base = base;
          status = status;
          mcp = mcp;
          timeout = timeout;
          interval = interval;
          fleet_size = (e_size, h_size);
          base_port = (e_base, base_low, ground arith);
          status_port = (
            e_status,
            status_low,
            status_high,
            apart status base size h_size
                (in_fleet_at c c.status_port status base size e_status e_base e_size sf),
          );
          mcp_port = (
            e_mcp,
            mcp_low,
            mcp_high,
            apart mcp base size h_size
                (in_fleet_at c c.mcp_port mcp base size e_mcp e_base e_size mf),
          );
          ports_apart = λ e. ground (arith, ports_differ c mcp status e_mcp e_status ms);
          token = tok;
          probes = (
            e_timeout,
            e_interval,
            timeout_low,
            timeout_below c timeout interval e_timeout e_interval below,
          );
          unhealthy_threshold = (low_iff 1 c.unhealthy_threshold).0 ut;
          healthy_threshold = (low_iff 1 c.healthy_threshold).0 ht;
          max_retries = (low_iff 0 c.max_retries).0 mr;
          load_weight = lw;
          latency_weight = tw;
        }

    back : IsUsable c → All (λ (x : Bool × Problem). x.0 ≡ false) (checks c)
    back u =
        let (e_size, h_size) = u.fleet_size in
        let (e_base, base_low, base_high) = u.base_port in
        let (e_status, status_low, status_high, status_apart) = u.status_port in
        let (e_mcp, mcp_low, mcp_high, mcp_apart) = u.mcp_port in
        let (e_timeout, e_interval, timeout_low, below) = u.probes in
        let head : (lt_int c.fleet_size (pos 1) ≡ false) =
          (low_iff 1 c.fleet_size).1 (u.size, e_size, h_size) in
        (
          head,
          (
            (bad_port_iff c.base_port).1 (u.base, e_base, base_low, omega arith),
            (
              (bad_port_iff c.status_port).1 (u.status, e_status, status_low, status_high),
              (
                (bad_port_iff c.mcp_port).1 (u.mcp, e_mcp, mcp_low, mcp_high),
                (
                  rw (e_base, e_size) (ground arith),
                  (
                    clear c c.status_port u.status u.base u.size e_status e_base e_size h_size
                        status_apart,
                    (
                      clear c c.mcp_port u.mcp u.base u.size e_mcp e_base e_size h_size mcp_apart,
                      (
                        rw (e_mcp, e_status) (ground (arith, u.ports_apart)),
                        (
                          u.token,
                          (
                            (low_iff 1 c.health_interval_ms).1
                                (u.interval, e_interval, omega arith),
                            (
                              (low_iff 1 c.health_timeout_ms).1 (u.timeout, e_timeout, timeout_low),
                              (
                                rw (e_timeout, e_interval) (ground arith),
                                (
                                  (low_iff 1 c.unhealthy_threshold).1 u.unhealthy_threshold,
                                  (
                                    (low_iff 1 c.healthy_threshold).1 u.healthy_threshold,
                                    (
                                      (low_iff 0 c.max_retries).1 u.max_retries,
                                      (u.load_weight, (u.latency_weight, tt)),
                                    ),
                                  ),
                                ),
                              ),
                            ),
                          ),
                        ),
                      ),
                    ),
                  ),
                ),
              ),
            ),
          ),
        )
