-- ===== src/Api/Metrics.antt =====
-- bot/crates/api/src/metrics.rs, and the loop of bot/src/main.rs that copies the state into gauges. The
-- registry of the prometheus library is a parameter: its operations on a series, which is one of the
-- vectors with its labels, and its reads.
use Prim.Native.String.{String}
use skua.Prelude.{◌≡◌, ◌≢◌, List, [], ◌∷◌, if◌then◌else◌}
use skua.Float.{Float, nought, one}
use skua.Core.State.{BotState, hype_price_f64}

-- The vectors of counters and gauges, and those of histograms.
pub data Vector : Type 0 where
  opps_detected sims_passed txs_submitted txs_landed txs_reverted : Vector
  profit_usd gas_hype_total reverts_by_class landing_rate : Vector

pub data Histogram : Type 0 where
  sizing_optimal_usd sim_divergence_pct latency_signal_to_submit_ms block_latency_ms : Histogram

pub data Gauge : Type 0 where
  block_number base_fee_gwei hype_price_usd balancer_fee_bps : Gauge
  hyperlend_fee_bps kill_switch_active consecutive_reverts gas_spent_window_hype : Gauge

abbrev pub Series : Type 0
Series = Vector × List String

-- The operations of the library that the code calls.
pub record Registry (F R : Type 0) : Type 0 where
  pub inc_by : Series → F → R → R
  pub set : Series → F → R → R
  pub get : Series → R → F
  pub observe : Histogram → List String → F → R → R
  pub set_gauge : Gauge → F → R → R

-- What the documentation of the library says: an operation on a series changes its value and no other,
-- and an observation changes the value of none.
pub record IsRegistry {F R : Type 0} ⦃fl : Float F⦄ (registry : Registry F R) : Type 0 where
  pub get-inc_by :
      (s : Series) (x : F) (r : R)
      → registry.get s (registry.inc_by s x r) ≡ fl.◌⊕◌ (registry.get s r) x
  pub get-inc_by_other :
      (s t : Series) (x : F) (r : R)
      → s ≢ t
      → registry.get t (registry.inc_by s x r) ≡ registry.get t r
  pub get-set : (s : Series) (x : F) (r : R) → registry.get s (registry.set s x r) ≡ x
  pub get-set_other :
      (s t : Series) (x : F) (r : R)
      → s ≢ t
      → registry.get t (registry.set s x r) ≡ registry.get t r
  pub get-observe :
      (t : Series) (h : Histogram) (labels : List String) (x : F) (r : R)
      → registry.get t (registry.observe h labels x r) ≡ registry.get t r

-- What a sequence of calls records.
pub data Record (F : Type 0) : Type 0 where
  opp_detected sim_passed tx_submitted : (strategy : String) → Record F
  tx_landed : (strategy : String) → (profit gas_hype : F) → Record F
  tx_reverted : (strategy class : String) → (gas_hype : F) → Record F
  sizing sim_divergence block_latency signal_latency : (strategy : String) → F → Record F

module _ {F R : Type 0} ⦃fl : Float F⦄ (registry : Registry F R) where
  open fl use {cast, dec, ◌⊘◌, lt}
  open registry use {inc_by, set, get, observe, set_gauge}

  infixl 70 ◌⊘◌
  abbrev pub series : Vector → String → Series
  series v strategy = (v, strategy ∷ [])

  unfoldable pub record_opp_detected : String → R → R
  record_opp_detected strategy = inc_by (series opps_detected strategy) one

  unfoldable pub record_sim_passed : String → R → R
  record_sim_passed strategy = inc_by (series sims_passed strategy) one

  unfoldable pub record_tx_submitted : String → R → R
  record_tx_submitted strategy = inc_by (series txs_submitted strategy) one

  -- `if x > 0.0 { c.inc_by(x) }`
  abbrev pub inc_positive : Series → F → R → R
  inc_positive s x r = if lt nought x then inc_by s x r else r

  unfoldable pub record_tx_landed : String → (profit gas_hype : F) → R → R
  record_tx_landed strategy profit gas_hype r =
      let counted = inc_by (series txs_landed strategy) one r in
      let paid = inc_positive (series profit_usd strategy) profit counted in
      let burnt = inc_positive (series gas_hype_total strategy) gas_hype paid in
      let landed = get (series txs_landed strategy) burnt in
      let submitted = get (series txs_submitted strategy) burnt in
      if lt nought submitted
      then set (series landing_rate strategy) (landed ⊘ submitted) burnt
      else burnt

  unfoldable pub record_tx_reverted : (strategy class : String) → (gas_hype : F) → R → R
  record_tx_reverted strategy class gas_hype r =
      inc_positive (series gas_hype_total strategy) gas_hype (
        inc_by (reverts_by_class, strategy ∷ class ∷ []) one
          (inc_by (series txs_reverted strategy) one r))

  unfoldable pub record_sizing : String → F → R → R
  record_sizing strategy = observe sizing_optimal_usd (strategy ∷ [])

  unfoldable pub record_sim_divergence : String → F → R → R
  record_sim_divergence strategy = observe sim_divergence_pct (strategy ∷ [])

  -- The seconds since the start come from the clock.
  unfoldable pub record_signal_latency : String → (elapsed_secs : F) → R → R
  record_signal_latency strategy elapsed_secs =
      observe latency_signal_to_submit_ms (strategy ∷ []) (fl.◌⊗◌ elapsed_secs (dec 1_000 0))

  unfoldable pub record_block_latency : String → F → R → R
  record_block_latency strategy = observe block_latency_ms (strategy ∷ [])

  abbrev pub perform : Record F → R → R
  perform (opp_detected strategy) = record_opp_detected strategy
  perform (sim_passed strategy) = record_sim_passed strategy
  perform (tx_submitted strategy) = record_tx_submitted strategy
  perform (tx_landed strategy profit gas) = record_tx_landed strategy profit gas
  perform (tx_reverted strategy class gas) = record_tx_reverted strategy class gas
  perform (sizing strategy x) = record_sizing strategy x
  perform (sim_divergence strategy x) = record_sim_divergence strategy x
  perform (block_latency strategy x) = record_block_latency strategy x
  perform (signal_latency strategy x) = record_signal_latency strategy x

  -- One round of `metrics_sync_loop`.
  unfoldable pub metrics_sync_round : BotState F → R → R
  unfolding hype_price_f64
  metrics_sync_round s r =
      let r1 = set_gauge block_number (cast s.current_block) r in
      let r2 = set_gauge base_fee_gwei (cast s.current_base_fee ⊘ dec 1_000_000_000 0) r1 in
      let r3 = set_gauge hype_price_usd (hype_price_f64 s) r2 in
      let r4 = set_gauge balancer_fee_bps (cast s.balancer_fee_bps) r3 in
      let r5 = set_gauge hyperlend_fee_bps (cast s.hyperlend_fee_bps) r4 in
      let r6 = set_gauge kill_switch_active (if s.kill_switch then one else nought) r5 in
      let r7 = set_gauge consecutive_reverts (cast s.consecutive_reverts) r6 in
      set_gauge gas_spent_window_hype (cast s.gas_spent_window ⊘ dec 100_000_000 0) r7
