-- ===== src/Scanner/Signals.antt =====
-- bot/crates/scanner/src/s1_signal.rs and s4_signal.rs
use skua.Prelude.{ℕ, ◌||◌, Bool, Option, none, some, if◌then◌else◌}
use skua.Float.{Float, nought}

pub data S1Signal (F : Type 0) : Type 0 where
  buy_evm_sell_core : F → S1Signal F
  buy_core_escrow_sell_evm : F → S1Signal F

-- prices scaled by 10^8
pub record S1Detector (F : Type 0) : Type 0 where
  pub core_bid : ℕ
  pub core_ask : ℕ
  pub evm_mid : ℕ
  pub threshold_bps : F

pub record DepegSignal (F : Type 0) : Type 0 where
  pub token : ℕ
  pub depegged_lower : Bool
  pub delta_bps : F
  pub amm_price : F
  pub oracle_price : F

module _ {F : Type 0} where
  unfoldable pub new_detector : F → S1Detector F
  new_detector threshold_bps = record {
    core_bid = 0;
    core_ask = 0;
    evm_mid = 0;
    threshold_bps = threshold_bps;
  }

  unfoldable pub update_core_bid : ℕ → S1Detector F → S1Detector F
  update_core_bid bid_scaled d = record d { core_bid = bid_scaled }

  unfoldable pub update_core_ask : ℕ → S1Detector F → S1Detector F
  update_core_ask ask_scaled d = record d { core_ask = ask_scaled }

  unfoldable pub update_evm_mid : ℕ → S1Detector F → S1Detector F
  update_evm_mid mid_scaled d = record d { evm_mid = mid_scaled }

module _ {F : Type 0} ⦃fl : Float F⦄ where
  open fl use {dec, cast, ◌⊖◌, ◌⊗◌, ◌⊘◌, lt, le, abs}

  infixl 65 ◌⊖◌
  infixl 70 ◌⊗◌ ◌⊘◌
  -- the relative gap from `low` up to `high`, in bps of `base`
  abbrev pub gap_bps : F → F → F → F
  gap_bps high low base = (high ⊖ low) ⊘ base ⊗ dec 10_000 0

  unfoldable pub evaluate : S1Detector F → Option (S1Signal F)
  evaluate d =
      let bid = cast d.core_bid in
      let ask = cast d.core_ask in
      let price = cast d.evm_mid in
      if le price nought || le bid nought || le ask nought
      then none
      else if lt d.threshold_bps (gap_bps bid price price)
      then some (buy_evm_sell_core (gap_bps bid price price))
      else if lt d.threshold_bps (gap_bps price ask price)
      then some (buy_core_escrow_sell_evm (gap_bps price ask price))
      else none

  abbrev pub depeg_bps : F → F → F
  depeg_bps amm_price oracle_price = abs ((amm_price ⊖ oracle_price) ⊘ oracle_price) ⊗ dec 10_000 0

  unfoldable pub check_depeg : F → F → F → ℕ → Option (DepegSignal F)
  check_depeg amm_price oracle_price threshold_bps token =
      if le oracle_price nought
      then none
      else if lt threshold_bps (depeg_bps amm_price oracle_price)
      then some (record {
        token = token;
        depegged_lower = lt amm_price oracle_price;
        delta_bps = depeg_bps amm_price oracle_price;
        amm_price = amm_price;
        oracle_price = oracle_price;
      })
      else none
