-- ===== src/EvmArb/Phase.antt =====
-- bot/crates/strategies/evm_arb/src/phase.rs. An instant is a number of milliseconds, and the time that
-- has elapsed is the difference of the clock, which is an argument.
use skua.Prelude.{
  ℕ, ◌+◌, ◌-◌, ◌%◌, ◌&&◌, ◌||◌, Bool, false, List, [], ◌∷◌, ltb, leb, if◌then◌else◌, set, take,
  replicate, map,
}
use skua.Float.{Float, nought}

abbrev pub phase2_timeout : ℕ
phase2_timeout = 30_000

-- the fields of `Phase1Complete`
pub record Held (F : Type 0) : Type 0 where
  pub held_token : ℕ
  pub held_amount : ℕ
  pub min_phase2_proceeds : ℕ
  pub expected_profit_usd : F
  pub entered_at : ℕ
  pub phase1_tx : ℕ

pub data S1Phase (F : Type 0) : Type 0 where
  idle : S1Phase F
  phase1_complete : Held F → S1Phase F
  phase2_pending : (held_token held_amount cloid placed_at : ℕ) → S1Phase F
  phase2_complete : (proceeds_hype : F) → S1Phase F
  emergency_exited : (swapped_out : ℕ) → S1Phase F

pub record VolEstimator (F : Type 0) : Type 0 where
  pub prices : List F
  pub capacity : ℕ
  pub head : ℕ
  pub count : ℕ

module _ {F : Type 0} where
  unfoldable pub push : F → VolEstimator F → VolEstimator F
  push price v = record v {
    prices = set v.prices v.head price;
    head = (v.head + 1) % v.capacity;
    count = if ltb v.count v.capacity then v.count + 1 else v.count;
  }

module _ {F : Type 0} ⦃fl : Float F⦄ where
  open fl use {dec, cast, ◌⊕◌, ◌⊖◌, ◌⊗◌, ◌⊘◌, lt, maximum, powi, sqrt}

  infixl 65 ◌⊕◌ ◌⊖◌
  infixl 70 ◌⊗◌ ◌⊘◌
  abbrev pub emergency_exit_loss_threshold : F
  emergency_exit_loss_threshold = dec 5 1

  -- The loss in USD when the position is sold at the current price and not at the expected one.
  abbrev pub loss_usd : ℕ → F → F → F
  loss_usd held_amount current expected =
      maximum ((expected ⊖ current) ⊘ expected) nought
      ⊗ (cast held_amount ⊘ dec 100_000_000 0 ⊗ expected)

  unfoldable pub should_emergency_exit : ℕ → S1Phase F → F → F → Bool
  should_emergency_exit now idle current expected = false
  should_emergency_exit now (phase1_complete h) current expected =
      leb phase2_timeout (now - h.entered_at)
      || ((lt nought h.expected_profit_usd && lt nought expected)
          && lt (h.expected_profit_usd ⊗ emergency_exit_loss_threshold)
              (loss_usd h.held_amount current expected))
  should_emergency_exit now (phase2_pending t a c p) current expected = false
  should_emergency_exit now (phase2_complete p) current expected = false
  should_emergency_exit now (emergency_exited s) current expected = false

  unfoldable pub s1_risk_check : (expected position_size vol inter_phase_seconds : F) → Bool
  s1_risk_check expected_profit_usd position_size_usd vol_per_second inter_phase_seconds =
      lt (dec 2 0 ⊗ (position_size_usd ⊗ vol_per_second ⊗ inter_phase_seconds)) expected_profit_usd

  unfoldable pub new_estimator : ℕ → VolEstimator F
  new_estimator window = record {
    prices = replicate window nought;
    capacity = window;
    head = 0;
    count = 0;
  }

  -- `iter().sum()`, from 0 on
  unfoldable pub sum_from : F → List F → F
  sum_from acc [] = acc
  sum_from acc (x ∷ xs) = sum_from (acc ⊕ x) xs

  unfoldable pub vol_per_second : VolEstimator F → F
  unfolding sum_from
  vol_per_second v =
      if ltb v.count 2
      then nought
      else let n = cast v.count in
        let slice = take v.count v.prices in
        let mean = sum_from nought slice ⊘ n in
        let variance = sum_from nought (map (λ p. powi (p ⊖ mean) 2) slice) ⊘ (n ⊖ dec 1 0) in
        sqrt variance ⊘ cast v.count
