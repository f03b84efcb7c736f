-- ===== src/Core/Gas.antt =====
-- bot/crates/core/src/gas.rs
use Prim.Native.Nat.{min}
use skua.Prelude.{ℕ, ◌*◌, ◌-◌, ◌^◌}
use skua.Float.{Float}

abbrev pub s1_phase1_gas_estimate : ℕ
s1_phase1_gas_estimate = 550_000

abbrev pub s2_liquidation_gas_estimate : ℕ
s2_liquidation_gas_estimate = 850_000

abbrev pub s3_tri_arb_3hop_gas_estimate : ℕ
s3_tri_arb_3hop_gas_estimate = 750_000

abbrev pub s4_depeg_gas_estimate : ℕ
s4_depeg_gas_estimate = 500_000

-- u128::saturating_mul
unfoldable pub compute_gas_price : ℕ → ℕ → ℕ
compute_gas_price base_fee multiplier = min (base_fee * multiplier) (2 ^ 128 - 1)

module _ {F : Type 0} ⦃fl : Float F⦄ where
  open fl use {cast, dec, ◌⊗◌, ◌⊘◌}

  infixl 70 ◌⊗◌ ◌⊘◌
  unfoldable pub gas_cost_usd : ℕ → ℕ → F → F
  gas_cost_usd base_fee_wei gas_units hype_usd =
      let gas_hype = cast base_fee_wei ⊗ cast gas_units ⊘ dec 1_000_000_000_000_000_000 0 in
      gas_hype ⊗ hype_usd
