-- ===== src/Simulation/Signs.antt =====
-- Signs of the pool outputs and of the profits (bot/crates/simulation/src/amm.rs and profit.rs).
use skua.Prelude.{
  ℕ, ◌≡◌, true, false, ◌||◌, [], ◌∷◌, inl, inr, arith, if◌then◌else◌, if_keep, Bool-cases,
}
use skua.Float.{Float, nought, one}
use skua.Float.Laws.{IsSigned}
use skua.Simulation.Amm.{AmmPool, get_output, get_output_stable, compute_d, compute_y}
use skua.Simulation.Profit.{net_profit_three_leg, net_profit_stable_depeg}

module _ {F : Type 0} ⦃fl : Float F⦄ (signs : IsSigned F) where
  open fl use {dec, ◌⊕◌, ◌⊖◌, ◌⊗◌, ◌⊘◌, lt, le, neg, infinity}
  open signs use {
    nought_irrefl, neg_infinity, lt-not_le, not_lt_of_not_le, sub_not_neg, mul_not_neg, add_pos,
    div_not_neg,
  }

  abbrev pub IsPositive : F → Type 0
  IsPositive a = le a nought ≡ false

  clipped : (v : F) → lt (if le v nought then nought else v) nought ≡ false
  clipped v = ground (arith, nought_irrefl, not_lt_of_not_le v nought)

  -- With a fee of at most 10000 bps a constant-product pool never gives out a negative amount, whatever
  -- the reserves and the amount put in.
  get_output_not_neg :
      (p : AmmPool F) (amount_in : F)
      → le (◌⊘◌ p.fee_bps (dec 10_000 0)) one ≡ true
      → lt (get_output p amount_in) nought ≡ false
  unfolding get_output
  get_output_not_neg p amount_in h =
      let factor = ◌⊖◌ one (◌⊘◌ p.fee_bps (dec 10_000 0)) in
      let effective = ◌⊗◌ amount_in factor in
      elim (Bool-cases (le amount_in nought || le p.reserve_in nought || le p.reserve_out nought)) [
        | inl shut ↦ rw shut nought_irrefl
        | inr live ↦
            let a : le amount_in nought ≡ false = ground arith in
            let i : le p.reserve_in nought ≡ false = ground arith in
            let o : le p.reserve_out nought ≡ false = ground arith in
            let e =
              mul_not_neg amount_in factor (not_lt_of_not_le amount_in nought a)
                (sub_not_neg (◌⊘◌ p.fee_bps (dec 10_000 0)) one h) in
            rw live (
              div_not_neg (◌⊗◌ p.reserve_out effective) (◌⊕◌ p.reserve_in effective)
                (mul_not_neg p.reserve_out effective (not_lt_of_not_le p.reserve_out nought o) e)
                (add_pos p.reserve_in effective i e))
      ]

  -- Nor does a stable pool, whatever its fee and its amplification.
  get_output_stable_not_neg :
      (p : AmmPool F) (amount_in : F) → lt (get_output_stable p amount_in) nought ≡ false
  unfolding get_output_stable
  get_output_stable_not_neg p amount_in =
      let d = compute_d p.amp (p.reserve_in ∷ p.reserve_out ∷ []) in
      let y = compute_y p.amp (◌⊕◌ p.reserve_in amount_in) d (fl.cast p.n_tokens) in
      let dy_raw = ◌⊖◌ (◌⊖◌ p.reserve_out y) one in
      let keep = if_keep (λ v. lt v nought ≡ false) in
      keep (le amount_in nought || le p.reserve_in nought || le p.reserve_out nought) nought _
        nought_irrefl
        (keep (le d nought) nought _ nought_irrefl (
          keep (le dy_raw nought) nought _ nought_irrefl
            (clipped (◌⊖◌ dy_raw (◌⊘◌ (◌⊗◌ dy_raw p.fee_bps) (dec 10_000 0))))))

  -- A profit above 0 in three legs means that an amount was put in and that each leg gave something out.
  pub net_profit_three_leg_pos :
      (ab bc ca : AmmPool F) (x fee_bps : F) (gas base_fee : ℕ) (hype : F)
      → lt nought (net_profit_three_leg ab bc ca x fee_bps gas base_fee hype) ≡ true
      → let y = get_output ab x in
        let z = get_output bc y in
        IsPositive x × IsPositive y × IsPositive z × IsPositive (get_output ca z)
  unfolding net_profit_three_leg
  net_profit_three_leg_pos ab bc ca x fee_bps gas base_fee hype h = ground (arith, neg_infinity)

  -- The same of two legs through stable pools.
  pub net_profit_stable_depeg_pos :
      (buy sell : AmmPool F) (x fee_bps : F) (gas base_fee : ℕ) (hype : F)
      → lt nought (net_profit_stable_depeg buy sell x fee_bps gas base_fee hype) ≡ true
      → let y = get_output_stable buy x in
        IsPositive x × IsPositive y × IsPositive (get_output_stable sell y)
  unfolding net_profit_stable_depeg
  net_profit_stable_depeg_pos buy sell x fee_bps gas base_fee hype h = ground (arith, neg_infinity)
