-- ===== src/Simulation/Sizing.antt =====
-- bot/crates/simulation/src/sizing.rs
use mathlib.Core.Option
use skua.Prelude.{ℕ, zero, suc, ◌%◌, ◌^◌, ◌&&◌, ◌||◌, Option, none, some, ◌==◌, if◌then◌else◌}
use skua.Float.{Float, nought}
use skua.Core.Types.{FlashProvider, SizingResult}

module _ {F : Type 0} ⦃fl : Float F⦄ where
  open fl use {dec, cast, ◌⊕◌, ◌⊖◌, ◌⊗◌, ◌⊘◌, lt, le, ln, abs, minimum, maximum, trunc}

  infixl 65 ◌⊕◌ ◌⊖◌
  infixl 70 ◌⊗◌ ◌⊘◌
  abbrev pub phi : F
  phi = dec 6180339887498948 16

  unfoldable pub max_impact_for_a : F → F
  max_impact_for_a amp =
      if le amp nought
      then dec 5 1
      else let t = (ln amp ⊖ ln (dec 50 0)) ⊘ (ln (dec 2000 0) ⊖ ln (dec 50 0)) in
        let u = minimum (maximum t nought) (dec 1 0) in
        minimum (maximum (dec 5 1 ⊕ dec 25 1 ⊗ u) (dec 5 1)) (dec 35 1)

  -- The doubling loop of stage 1; `none` is fuel that has run out.
  unfoldable pub probe_loop : ℕ → (F → F) → F → F → F → Option F
  probe_loop zero profit_fn limit ceiling probe = none
  probe_loop (suc fuel) profit_fn limit ceiling probe =
      let next = minimum (minimum (probe ⊗ dec 2 0) limit) ceiling in
      let rest = probe_loop fuel profit_fn limit ceiling next in
      if lt nought (profit_fn probe) && lt probe limit
      then if le next probe then some probe else rest
      else some probe

  unfoldable pub first_probe : F → F → F
  first_probe reserve_in_usd reserve_out_usd =
      let max_reserve = maximum reserve_in_usd reserve_out_usd in
      let imbalance = abs (reserve_in_usd ⊖ reserve_out_usd) ⊘ max_reserve in
      let probe_frac = minimum (maximum (imbalance ⊗ dec 5 1) (dec 5 3)) (dec 20 2) in
      reserve_in_usd ⊗ probe_frac

  unfoldable pub stage1_upper_bound : ℕ → (F → F) → F → F → F → Option F
  stage1_upper_bound fuel profit_fn reserve_in_usd reserve_out_usd hard_ceiling_usd =
      if le reserve_in_usd nought || le reserve_out_usd nought
      then some hard_ceiling_usd
      else Option.map (λ probe. minimum probe hard_ceiling_usd)
          (probe_loop fuel profit_fn (reserve_in_usd ⊗ dec 95 2) hard_ceiling_usd
            (first_probe reserve_in_usd reserve_out_usd))

  -- Stage 3: the upper bound after the impact gate of both pools.
  unfoldable pub impact_gate : (stage1 reserve_in reserve_out amp_entry amp_exit : F) → F
  impact_gate stage1_upper reserve_in_usd reserve_out_usd amp_entry amp_exit =
      if lt nought amp_entry || lt nought amp_exit
      then (let impact_entry =
            if lt nought amp_entry
            then max_impact_for_a amp_entry ⊘ dec 100 0 ⊗ reserve_in_usd
            else stage1_upper in
          let impact_exit =
            if lt nought amp_exit
            then max_impact_for_a amp_exit ⊘ dec 100 0 ⊗ reserve_out_usd
            else stage1_upper in
          let binding = minimum impact_entry impact_exit in
          minimum
            (if lt impact_exit impact_entry
              then binding ⊗ minimum (impact_entry ⊘ impact_exit) (dec 1 0)
              else binding)
            stage1_upper)
      else stage1_upper

  -- Stage 2, with the rounds left: the final interval.
  unfoldable pub golden_section : ℕ → (F → F) → F → F → F × F
  golden_section zero profit_fn lo hi = (lo, hi)
  golden_section (suc k) profit_fn lo hi =
      let m1 = hi ⊖ phi ⊗ (hi ⊖ lo) in
      let m2 = lo ⊕ phi ⊗ (hi ⊖ lo) in
      let right = golden_section k profit_fn m1 hi in
      let left = golden_section k profit_fn lo m2 in
      if lt (hi ⊖ lo) (dec 1 10)
      then (lo, hi)
      else if lt (profit_fn m1) (profit_fn m2)
      then right
      else left

  -- The middle of the last interval, its profit and its amount in wei, with the checks at the end.
  unfoldable pub finish : (F → F) → F → ℕ → FlashProvider → F × F → Option (SizingResult F)
  finish profit_fn token_price_usd token_decimals flash_provider (lo, hi) =
      let optimal_usd = (lo ⊕ hi) ⊘ dec 2 0 in
      let expected_profit = profit_fn optimal_usd in
      if le expected_profit nought
      then none
      else let scale = 10 ^ token_decimals % 2 ^ 128 in
        let optimal_wei = trunc 128 ((optimal_usd ⊘ token_price_usd) ⊗ cast scale) in
        if optimal_wei == 0
        then none
        else some (record {
          optimal_amount_wei = optimal_wei;
          optimal_amount_usd = optimal_usd;
          expected_profit_usd = expected_profit;
          flash_provider = flash_provider;
        })

  -- What follows stage 1, with its upper bound.
  unfoldable pub size_below :
      (F → F)
      → F
      → ℕ
      → FlashProvider
      → (reserve_in reserve_out amp_entry amp_exit stage1 : F) → Option (SizingResult F)
  unfolding finish
  size_below profit_fn price decimals provider reserve_in reserve_out amp_entry amp_exit stage1 =
      if le stage1 nought
      then none
      else let gated_upper = impact_gate stage1 reserve_in reserve_out amp_entry amp_exit in
        if le gated_upper nought
        then none
        else finish profit_fn price decimals provider
            (golden_section 128 profit_fn nought gated_upper)

  -- The outer `none` is fuel that has run out in stage 1.
  unfoldable pub optimal_borrow_size :
      ℕ
      → (F → F)
      → (flash_available hard_cap token_price : F) → ℕ
      → FlashProvider
      → (reserve_in reserve_out amp_entry amp_exit : F) → Option (Option (SizingResult F))
  optimal_borrow_size fuel profit_fn flash_available_usd hard_cap_usd token_price_usd token_decimals
        flash_provider reserve_in_usd reserve_out_usd amp_entry amp_exit =
      if le token_price_usd nought
      then some none
      else let stage4_ceiling = minimum flash_available_usd hard_cap_usd in
        if le stage4_ceiling nought
        then some none
        else Option.map
            (size_below profit_fn token_price_usd token_decimals flash_provider reserve_in_usd
              reserve_out_usd amp_entry amp_exit)
            (stage1_upper_bound fuel profit_fn reserve_in_usd reserve_out_usd stage4_ceiling)
