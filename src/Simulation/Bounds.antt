-- ===== src/Simulation/Bounds.antt =====
-- What a size found by the four stages promises (bot/crates/simulation/src/sizing.rs).
use mathlib.Core.Option
use mathlib.Core.Option.{some-injective}
use skua.Prelude.{
  ℕ, zero, suc, ◌≡◌, ◌≢◌, refl, Bool, true, false, ◌||◌, Option, none, some, arith, subst, inl, inr,
  Bool-cases, if◌then◌else◌, if_keep,
}
use skua.Float.{Float, nought}
use skua.Float.Laws.{IsOrdered, IsRounded, IsSmall}
use skua.Core.Types.{FlashProvider, SizingResult}
use skua.Simulation.Sizing.{
  phi, stage1_upper_bound, impact_gate, golden_section, finish, size_below, optimal_borrow_size,
}

if_none :
    {A : Type 0} (b : Bool) (x : Option A) {r : A}
    → (if b then none else x) ≡ some r
    → (b ≡ false) × (x ≡ some r)
if_none true x e = absurd (cc)
if_none false x e = (refl, e)

if_some-none :
    {A : Type 0} (b : Bool) (x : Option (Option A)) {r : A}
    → (if b then some none else x) ≡ some (some r)
    → (b ≡ false) × (x ≡ some (some r))
if_some-none true x e = absurd (cc)
if_some-none false x e = (refl, e)

module _ {F : Type 0} ⦃fl : Float F⦄ (ord : IsOrdered F) where
  open fl use {lt, le, minimum}
  open ord use {
    le-refl_left, le-refl_right, le_trans, lt-le, lt_of_not_le, nought_refl, minimum-le_left,
    minimum-le_right, rank, rank_bound, rank_lt, lt-rank,
  }

  module _ (rnd : IsRounded F) where
    open rnd use {IsSmall-le, upper_point, lower_point, middle_point}

    -- An interval from 0 or above, up to the bound at most.
    abbrev Inside : F → F × F → Type 0
    Inside top (lo, hi) = (le nought lo ≡ true) × (le lo hi ≡ true) × (le hi top ≡ true)

    Inside-mono : (m top : F) (r : F × F) → le m top ≡ true → Inside m r → Inside top r
    Inside-mono m top (lo, hi) h (a, b, c) = (a, b, le_trans _ _ _ c h)

    -- The search stays in its interval, which stays an interval.
    golden_section_bounds :
        (k : ℕ) (f : F → F) (lo hi : F)
        → le nought lo ≡ true
        → le lo hi ≡ true
        → IsSmall hi
        → Inside hi (golden_section k f lo hi)
    unfolding golden_section
    golden_section_bounds zero f lo hi a b c = (a, b, le-refl_right lo hi b)
    golden_section_bounds (suc k) f lo hi a b c =
        let m1 = fl.◌⊖◌ hi (fl.◌⊗◌ phi (fl.◌⊖◌ hi lo)) in
        let m2 = fl.◌⊕◌ lo (fl.◌⊗◌ phi (fl.◌⊖◌ hi lo)) in
        let (p, q) = upper_point phi lo hi refl a b c in
        let (u, v) = lower_point phi lo hi refl a b c in
        let right = golden_section_bounds k f m1 hi (le_trans _ _ _ a p) q c in
        let small = IsSmall-le m2 hi v (le_trans _ _ _ a u) c in
        let left = golden_section_bounds k f lo m2 a u small in
        if_keep (Inside hi) (lt (fl.◌⊖◌ hi lo) (fl.dec 1 10)) (lo, hi) _
          (a, b, le-refl_right lo hi b)
          (if_keep (Inside hi) (lt (f m1) (f m2)) _ _ right (Inside-mono m2 hi _ v left))

    impact_gate-le :
        (stage1 reserve_in reserve_out amp_entry amp_exit : F)
        → le stage1 stage1 ≡ true
        → le (impact_gate stage1 reserve_in reserve_out amp_entry amp_exit) stage1 ≡ true
    unfolding impact_gate
    impact_gate-le stage1 reserve_in reserve_out amp_entry amp_exit h =
        if_keep (λ x. le x stage1 ≡ true) (lt nought amp_entry || lt nought amp_exit) _ _
          (minimum-le_right _ stage1 h) h

    finish_lem :
        (f : F → F) (price : F) (decimals : ℕ) (provider : FlashProvider) (lo hi : F)
        {r : SizingResult F}
        → finish f price decimals provider (lo, hi) ≡ some r
        → (r.optimal_amount_usd ≡ fl.◌⊘◌ (fl.◌⊕◌ lo hi) (fl.dec 2 0))
          × (r.expected_profit_usd ≡ f r.optimal_amount_usd)
          × (le r.expected_profit_usd nought ≡ false)
          × (r.optimal_amount_wei ≢ 0)
          × (r.flash_provider ≡ provider)
    unfolding finish
    finish_lem f price decimals provider lo hi e = ground arith

    map-some :
        {A B : Type 0} (g : A → B) (o : Option A) {b : B}
        → Option.map g o ≡ some b
        → (a : A) × (o ≡ some a) × (g a ≡ b)
    map-some g none e = absurd (cc)
    map-some g (some a) e = (a, refl, some-injective _ _ e)

    stage1_upper_bound-le :
        (fuel : ℕ) (f : F → F) (reserve_in reserve_out ceiling s : F)
        → le ceiling ceiling ≡ true
        → stage1_upper_bound fuel f reserve_in reserve_out ceiling ≡ some s
        → le s ceiling ≡ true
    unfolding stage1_upper_bound
    stage1_upper_bound-le fuel f reserve_in reserve_out ceiling s h e =
        elim (Bool-cases (le reserve_in nought || le reserve_out nought)) [
          | inl empty ↦ subst (λ x. le x ceiling ≡ true) (some-injective _ _ (rw empty at e)) h
          | inr full ↦
              let (p, _, same) = map-some (λ x. minimum x ceiling) _ (rw full at e) in
              subst (λ x. le x ceiling ≡ true) same (minimum-le_right p ceiling h)
        ]

    -- What a size promises: the profit is that of the amount, and positive; the amount is not zero and
    -- lies between 0 and the bound.
    pub record IsSized (f : F → F) (provider : FlashProvider) (top : F) (r : SizingResult F)
        : Type 0 where
      pub profit_of_amount : r.expected_profit_usd ≡ f r.optimal_amount_usd
      pub profitable : le r.expected_profit_usd nought ≡ false
      pub not_zero : r.optimal_amount_wei ≢ 0
      pub same_provider : r.flash_provider ≡ provider
      pub from_nought : le nought r.optimal_amount_usd ≡ true
      pub up_to : le r.optimal_amount_usd top ≡ true

    positive : (a : F) → le a a ≡ true → le a nought ≡ false → le nought a ≡ true
    positive a h p = lt-le nought a (lt_of_not_le nought a nought_refl h p)

    IsSized-mono :
        (f : F → F) (provider : FlashProvider) (m top : F) {r : SizingResult F}
        → le m top ≡ true
        → IsSized f provider m r
        → IsSized f provider top r
    IsSized-mono f provider m top h v = record {
      profit_of_amount = v.profit_of_amount;
      profitable = v.profitable;
      not_zero = v.not_zero;
      same_provider = v.same_provider;
      from_nought = v.from_nought;
      up_to = le_trans _ _ _ v.up_to h;
    }

    finish-IsSized :
        (f : F → F) (price : F) (decimals : ℕ) (provider : FlashProvider) (top : F) (i : F × F)
        {r : SizingResult F}
        → IsSmall top
        → Inside top i
        → finish f price decimals provider i ≡ some r
        → IsSized f provider top r
    finish-IsSized f price decimals provider top (lo, hi) {r} small (a, b, c) e =
        let (mid, profit, pos, wei, same) = finish_lem f price decimals provider lo hi e in
        let (above, below) =
          middle_point lo hi a b (IsSmall-le hi top c (le_trans _ _ _ a b) small) in
        record {
          profit_of_amount = profit;
          profitable = pos;
          not_zero = wei;
          same_provider = same;
          from_nought = rw mid (le_trans _ _ _ a above);
          up_to = rw mid (le_trans _ _ _ below c);
        }

    size_below-IsSized :
        (f : F → F) (price : F) (decimals : ℕ) (provider : FlashProvider)
        (reserve_in reserve_out amp_entry amp_exit stage1 top : F) {r : SizingResult F}
        → le stage1 top ≡ true
        → IsSmall top
        → size_below f price decimals provider reserve_in reserve_out amp_entry amp_exit stage1
          ≡ some r
        → IsSized f provider stage1 r
    unfolding size_below
    size_below-IsSized f price decimals provider reserve_in reserve_out amp_entry amp_exit stage1
          top under big e =
        let h = le-refl_left stage1 top under in
        let gate = impact_gate stage1 reserve_in reserve_out amp_entry amp_exit in
        let le_gate = impact_gate-le stage1 reserve_in reserve_out amp_entry amp_exit h in
        let (begin, past) = if_none (le stage1 nought) _ e in
        let small = IsSmall-le stage1 top under (positive stage1 h begin) big in
        let (pos, end) = if_none (le gate nought) _ past in
        let above = positive gate (le-refl_left gate stage1 le_gate) pos in
        let fits = IsSmall-le gate stage1 le_gate above small in
        let in_gate = golden_section_bounds 128 f nought gate nought_refl above fits in
        finish-IsSized f price decimals provider stage1 (golden_section 128 f nought gate) small
          (Inside-mono gate stage1 (golden_section 128 f nought gate) le_gate in_gate) end

    -- Whatever size is found is worth its while and within both ceilings: its amount is at least 0, at
    -- most the flash liquidity and at most the operator's cap, its expected profit is the profit
    -- function at that amount and is above 0, and the amount in wei is not zero. The two ceilings are
    -- taken not to be NaN, and the cap not too large to be doubled.
    pub optimal_borrow_size-IsSized :
        (fuel : ℕ) (f : F → F) (flash cap price : F) (decimals : ℕ) (provider : FlashProvider)
        (reserve_in reserve_out amp_entry amp_exit : F) {r : SizingResult F}
        → le flash flash ≡ true
        → le cap cap ≡ true
        → IsSmall cap
        → optimal_borrow_size fuel f flash cap price decimals provider reserve_in reserve_out
            amp_entry amp_exit
          ≡ some (some r)
        → IsSized f provider flash r × IsSized f provider cap r
    unfolding optimal_borrow_size
    optimal_borrow_size-IsSized fuel f flash cap price decimals provider reserve_in reserve_out
          amp_entry amp_exit p q small e =
        let ceiling = minimum flash cap in
        let low = minimum-le_left flash cap p in
        let high = minimum-le_right flash cap q in
        let (_, priced) = if_some-none (le price nought) _ e in
        let (_, open_ceiling) = if_some-none (le ceiling nought) _ priced in
        let (s, found, sized) =
          map-some (size_below f price decimals provider reserve_in reserve_out amp_entry amp_exit)
            _ open_ceiling in
        let under =
          stage1_upper_bound-le fuel f reserve_in reserve_out ceiling s
            (le-refl_left ceiling cap high) found in
        let v =
          size_below-IsSized f price decimals provider reserve_in reserve_out amp_entry amp_exit s
            cap (le_trans _ _ _ under high) small sized in
        (
          IsSized-mono f provider s flash (le_trans _ _ _ under low) v,
          IsSized-mono f provider s cap (le_trans _ _ _ under high) v,
        )
