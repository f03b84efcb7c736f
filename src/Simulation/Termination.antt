-- ===== src/Simulation/Termination.antt =====
-- The sizing comes to an end (bot/crates/simulation/src/sizing.rs).
use mathlib.Core.Option
use mathlib.Core.Option.{some-injective}
use skua.Prelude.{
  ℕ, zero, suc, ◌≤◌, ◌<◌, ◌≡◌, refl, Bool, true, false, ◌&&◌, ◌||◌, Option, none, some, arith, inl,
  inr, Bool-cases, if◌then◌else◌,
}
use skua.Float.{Float, nought}
use skua.Float.Laws.{IsOrdered}
use skua.Core.Types.{FlashProvider}
use skua.Simulation.Sizing.{
  probe_loop, first_probe, stage1_upper_bound, size_below, optimal_borrow_size,
}

abbrev pub Returns : {A : Type 0} → Option A → Type 0
Returns {A} o = (a : A) × (o ≡ some a)

map-Returns : {A B : Type 0} (g : A → B) (o : Option A) → Returns o → Returns (Option.map g o)
map-Returns g o (a, e) = (g a, rw e)

if_Returns :
    {A : Type 0} (b : Bool) (x y : Option A) → Returns x → Returns y → Returns (if b then x else y)
if_Returns true x y p q = p
if_Returns false x y p q = q

module _ {F : Type 0} ⦃fl : Float F⦄ (ord : IsOrdered F) where
  open fl use {lt, le, minimum}
  open ord use {
    le-refl_left, le-refl_right, le_trans, lt-le, lt_of_not_le, nought_refl, minimum-le_left,
    minimum-le_right, rank, rank_bound, rank_lt, lt-rank,
  }

  -- A value that is NaN is below nothing.
  nan-lt : (a b : F) → le a a ≡ false → lt a b ≡ false
  nan-lt a b h = ground (arith, lt-le a b, le-refl_left a b)

  nan_stops :
      (fuel : ℕ) (f : F → F) (limit ceiling p : F)
      → 0 < fuel
      → le p p ≡ false
      → probe_loop fuel f limit ceiling p ≡ some p
  unfolding probe_loop
  nan_stops zero f limit ceiling p h n = elim h [ ]
  nan_stops (suc fuel) f limit ceiling p h n = ground (arith, nan-lt p limit n)

  -- A probe that moved up, or is NaN, leaves fuel for the next round.
  next-rank :
      (probe next limit : F)
      → lt probe limit ≡ true
      → le next probe ≡ false
      → le next next ≡ true
      → rank next < rank probe
  next-rank probe next limit below moved num =
      lt-rank probe next
        (lt_of_not_le probe next (le-refl_left probe limit (lt-le probe limit below)) num moved)

  probe_loop_total :
      (fuel : ℕ) (f : F → F) (limit ceiling probe : F)
      → rank probe < fuel
      → (r : F) × (probe_loop fuel f limit ceiling probe ≡ some r)
  unfolding probe_loop
  probe_loop_total zero f limit ceiling probe h = elim h [ ]
  probe_loop_total (suc fuel) f limit ceiling probe h =
      let next = minimum (minimum (fl.◌⊗◌ probe (fl.dec 2 0)) limit) ceiling in
      elim (Bool-cases (lt nought (f probe) && lt probe limit)) [
        | inr stop ↦ (probe, rw stop)
        | inl on ↦ elim (Bool-cases (le next probe)) [
          | inl same ↦ (probe, rw (on, same))
          | inr moved ↦
              let below : lt probe limit ≡ true = ground arith in
              let (r, e) : (r : F) × (probe_loop fuel f limit ceiling next ≡ some r) =
                elim (Bool-cases (le next next)) [
                  | inl num ↦
                      probe_loop_total fuel f limit ceiling next
                        (omega (arith, next-rank probe next limit below moved num))
                  | inr nan ↦ (
                    next,
                    nan_stops fuel f limit ceiling next (omega (arith, lt-rank probe limit below))
                        nan,
                  )
                ] in
              (r, rw (on, moved) e)
        ]
      ]

  -- With as much fuel as there are values, the sizing comes to an end, with a size or with none.
  pub optimal_borrow_size_total :
      (fuel : ℕ) (f : F → F) (flash cap price : F) (decimals : ℕ) (provider : FlashProvider)
      (reserve_in reserve_out amp_entry amp_exit : F)
      → rank_bound ≤ fuel
      → Returns (
          optimal_borrow_size fuel f flash cap price decimals provider reserve_in reserve_out
            amp_entry amp_exit)
  unfolding optimal_borrow_size stage1_upper_bound
  optimal_borrow_size_total fuel f flash cap price decimals provider reserve_in reserve_out
        amp_entry amp_exit h =
      let loop =
        probe_loop_total fuel f (fl.◌⊗◌ reserve_in (fl.dec 95 2)) (minimum flash cap)
          (first_probe reserve_in reserve_out)
          (omega (arith, rank_lt (first_probe reserve_in reserve_out))) in
      let stage1 =
        if_Returns (le reserve_in nought || le reserve_out nought) _ _ (minimum flash cap, refl)
          (map-Returns (λ x. minimum x (minimum flash cap)) _ loop) in
      let rest = size_below f price decimals provider reserve_in reserve_out amp_entry amp_exit in
      if_Returns (le price nought) _ _ (none, refl)
        (if_Returns (le (minimum flash cap) nought) _ _ (none, refl) (map-Returns rest _ stage1))
