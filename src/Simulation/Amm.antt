-- ===== src/Simulation/Amm.antt =====
-- `AmmPool` of bot/crates/simulation/src/amm.rs.
use mathlib.Core.List.{foldl}
use skua.Prelude.{
  ℕ, zero, suc, ◌+◌, ◌≤◌, ◌≡◌, refl, Bool, true, ◌&&◌, ◌||◌, ◌⊎◌, inl, inr, List, [], ◌∷◌, arith,
  if◌then◌else◌, length, Bool-cases,
}
use skua.Float.{Float, nought, one}

pub record AmmPool (F : Type 0) : Type 0 where
  pub reserve_in : F
  pub reserve_out : F
  pub fee_bps : F
  pub amp : F
  pub n_tokens : ℕ

module _ {F : Type 0} where
  -- `for _ in 0..k { prev = v; v = step(v); if test(v, prev) { break; } }`
  unfoldable pub iterate_until : ℕ → (F → F) → (F → F → Bool) → F → F
  iterate_until zero step test v = v
  iterate_until (suc k) step test v =
      let rest = iterate_until k step test (step v) in if test (step v) v then step v else rest

  pub iterate : ℕ → (F → F) → F → F
  iterate zero step v = v
  iterate (suc k) step v = iterate k step (step v)

  -- The loop returns an iterate: the last one allowed, or one that has met its test.
  pub iterate_until_lem :
      (k : ℕ) (step : F → F) (test : F → F → Bool) (v : F)
      → (j : ℕ) × (j ≤ k)
        × (iterate_until k step test v ≡ iterate j step v)
        × ((j ≡ k) ⊎ ((u : F) × (iterate j step v ≡ step u) × (test (step u) u ≡ true)))
  unfolding iterate_until iterate
  iterate_until_lem zero step test v = (0, omega arith, refl, inl refl)
  iterate_until_lem (suc k) step test v = elim (Bool-cases (test (step v) v)) [
    | inl met ↦ (1, omega arith, rw met, inr (v, refl, met))
    | inr open_still ↦
        let (j, le, eq, end) = iterate_until_lem k step test (step v) in
        (
          suc j,
          omega arith,
          rw open_still eq,
          elim end [ inl all ↦ inl (omega arith) | inr early ↦ inr early ],
        )
  ]

module _ {F : Type 0} ⦃fl : Float F⦄ where
  open fl use {dec, cast, ◌⊕◌, ◌⊖◌, ◌⊗◌, ◌⊘◌, lt, le, eqf, abs, powi, trunc}

  infixl 65 ◌⊕◌ ◌⊖◌
  infixl 70 ◌⊗◌ ◌⊘◌
  unfoldable pub get_output : AmmPool F → F → F
  get_output p amount_in =
      if le amount_in nought || le p.reserve_in nought || le p.reserve_out nought
      then nought
      else let fee_factor = one ⊖ p.fee_bps ⊘ dec 10_000 0 in
        let effective_in = amount_in ⊗ fee_factor in
        (p.reserve_out ⊗ effective_in) ⊘ (p.reserve_in ⊕ effective_in)

  sum : List F → F
  sum = foldl ◌⊕◌ nought

  -- the relative convergence test of both loops, within 10^-8
  unfoldable pub converged : F → F → Bool
  converged v prev = lt nought v && le (abs (v ⊖ prev) ⊘ v) (dec 1 8)

  -- one round of the Newton iteration for D
  d_step : F → F → F → List F → F → F
  d_step ann total n reserves d =
      let d_prod = foldl (λ p r. p ⊗ d ⊘ (r ⊗ n)) d reserves in
      (ann ⊗ total ⊕ n ⊗ d_prod) ⊗ d ⊘ ((ann ⊖ one) ⊗ d ⊕ (n ⊕ one) ⊗ d_prod)

  unfoldable pub compute_d : F → List F → F
  unfolding sum d_step iterate_until converged
  compute_d amp reserves =
      let n = cast (length reserves) in
      let ann = amp ⊗ powi n (length reserves) in
      let total = sum reserves in
      if eqf total nought
      then nought
      else iterate_until 256 (d_step ann total n reserves) converged total

  unfoldable pub compute_y : F → F → F → F → F
  unfolding iterate_until converged
  compute_y amp new_reserve_in d n =
      let n_int = trunc 64 n in
      let ann = amp ⊗ powi n n_int in
      let b = new_reserve_in ⊕ d ⊘ ann in
      let c = powi d (n_int + 1) ⊘ (powi n n_int ⊗ new_reserve_in ⊗ ann) in
      iterate_until 256 (λ y. (y ⊗ y ⊕ c) ⊘ (dec 2 0 ⊗ y ⊕ b ⊖ d)) converged d

  unfoldable pub get_output_stable : AmmPool F → F → F
  get_output_stable p amount_in =
      if le amount_in nought || le p.reserve_in nought || le p.reserve_out nought
      then nought
      else let n = cast p.n_tokens in
        let d = compute_d p.amp (p.reserve_in ∷ p.reserve_out ∷ []) in
        if le d nought
        then nought
        else let new_reserve_in = p.reserve_in ⊕ amount_in in
          let new_reserve_out = compute_y p.amp new_reserve_in d n in
          let dy_raw = p.reserve_out ⊖ new_reserve_out ⊖ one in
          if le dy_raw nought
          then nought
          else let fee = dy_raw ⊗ p.fee_bps ⊘ dec 10_000 0 in
            let output = dy_raw ⊖ fee in if le output nought then nought else output
