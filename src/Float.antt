-- ===== src/Float.antt =====
-- The type `f64`, which most of the bot computes with. Its values are a parameter: a type with the
-- constants, the operations and the comparisons that the code uses, as the standard library has
-- them. A comparison with NaN is false, so `x > y` is `lt y x`, and is not the negation of `x <= y`.
use skua.Prelude.{ℕ, Bool, if◌then◌else◌}
pub mod Laws
pub mod Grid

pub record Float (F : Type 0) : Type 0 where
  -- the literal m × 10^-e, and the cast `n as f64` of an unsigned integer
  pub dec : ℕ → ℕ → F
  pub cast : ℕ → F
  pub max_value : F
  pub infinity : F
  pub ◌⊕◌ : F → F → F
  pub ◌⊖◌ : F → F → F
  pub ◌⊗◌ : F → F → F
  pub ◌⊘◌ : F → F → F
  pub minimum : F → F → F
  pub maximum : F → F → F
  pub neg : F → F
  pub abs : F → F
  pub ln : F → F
  pub sqrt : F → F
  pub powi : F → ℕ → F
  pub lt : F → F → Bool
  pub le : F → F → Bool
  pub eqf : F → F → Bool
  -- the saturating cast `x as uW` to an unsigned integer of w bits
  pub trunc : ℕ → F → ℕ

module _ {F : Type 0} ⦃fl : Float F⦄ where
  open fl use {dec}

  abbrev pub nought : F
  nought = dec 0 0

  abbrev pub one : F
  one = dec 1 0
