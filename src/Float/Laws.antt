-- ===== src/Float/Laws.antt =====
-- What the proofs use of `f64`: facts of IEEE 754 arithmetic, NaN included. A value is not NaN when it
-- is `<=` itself.
use skua.Prelude.{ℕ, ◌<◌, ◌≡◌, true, false}
use skua.Float.{Float, nought}

-- The order: false on NaN, total elsewhere, and with finitely many values, so that no chain rises for
-- ever: `rank` counts the values above one.
pub record IsOrdered (F : Type 0) ⦃fl : Float F⦄ : Type 0 where
  pub le-refl_left : (a b : F) → fl.le a b ≡ true → fl.le a a ≡ true
  pub le-refl_right : (a b : F) → fl.le a b ≡ true → fl.le b b ≡ true
  pub le_trans : (a b c : F) → fl.le a b ≡ true → fl.le b c ≡ true → fl.le a c ≡ true
  pub lt-le : (a b : F) → fl.lt a b ≡ true → fl.le a b ≡ true
  pub lt_of_not_le :
      (a b : F) → fl.le a a ≡ true → fl.le b b ≡ true → fl.le b a ≡ false → fl.lt a b ≡ true
  pub nought_refl : fl.le nought nought ≡ true
  pub minimum-le_left : (a b : F) → fl.le a a ≡ true → fl.le (fl.minimum a b) a ≡ true
  pub minimum-le_right : (a b : F) → fl.le b b ≡ true → fl.le (fl.minimum a b) b ≡ true
  pub rank : F → ℕ
  pub rank_bound : ℕ
  pub rank_lt : (a : F) → rank a < rank_bound
  pub lt-rank : (a b : F) → fl.lt a b ≡ true → rank b < rank a

-- The value of a float is small when its double does not overflow.
abbrev pub IsSmall : {F : Type 0} ⦃fl : Float F⦄ → F → Type 0
IsSmall ⦃fl⦄ a = fl.lt (fl.◌⊕◌ a a) fl.infinity ≡ true

module _ (F : Type 0) ⦃fl : Float F⦄ where
  open fl use {dec, ◌⊕◌, ◌⊖◌, ◌⊗◌, ◌⊘◌, lt, le}

  -- A point at a fixed part of an interval lies in the interval, after rounding: so for the golden
  -- section's two points and for the middle. The interval is that of two values from 0 on, not too large
  -- to be doubled.
  pub record IsRounded : Type 0 where
    pub IsSmall-le : (a b : F) → le a b ≡ true → le nought a ≡ true → IsSmall b → IsSmall a
    pub upper_point :
        (c lo hi : F)
        → c ≡ dec 6180339887498948 16
        → le nought lo ≡ true
        → le lo hi ≡ true
        → IsSmall hi
        → (le lo (◌⊖◌ hi (◌⊗◌ c (◌⊖◌ hi lo))) ≡ true) × (le (◌⊖◌ hi (◌⊗◌ c (◌⊖◌ hi lo))) hi ≡ true)
    pub lower_point :
        (c lo hi : F)
        → c ≡ dec 6180339887498948 16
        → le nought lo ≡ true
        → le lo hi ≡ true
        → IsSmall hi
        → (le lo (◌⊕◌ lo (◌⊗◌ c (◌⊖◌ hi lo))) ≡ true) × (le (◌⊕◌ lo (◌⊗◌ c (◌⊖◌ hi lo))) hi ≡ true)
    pub middle_point :
        (lo hi : F)
        → le nought lo ≡ true
        → le lo hi ≡ true
        → IsSmall hi
        → (le lo (◌⊘◌ (◌⊕◌ lo hi) (dec 2 0)) ≡ true) × (le (◌⊘◌ (◌⊕◌ lo hi) (dec 2 0)) hi ≡ true)

  -- Signs. A result is "not negative" when it is at least 0 or NaN.
  pub record IsSigned : Type 0 where
    pub nought_irrefl : lt nought nought ≡ false
    pub neg_infinity : lt nought (fl.neg fl.infinity) ≡ false
    pub neg_infinity-le : le (fl.neg fl.infinity) nought ≡ true
    pub lt-not_le : (a b : F) → lt a b ≡ true → le b a ≡ false
    pub not_lt_of_not_le : (a b : F) → le a b ≡ false → lt a b ≡ false
    pub sub_not_neg : (a b : F) → le a b ≡ true → lt (◌⊖◌ b a) nought ≡ false
    pub mul_not_neg :
        (a b : F) → lt a nought ≡ false → lt b nought ≡ false → lt (◌⊗◌ a b) nought ≡ false
    pub add_pos :
        (a b : F) → le a nought ≡ false → lt b nought ≡ false → le (◌⊕◌ a b) nought ≡ false
    pub div_not_neg :
        (a b : F) → lt a nought ≡ false → le b nought ≡ false → lt (◌⊘◌ a b) nought ≡ false
