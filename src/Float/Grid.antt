-- ===== src/Float/Grid.antt =====
-- A concrete value of the parameter `Float` that meets the laws, for the worked examples: multiples of
-- 10^-6 from 0 up to a largest value, with NaN. Differences stop at 0, and the transcendental
-- functions are left trivial.
use Prim.Native.Nat.{min, max}
use native.Mathlib.Nat.{le_refl}
use skua.Prelude.{
  ◌≤◌, ℕ, zero, suc, ◌+◌, ◌-◌, ◌*◌, ◌/◌, ◌^◌, ◌<◌, ◌≡◌, refl, Bool, true, false, arith, ltb, leb,
  ◌==◌,
}
use skua.Float.{Float}
use skua.Float.Laws.{IsOrdered, IsRounded, IsSigned, IsSmall}

pub data Grid : Type 0 where
  nan : Grid
  num : ℕ → Grid

abbrev clamp : ℕ → ℕ
clamp k = min k (10 ^ 60)

abbrev compare_by : (ℕ → ℕ → Bool) → Grid → Grid → Bool
compare_by test nan b = false
compare_by test (num a) nan = false
compare_by test (num a) (num b) = test (clamp a) (clamp b)

abbrev combine : (ℕ → ℕ → ℕ) → Grid → Grid → Grid
combine op nan b = nan
combine op (num a) nan = nan
combine op (num a) (num b) = num (clamp (op (clamp a) (clamp b)))

-- `f64::min` and `max` ignore a NaN.
abbrev choose : (ℕ → ℕ → ℕ) → Grid → Grid → Grid
choose op nan b = b
choose op (num a) nan = num a
choose op (num a) (num b) = num (op (clamp a) (clamp b))

abbrev power : Grid → ℕ → Grid
power a zero = num 1_000_000
power a (suc n) = combine (λ x y. x * y / 1_000_000) a (power a n)

abbrev same : Grid → Grid
same a = a

abbrev to_units : ℕ → Grid → ℕ
to_units w nan = 0
to_units w (num a) = min (clamp a / 1_000_000) (2 ^ w - 1)

instance abbrev pub grid_float : Float Grid
grid_float = record {
  dec = λ m e. num (min (m * 1_000_000 / 10 ^ e) (10 ^ 60));
  cast = λ n. num (min (n * 1_000_000) (10 ^ 60));
  max_value = num (10 ^ 60 - 1);
  infinity = num (10 ^ 60);
  ◌⊕◌ = combine (λ a b. a + b);
  ◌⊖◌ = combine (λ a b. a - b);
  ◌⊗◌ = combine (λ a b. a * b / 1_000_000);
  ◌⊘◌ = combine (λ a b. a * 1_000_000 / b);
  minimum = choose min;
  maximum = choose max;
  neg = λ a. num 0;
  abs = same;
  ln = same;
  sqrt = same;
  powi = power;
  lt = compare_by ltb;
  le = compare_by leb;
  eqf = compare_by ◌==◌;
  trunc = to_units;
}

abbrev grid_rank : Grid → ℕ
grid_rank nan = 0
grid_rank (num a) = 10 ^ 60 - clamp a

le-refl_left : (a b : Grid) → compare_by leb a b ≡ true → compare_by leb a a ≡ true
le-refl_left nan b h = ground arith
le-refl_left (num a) nan h = ground arith
le-refl_left (num a) (num b) h = ground arith

le-refl_right : (a b : Grid) → compare_by leb a b ≡ true → compare_by leb b b ≡ true
le-refl_right nan b h = ground arith
le-refl_right (num a) nan h = ground arith
le-refl_right (num a) (num b) h = ground arith

le_trans :
    (a b c : Grid)
    → compare_by leb a b ≡ true
    → compare_by leb b c ≡ true
    → compare_by leb a c ≡ true
le_trans nan b c h k = ground arith
le_trans (num a) nan c h k = ground arith
le_trans (num a) (num b) nan h k = ground arith
le_trans (num a) (num b) (num c) h k = ground arith

lt-le : (a b : Grid) → compare_by ltb a b ≡ true → compare_by leb a b ≡ true
lt-le nan b h = ground arith
lt-le (num a) nan h = ground arith
lt-le (num a) (num b) h = ground arith

lt_of_not_le :
    (a b : Grid)
    → compare_by leb a a ≡ true
    → compare_by leb b b ≡ true
    → compare_by leb b a ≡ false
    → compare_by ltb a b ≡ true
lt_of_not_le nan b h k n = ground arith
lt_of_not_le (num a) nan h k n = ground arith
lt_of_not_le (num a) (num b) h k n = ground arith

minimum-le_left :
    (a b : Grid) → compare_by leb a a ≡ true → compare_by leb (choose min a b) a ≡ true
minimum-le_left nan b h = ground arith
minimum-le_left (num a) nan h = ground arith
minimum-le_left (num a) (num b) h = ground arith

minimum-le_right :
    (a b : Grid) → compare_by leb b b ≡ true → compare_by leb (choose min a b) b ≡ true
minimum-le_right nan b h = h
minimum-le_right (num a) nan h = ground arith
minimum-le_right (num a) (num b) h = ground arith

grid_rank_lt : (a : Grid) → grid_rank a < 10 ^ 60 + 1
grid_rank_lt nan = omega arith
grid_rank_lt (num a) = omega arith

lt-grid_rank : (a b : Grid) → compare_by ltb a b ≡ true → grid_rank b < grid_rank a
lt-grid_rank nan b h = ground arith
lt-grid_rank (num a) nan h = ground arith
lt-grid_rank (num a) (num b) h = ground arith

pub Grid-IsOrdered : IsOrdered Grid
Grid-IsOrdered = record {
  le-refl_left = le-refl_left;
  le-refl_right = le-refl_right;
  le_trans = le_trans;
  lt-le = lt-le;
  lt_of_not_le = lt_of_not_le;
  nought_refl = refl;
  minimum-le_left = minimum-le_left;
  minimum-le_right = minimum-le_right;
  rank = grid_rank;
  rank_bound = 10 ^ 60 + 1;
  rank_lt = grid_rank_lt;
  lt-rank = lt-grid_rank;
}

pub Grid-rank_bound : Grid-IsOrdered.rank_bound ≤ 10 ^ 60 + 1
unfolding Grid-IsOrdered
Grid-rank_bound = le_refl (10 ^ 60 + 1)

IsSmall-le :
    (a b : Grid)
    → compare_by leb a b ≡ true
    → compare_by leb (num 0) a ≡ true
    → IsSmall b
    → IsSmall a
IsSmall-le nan b h k s = ground arith
IsSmall-le (num a) nan h k s = ground arith
IsSmall-le (num a) (num b) h k s = ground arith

abbrev part : Grid → Grid → Grid → Grid
part c lo hi = combine (λ a b. a * b / 1_000_000) c (combine (λ a b. a - b) hi lo)

upper_point :
    (c lo hi : Grid)
    → c ≡ num 618_033
    → compare_by leb (num 0) lo ≡ true
    → compare_by leb lo hi ≡ true
    → IsSmall hi
    → (compare_by leb lo (combine (λ a b. a - b) hi (part c lo hi)) ≡ true)
      × (compare_by leb (combine (λ a b. a - b) hi (part c lo hi)) hi ≡ true)
upper_point c nan hi e a b s = absurd (cc)
upper_point c (num lo) nan e a b s = absurd (cc)
upper_point c (num lo) (num hi) e a b s = rw e (ground arith)

lower_point :
    (c lo hi : Grid)
    → c ≡ num 618_033
    → compare_by leb (num 0) lo ≡ true
    → compare_by leb lo hi ≡ true
    → IsSmall hi
    → (compare_by leb lo (combine (λ a b. a + b) lo (part c lo hi)) ≡ true)
      × (compare_by leb (combine (λ a b. a + b) lo (part c lo hi)) hi ≡ true)
lower_point c nan hi e a b s = absurd (cc)
lower_point c (num lo) nan e a b s = absurd (cc)
lower_point c (num lo) (num hi) e a b s = rw e (ground arith)

abbrev middle : Grid → Grid → Grid
middle lo hi = combine (λ a b. a * 1_000_000 / b) (combine (λ a b. a + b) lo hi) (num 2_000_000)

middle_point :
    (lo hi : Grid)
    → compare_by leb (num 0) lo ≡ true
    → compare_by leb lo hi ≡ true
    → IsSmall hi
    → (compare_by leb lo (middle lo hi) ≡ true) × (compare_by leb (middle lo hi) hi ≡ true)
middle_point nan hi a b s = absurd (cc)
middle_point (num lo) nan a b s = absurd (cc)
middle_point (num lo) (num hi) a b s = ground arith

pub Grid-IsRounded : IsRounded Grid
Grid-IsRounded = record {
  IsSmall-le = IsSmall-le;
  upper_point = upper_point;
  lower_point = lower_point;
  middle_point = middle_point;
}

never_negative : (a : Grid) → compare_by ltb a (num 0) ≡ false
never_negative nan = refl
never_negative (num a) = ground arith

lt-not_le : (a b : Grid) → compare_by ltb a b ≡ true → compare_by leb b a ≡ false
lt-not_le nan b h = ground arith
lt-not_le (num a) nan h = ground arith
lt-not_le (num a) (num b) h = ground arith

not_lt_of_not_le : (a b : Grid) → compare_by leb a b ≡ false → compare_by ltb a b ≡ false
not_lt_of_not_le nan b h = refl
not_lt_of_not_le (num a) nan h = refl
not_lt_of_not_le (num a) (num b) h = ground arith

add_pos :
    (a b : Grid)
    → compare_by leb a (num 0) ≡ false
    → compare_by ltb b (num 0) ≡ false
    → compare_by leb (combine (λ x y. x + y) a b) (num 0) ≡ false
add_pos nan b h k = refl
add_pos (num a) nan h k = refl
add_pos (num a) (num b) h k = ground arith

pub Grid-IsSigned : IsSigned Grid
Grid-IsSigned = record {
  nought_irrefl = refl;
  neg_infinity = refl;
  neg_infinity-le = refl;
  lt-not_le = lt-not_le;
  not_lt_of_not_le = not_lt_of_not_le;
  sub_not_neg = λ a b _. never_negative (combine (λ x y. x - y) b a);
  mul_not_neg = λ a b _ _. never_negative (combine (λ x y. x * y / 1_000_000) a b);
  add_pos = add_pos;
  div_not_neg = λ a b _ _. never_negative (combine (λ x y. x * 1_000_000 / y) a b);
}
