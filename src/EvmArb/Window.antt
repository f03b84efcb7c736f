-- ===== src/EvmArb/Window.antt =====
-- The ring buffer of `VolEstimator` keeps the last prices (bot/crates/strategies/evm_arb/src/phase.rs).
use Prim.Native.Nat.{min}
use skua.Prelude.{
  ℕ, zero, suc, ◌+◌, ◌-◌, ◌%◌, ◌≤◌, ◌<◌, ◌≡◌, ◌≢◌, refl, sym, ap, ◌∙◌, List, [], ◌∷◌, some, inl,
  inr, arith, leb, Bool-cases, length, get_elem?, set, length-set, length-replicate,
}
use native.Mathlib.Nat.{mod-lt, mod-add-mod, mod-eq-sub-mod, mod-eq_of_lt, zero-mod}
use skua.Float.{Float, nought}
use skua.EvmArb.Phase.{VolEstimator, push, new_estimator}

get_elem?-set_same :
    {A : Type 0} (xs : List A) (i : ℕ) (v : A) → i < length xs → get_elem? (set xs i v) i ≡ some v
get_elem?-set_same [] i v h = absurd (omega arith)
get_elem?-set_same (x ∷ xs) zero v h = refl
get_elem?-set_same (x ∷ xs) (suc i) v h = get_elem?-set_same xs i v (omega arith)

get_elem?-set_other :
    {A : Type 0} (xs : List A) (i j : ℕ) (v : A) → i ≢ j → get_elem? (set xs i v) j ≡ get_elem? xs j
get_elem?-set_other [] i j v h = refl
get_elem?-set_other (x ∷ xs) zero zero v h = absurd (h refl)
get_elem?-set_other (x ∷ xs) zero (suc j) v h = refl
get_elem?-set_other (x ∷ xs) (suc i) zero v h = refl
get_elem?-set_other (x ∷ xs) (suc i) (suc j) v h = get_elem?-set_other xs i j v (λ e. h (ap suc e))

mod_apart : (a k n : ℕ) → 0 < k → k < n → (a + k) % n ≢ a % n
mod_apart a k n pos small =
    let r = a % n in
    let low : r < n = mod-lt a (omega arith) in
    elim (Bool-cases (leb n (r + k))) [
      | inl test ↦
          let over : n ≤ r + k = ground arith in
          let m : (a + k) % n ≡ r + k - n =
            sym (mod-add-mod a n k) ∙ mod-eq-sub-mod over ∙ mod-eq_of_lt (omega arith) in
          λ same. absurd (omega arith)
      | inr test ↦
          let under : r + k < n = ground arith in
          let m : (a + k) % n ≡ r + k = sym (mod-add-mod a n k) ∙ mod-eq_of_lt under in
          λ same. absurd (omega arith)
    ]

module _ {F : Type 0} ⦃fl : Float F⦄ where
  -- The estimator after the prices given, the newest first.
  abbrev pub watched : ℕ → List F → VolEstimator F
  watched window [] = new_estimator window
  watched window (x ∷ older) = push x (watched window older)

  watched-capacity : (n : ℕ) (xs : List F) → (watched n xs).capacity ≡ n
  unfolding push new_estimator
  watched-capacity n [] = refl
  watched-capacity n (x ∷ xs) = watched-capacity n xs

  length-watched : (n : ℕ) (xs : List F) → length (watched n xs).prices ≡ n
  unfolding push new_estimator
  length-watched n [] = length-replicate n nought
  length-watched n (x ∷ xs) =
      length-set (watched n xs).prices (watched n xs).head x ∙ length-watched n xs

  watched-head : (n : ℕ) (xs : List F) → (watched n xs).head ≡ length xs % n
  unfolding push new_estimator
  watched-head n [] = omega (arith, zero-mod n)
  watched-head n (x ∷ xs) =
      rw (watched-capacity n xs, watched-head n xs, mod-add-mod (length xs) n 1)
        (let more : length xs + 1 ≡ suc (length xs) = omega arith in ap (λ (m : ℕ). m % n) more)

  -- The estimator counts the prices pushed, up to its window.
  pub watched-count : (n : ℕ) (xs : List F) → (watched n xs).count ≡ min (length xs) n
  unfolding push new_estimator
  watched-count n [] = omega arith
  watched-count n (x ∷ xs) = ground (arith, watched-capacity n xs, watched-count n xs)

  -- The ring buffer holds the last prices: the k-th newest of them, if it is in the window, stands at
  -- its number modulo the window.
  pub push-last :
      (n : ℕ) (xs : List F) (k i : ℕ)
      → k < n
      → i + suc k ≡ length xs
      → get_elem? (watched n xs).prices (i % n) ≡ get_elem? xs k
  unfolding push new_estimator
  push-last n [] k i small e = absurd (omega arith)
  push-last n (x ∷ xs) zero i small e =
      let at : i ≡ length xs = omega arith in
      let pos : 0 < n = omega arith in
      rw (at, ← watched-head n xs)
        (get_elem?-set_same (watched n xs).prices (watched n xs).head x
          (omega (arith, length-watched n xs, watched-head n xs, mod-lt (length xs) pos)))
  push-last n (x ∷ xs) (suc k) i small e =
      let at : i + suc k ≡ length xs = omega arith in
      get_elem?-set_other (watched n xs).prices (watched n xs).head (i % n) x (λ same.
        mod_apart i (suc k) n (omega arith) small
          (ap (λ (m : ℕ). m % n) at ∙ sym (watched-head n xs) ∙ same))
      ∙ push-last n xs k i (omega arith) at
