-- ===== src/Chain/Waits.antt =====
-- The waits between the attempts to connect (bot/crates/chain/src/providers.rs).
use Prim.Native.String.{String}
use Prim.Native.Nat.{min}
use skua.Prelude.{
  ℕ, zero, suc, ◌*◌, ◌^◌, ◌≤◌, ◌≡◌, refl, sym, ap, List, [], ◌∷◌, Option, none, some, length,
  get_elem?, arith, leb, two_pow_pos, Bool-cases, inl, inr,
}
use native.Mathlib.Nat.{mul-le-mul_left}
use mathlib.Core.Option.{some-injective, some-ne-none}
use skua.Chain.Providers.{
  Attempt, first_delay, longest_delay, next_delay, reconnect_from, ws_with_reconnect,
}

next_delay_bounds :
    (delay byte : ℕ)
    → delay ≤ longest_delay
    → (min (delay * 2) longest_delay ≤ next_delay delay byte)
      × (next_delay delay byte ≤ longest_delay)
unfolding next_delay
next_delay_bounds delay byte h = (ground arith, ground arith)

scaled_bound :
    (delay next d k : ℕ)
    → min (delay * 2) longest_delay ≤ next
    → min (next * 2 ^ k) longest_delay ≤ d
    → min (delay * 2 ^ suc k) longest_delay ≤ d
scaled_bound delay next d k h b = elim (Bool-cases (leb (delay * 2) longest_delay)) [
  | inl small ↦
      let double : 2 ^ k * (delay * 2) ≤ 2 ^ k * next = mul-le-mul_left (2 ^ k) (ground arith) in
      let same : delay * 2 ^ suc k ≡ 2 ^ k * (delay * 2) = grind arith in
      omega (arith, double, b, same)
  | inr large ↦
      let full : 2 ^ k * longest_delay ≤ 2 ^ k * next = mul-le-mul_left (2 ^ k) (ground arith) in
      grind (arith, full, b, two_pow_pos k)
]

module _ {P : Type 0} where
  -- The provider of the first attempt that succeeds, and how many failed before it.
  abbrev pub first_success : List (Attempt P) → ℕ × Option P
  first_success [] = (0, none)
  first_success ((some p, b) ∷ rest) = (0, some p)
  first_success ((none, b) ∷ rest) = (suc (first_success rest).0, (first_success rest).1)

  waits_bounds :
      (delay : ℕ) (attempts : List (Attempt P)) (k : ℕ) {d : ℕ}
      → delay ≤ longest_delay
      → get_elem? (reconnect_from delay attempts).0 k ≡ some d
      → (min (delay * 2 ^ k) longest_delay ≤ d) × (d ≤ longest_delay)
  unfolding reconnect_from
  waits_bounds delay [] k h e = absurd (some-ne-none _ (sym e))
  waits_bounds delay ((some p, b) ∷ rest) k h e = absurd (some-ne-none _ (sym e))
  waits_bounds delay ((none, b) ∷ rest) zero h e =
      let same = some-injective _ _ e in omega (arith, same, h)
  waits_bounds delay ((none, b) ∷ rest) (suc k) h e =
      let (low, high) = next_delay_bounds delay b h in
      let (l, u) = waits_bounds (next_delay delay b) rest k high e in
      (scaled_bound delay (next_delay delay b) _ k low l, u)

  -- The waits between attempts grow: the k-th, counted from 0, is at least 100 ms times 2^k, up to the
  -- 30 seconds that no wait is longer than. So each wait is positive, and from the ninth on all are
  -- of 30 seconds.
  pub ws_with_reconnect_waits :
      (connect : String → List (Attempt P)) (url : String) (k : ℕ) {d : ℕ}
      → get_elem? (ws_with_reconnect connect url).0 k ≡ some d
      → (min (100 * 2 ^ k) 30_000 ≤ d) × (d ≤ 30_000)
  unfolding ws_with_reconnect
  ws_with_reconnect_waits connect url k e = waits_bounds first_delay (connect url) k (omega arith) e

  reconnect_from_first :
      (delay : ℕ) (attempts : List (Attempt P))
      → ((reconnect_from delay attempts).1 ≡ (first_success attempts).1)
        × (length (reconnect_from delay attempts).0 ≡ (first_success attempts).0)
  unfolding reconnect_from
  reconnect_from_first delay [] = (refl, refl)
  reconnect_from_first delay ((some p, b) ∷ rest) = (refl, refl)
  reconnect_from_first delay ((none, b) ∷ rest) =
      let (same, count) = reconnect_from_first (next_delay delay b) rest in (same, ap suc count)

  -- The connection is that of the first attempt that succeeds, with one wait for each failure before
  -- it; without a success there is none, and one wait for each attempt.
  ws_with_reconnect_first :
      (connect : String → List (Attempt P)) (url : String)
      → ((ws_with_reconnect connect url).1 ≡ (first_success (connect url)).1)
        × (length (ws_with_reconnect connect url).0 ≡ (first_success (connect url)).0)
  unfolding ws_with_reconnect
  ws_with_reconnect_first connect url = reconnect_from_first first_delay (connect url)
