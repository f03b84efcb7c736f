-- ===== src/Simulation/Gate.antt =====
-- What passes the simulation gate (bot/crates/simulation/src/eth_call.rs), and its decoding of the
-- contract's answer `(bool success, uint256 profit_wei)`.
use mathlib.Core.List.{foldl}
use native.Mathlib.Nat.{
  pow-suc, mod-eq_of_lt, add-mul-mod_self_left, one-le-pow, mul_comm, div-add-mod,
}
use skua.Prelude.{
  ℕ, zero, suc, ◌+◌, ◌*◌, ◌/◌, ◌%◌, ◌^◌, ◌<◌, ◌≡◌, refl, ap, ◌∙◌, Bool, true, false, Option, inl,
  inr, Option-cases, none, some, List, [], ◌∷◌, ◌++◌, arith, if◌then◌else◌,
}
use skua.Float.{Float, nought}
use skua.Core.Types.{SimulationResult}
use skua.World.{ok}
use skua.Simulation.EthCall.{
  from_be_bytes, decode_sim_return, max_divergence, divergence, onchain_usd, validate,
  simulate_and_validate,
}

-- The k low bytes of a number, the highest first.
abbrev pub to_be_bytes : ℕ → ℕ → List ℕ
to_be_bytes zero n = []
to_be_bytes (suc k) n = (n / 256 ^ k % 256) ∷ to_be_bytes k n

split_mod : (n q : ℕ) → 0 < q → n % (256 * q) ≡ (n / q % 256) * q + n % q
split_mod n q h =
    let r = (n / q % 256) * q + n % q in
    let small : r < 256 * q = grind arith in
    let whole : n ≡ r + 256 * q * (n / q / 256) =
      omega (arith, ap (λ (t : ℕ). t * q) (div-add-mod (n / q) 256), div-add-mod n q) in
    ap (λ (x : ℕ). x % (256 * q)) whole
    ∙ add-mul-mod_self_left r (256 * q) (n / q / 256)
    ∙ mod-eq_of_lt small

from_to :
    (k acc n : ℕ)
    → foldl (λ (x b : ℕ). x * 256 + b) acc (to_be_bytes k n) ≡ acc * 256 ^ k + n % 256 ^ k
from_to zero acc n = omega arith
from_to (suc k) acc n =
    from_to k (acc * 256 + n / 256 ^ k % 256) n
    ∙ omega (
      arith,
      ap (λ (t : ℕ). acc * t) (pow-suc 256 k),
      ap (λ (t : ℕ). n % t) (pow-suc 256 k ∙ mul_comm (256 ^ k) 256),
      split_mod n (256 ^ k) (one-le-pow k 256 (omega arith)),
    )

low_bytes : (n : ℕ) → from_be_bytes (to_be_bytes 16 n) ≡ n % 2 ^ 128
unfolding from_be_bytes
low_bytes n = from_to 16 0 n ∙ omega arith

-- The ABI encoding of the answer: two words of 32 bytes.
abbrev pub encode_answer : Bool → ℕ → List ℕ
encode_answer success profit_wei =
    to_be_bytes 32 (if success then 1 else 0) ++ to_be_bytes 32 profit_wei

-- Decoding the encoded answer gives the flag, and the profit reduced modulo 2^128: a profit of 2^128
-- wei or more is read as a smaller one.
pub decode_sim_return-encode_answer :
    (success : Bool) (profit_wei : ℕ)
    → decode_sim_return (encode_answer success profit_wei) ≡ some (success, profit_wei % 2 ^ 128)
unfolding decode_sim_return
decode_sim_return-encode_answer true profit_wei =
    ap (λ (p : ℕ). some (true, p)) (low_bytes profit_wei)
decode_sim_return-encode_answer false profit_wei =
    ap (λ (p : ℕ). some (false, p)) (low_bytes profit_wei)

module _ {F : Type 0} ⦃fl : Float F⦄ where
  open fl use {lt}

  -- What a passed check says of the result.
  abbrev pub IsValidated :
      (expected price : F) → ℕ → (minimum : F) → ℕ → SimulationResult F → Type 0
  IsValidated expected price decimals minimum wei r =
      (r.success ≡ true)
      × (r.profit_usd ≡ onchain_usd wei decimals price)
      × (lt nought price ≡ true)
      × (lt r.profit_usd minimum ≡ false)
      × (lt nought expected ≡ true → lt max_divergence (divergence r.profit_usd expected) ≡ false)

  validate_ok :
      (expected price : F) (decimals : ℕ) (minimum : F) (success : Bool) (wei : ℕ)
      {r : SimulationResult F}
      → validate expected price decimals minimum (success, wei) ≡ ok r
      → (success ≡ true) × IsValidated expected price decimals minimum wei r
  unfolding validate
  validate_ok expected price decimals minimum success wei e = ground arith

  -- A simulation that passes was answered by at least 64 bytes with the success flag set; the profit it
  -- returns is the reported one in USD at a price above 0, it is not below the minimum, and it is within
  -- 0.5% of the expected profit where that is above 0.
  pub simulate_and_validate_ok :
      (answer : Option (List ℕ)) (expected price : F) (decimals : ℕ) (minimum : F)
      {r : SimulationResult F}
      → simulate_and_validate answer expected price decimals minimum ≡ ok r
      → (raw : List ℕ) × (wei : ℕ) × (answer ≡ some raw)
        × (decode_sim_return raw ≡ some (true, wei))
        × IsValidated expected price decimals minimum wei r
  unfolding simulate_and_validate
  simulate_and_validate_ok none expected price decimals minimum e = absurd (ground arith)
  simulate_and_validate_ok (some raw) expected price decimals minimum e =
      elim (Option-cases (decode_sim_return raw)) [
        | inl short ↦ absurd (ground arith)
        | inr ((success, wei), decoded) ↦
            let v : validate expected price decimals minimum (success, wei) ≡ ok _ =
              rw (decoded, simulate_and_validate) at e in
            let (flag, rest) = validate_ok expected price decimals minimum success wei v in
            (raw, wei, refl, decoded ∙ ap (λ (b : Bool). some (b, wei)) flag, rest)
      ]
