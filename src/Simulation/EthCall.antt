-- ===== src/Simulation/EthCall.antt =====
-- bot/crates/simulation/src/eth_call.rs. What the node answers to the `eth_call` is an argument: its
-- bytes, or none for an error.
use mathlib.Core.List.{foldl}
use skua.Prelude.{
  ℕ, ◌+◌, ◌*◌, ◌%◌, ◌^◌, Bool, not, ◌&&◌, Option, none, some, List, ltb, ◌==◌, if◌then◌else◌,
  length, take, drop,
}
use skua.Float.{Float, nought}
use skua.Core.Types.{SimulationResult}
use skua.World.{
  Outcome, ok, err, sim_reverted, sim_short, sim_refused, sim_zero_price, sim_below_minimum,
  sim_divergence,
}

unfoldable pub from_be_bytes : List ℕ → ℕ
from_be_bytes = foldl (λ acc b. acc * 256 + b) 0

abbrev byte_at : ℕ → List ℕ → ℕ
byte_at i raw = foldl (λ _ b. b) 0 (take 1 (drop i raw))

-- The success flag and the profit in wei; `none` is an answer of less than 64 bytes.
unfoldable pub decode_sim_return : List ℕ → Option (Bool × ℕ)
unfolding from_be_bytes
decode_sim_return raw =
    if ltb (length raw) 64
    then none
    else some (not (byte_at 31 raw == 0), from_be_bytes (take 16 (drop 48 raw)))

module _ {F : Type 0} ⦃fl : Float F⦄ where
  open fl use {dec, cast, ◌⊖◌, ◌⊗◌, ◌⊘◌, lt, abs}

  abbrev pub max_divergence : F
  max_divergence = dec 5 3

  -- the relative difference of the two profits
  abbrev pub divergence : F → F → F
  divergence profit_usd expected = ◌⊘◌ (abs (◌⊖◌ profit_usd expected)) expected

  -- the profit that the contract reports, in USD
  abbrev pub onchain_usd : ℕ → ℕ → F → F
  onchain_usd profit_wei decimals price =
      ◌⊗◌ (◌⊘◌ (cast profit_wei) (cast (10 ^ decimals % 2 ^ 128))) price

  -- The checks on the decoded answer.
  unfoldable pub validate :
      (expected price : F) → ℕ → (minimum : F) → Bool × ℕ → Outcome (SimulationResult F)
  validate expected price decimals min_profit_usd (success, profit_wei) =
      if not success
      then err sim_refused
      else if not (lt nought price)
      then err sim_zero_price
      else let profit_usd = onchain_usd profit_wei decimals price in
        if lt profit_usd min_profit_usd
        then err sim_below_minimum
        else if lt nought expected && lt max_divergence (divergence profit_usd expected)
        then err sim_divergence
        else ok (record { success = success; profit_usd = profit_usd })

  unfoldable pub simulate_and_validate :
      Option (List ℕ) → (expected price : F) → ℕ → (minimum : F) → Outcome (SimulationResult F)
  unfolding validate decode_sim_return
  simulate_and_validate none expected price decimals min_profit_usd = err sim_reverted
  simulate_and_validate (some raw) expected price decimals min_profit_usd =
      elim (decode_sim_return raw) [
        | none ↦ err sim_short
        | some answer ↦ validate expected price decimals min_profit_usd answer
      ]
