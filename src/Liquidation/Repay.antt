-- ===== src/Liquidation/Repay.antt =====
-- How much a liquidation repays (bot/crates/strategies/liquidation/src/sizing.rs).
use skua.Prelude.{
  ℕ, ◌+◌, ◌*◌, ◌≤◌, ◌<◌, ◌≡◌, ◌≢◌, refl, ap, ◌∙◌, true, false, Option, some, List, [], ◌∷◌, inl,
  inr, ◌⊎◌, lookup,
}
use skua.Float.{Float, nought}
use skua.Core.State.{BotState}
use skua.Core.Types.{PriceMap, BorrowerPosition, DebtAsset}
use skua.World.{Outcome, ok}
use skua.Liquidation.Monitor.{UserReserve, RegisteredAsset, stored_hf, refresh_borrower_position}
use skua.Liquidation.Positions.{refresh_borrower_position-stored}
use skua.Liquidation.Sizing.{LiquidationParams, dynamic_close_factor_bps}

-- The sum of the debts, with no bound on numbers.
abbrev pub owed : List DebtAsset → ℕ
owed [] = 0
owed (d ∷ ds) = d.amount + owed ds

content : {A : Type 0} → A → Outcome (Option A) → A
content d (ok (some a)) = a
content d _ = d

List-cases : {A : Type 0} (xs : List A) → (xs ≡ []) ⊎ ((x : A) × (ys : List A) × (xs ≡ x ∷ ys))
List-cases [] = inl refl
List-cases (x ∷ xs) = inr (x, xs, refl)

module _ {F : Type 0} ⦃fl : Float F⦄ where
  open fl use {dec, lt, le}

  -- What the parameters of a liquidation promise of the position.
  pub record IsRepayable (pos : BorrowerPosition F) (prices : PriceMap F) (p : LiquidationParams F)
      : Type 0 where
    pub positive : 0 < p.debt_to_repay
    pub bounded : p.debt_to_repay ≤ owed pos.debt_assets
    pub halved : lt pos.computed_hf (dec 95 2) ≡ false → p.debt_to_repay * 2 ≤ owed pos.debt_assets
    pub debt_priced : (x : F) × (lookup p.debt_asset prices ≡ some x) × (le x nought ≡ false)
    pub collateral_priced :
        (x : F) × (lookup p.collateral_asset prices ≡ some x) × (le x nought ≡ false)

  -- A refresh stores 0 for the health factor of any borrower with debts, so the close factor of the
  -- position stored is always the whole debt, whatever the borrower's health.
  pub refresh-close_factor :
      (query : ℕ → Option UserReserve) (borrower : ℕ) (assets : List (RegisteredAsset F))
      (s : BotState F)
      → lt nought (dec 95 2) ≡ true
      → let r = refresh_borrower_position query borrower assets s in
        r.0 ≡ ok tt
        → (pos : BorrowerPosition F) × (lookup borrower r.1.hyperlend_positions ≡ some pos)
          × (pos.debt_assets ≢ [] → dynamic_close_factor_bps pos.computed_hf ≡ 10_000)
  unfolding dynamic_close_factor_bps
  refresh-close_factor query borrower assets s low e =
      let (pos, stored, _, hf, _) = refresh_borrower_position-stored query borrower assets s e in
      (
        pos,
        stored,
        λ owes. elim (List-cases pos.debt_assets) [
          | inl clear ↦ absurd (owes clear)
          | inr (d, ds, some_owed) ↦
              let zero_hf : pos.computed_hf ≡ nought = hf ∙ ap stored_hf some_owed in
              ap dynamic_close_factor_bps zero_hf ∙ rw low refl
        ],
      )
