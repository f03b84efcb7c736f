-- ===== src/World.antt =====
-- What the strategy executors share while they run: the bot's state, the wallet pool, the transactions
-- handed to the node and the metrics counted, with the monad of code that may fail and keeps what it
-- changed. A call of a contract stands for its ABI encoding, which is external code.
use skua.Prelude.{ℕ, Bool, Option, none, some, List, ◌∷◌, ◌≡◌, refl, ◌⊎◌, inl, inr}
use skua.Core.State.{BotState}
use skua.Executor.WalletPool
use skua.Executor.WalletPool.{WalletPool}

pub record Hop : Type 0 where
  pub pool : ℕ
  pub token_in : ℕ
  pub token_out : ℕ

-- the calldata of a pair's `swap`, or no bytes at all
pub data SwapCall : Type 0 where
  swap : (amount0_out amount1_out to : ℕ) → SwapCall
  no_bytes : SwapCall

pub data Call : Type 0 where
  execute_liquidation : (debt collateral borrower debt_amount market min_profit : ℕ) → Call
  execute_tri_arb : (flash_asset flash_amount : ℕ) → List Hop → (min_profit : ℕ) → Call
  execute_depeg_arb : (flash_asset flash_amount pool_buy pool_sell oracle min_profit : ℕ) → Call
  execute_phase1 :
      (flash_asset flash_amount evm_pool : ℕ) → Bool → (market min_bid min_escrow : ℕ) → Call
  emergency_exit : (dex : ℕ) → SwapCall → Call
  place_order : (market : ℕ) → Bool → (limit_px sz tif cloid : ℕ) → Call

pub record Tx : Type 0 where
  pub from : ℕ
  pub to : ℕ
  pub input : Call
  pub nonce : ℕ
  pub gas_limit : ℕ
  pub gas_price : ℕ
  pub chain_id : ℕ

pub record Receipt : Type 0 where
  pub status : Bool
  pub gas_used : ℕ
  pub transaction_hash : ℕ

-- the answer of the node to `eth_sendRawTransactionSync`
pub data SendAnswer : Type 0 where
  request_failed malformed : SendAnswer
  mined : Receipt → SendAnswer

pub data Strategy : Type 0 where
  s1 s2 s3 s4 : Strategy

pub data Metric : Type 0 where
  opp_detected sizing sim_passed tx_submitted signal_latency tx_landed tx_reverted : Metric

pub data Error : Type 0 where
  kill_switch_active : Error
  circuit_breaker : ℕ → Error
  send_failed bad_receipt sign_failed : Error
  rpc_failed price_missing price_zero : Error
  sim_reverted sim_short sim_refused sim_zero_price sim_below_minimum sim_divergence : Error
  zero_amount_out panicked : Error
  -- no error of the code: the fuel of a loop has run out
  out_of_fuel : Error

pub record World (F : Type 0) : Type 0 where
  pub bot : BotState F
  pub wallets : WalletPool
  -- newest first
  pub sent : List Tx
  pub metrics : List (Strategy × Metric)

pub data Outcome (A : Type 0) : Type 0 where
  ok : A → Outcome A
  err : Error → Outcome A

pub Outcome-cases :
    {A : Type 0} (o : Outcome A) → ((e : Error) × (o ≡ err e)) ⊎ ((a : A) × (o ≡ ok a))
Outcome-cases (err e) = inl (e, refl)
Outcome-cases (ok a) = inr (a, refl)

abbrev pub M : Type 0 → Type 0 → Type 0
M S A = S → Outcome A × S

abbrev pub after : {S A B : Type 0} → Outcome A × S → (A → M S B) → Outcome B × S
after (ok a, s) f = f a s
after (err e, s) f = (err e, s)

infixl 5 ◌>>=◌ ◌>>◌
abbrev pub ◌>>=◌ : {S A B : Type 0} → M S A → (A → M S B) → M S B
◌>>=◌ m f s = after (m s) f

abbrev pub ◌>>◌ : {S B : Type 0} → M S (Unit {0}) → M S B → M S B
◌>>◌ m k s = after (m s) (λ _. k)

abbrev pub pure : {S A : Type 0} → A → M S A
pure a s = (ok a, s)

abbrev pub throw : {S A : Type 0} → Error → M S A
throw e s = (err e, s)

module _ {F : Type 0} where
  abbrev pub get_bot : M (World F) (BotState F)
  get_bot w = (ok w.bot, w)

  abbrev pub count_metric : Strategy → Metric → M (World F) (Unit {0})
  count_metric s m w = (ok tt, record w { metrics = (s, m) ∷ w.metrics })

  -- `wallet_pool.acquire()`
  abbrev pub acquire : M (World F) (Option ℕ)
  acquire w = let r = WalletPool.acquire w.wallets in (ok r.0, record w { wallets = r.1 })

  -- `wallet_pool.next_nonce(i)`
  abbrev pub next_nonce : ℕ → M (World F) ℕ
  next_nonce i w = elim (WalletPool.next_nonce i w.wallets) [
    | none ↦ (err panicked, w)
    | some r ↦ (ok r.0, record w { wallets = r.1 })
  ]

  -- `wallet_pool.release(i)` at a time in milliseconds
  abbrev pub release : ℕ → ℕ → M (World F) (Unit {0})
  release now_ms i w = elim (WalletPool.release now_ms i w.wallets) [
    | none ↦ (err panicked, w)
    | some p ↦ (ok tt, record w { wallets = p })
  ]
