-- ===== src/Examples/Wallets.antt =====
-- Worked examples of the wallet pool, of the submission and of the dispatch of transactions.
use skua.Prelude.{ℕ, ◌+◌, ◌≡◌, ◌≤◌, ◌≢◌, refl, true, false, some, List, [], ◌∷◌, arith, length}
use skua.Float.Grid.{grid_float}
use skua.Executor.WalletPool.{WalletPool, acquire_from, acquire}
use skua.Executor.Selection.{IsFreeAt, IsOldest, acquire_least_recently_used}
use skua.Executor.Nonces.{nonce_of, take_nonces, consecutive, take_nonces-consecutive}
use skua.World.{Call, place_order, s1, mined, SendAnswer, Tx}
use skua.Submit.Breaker.{IsGuarded, submit_all, submit_all_reverts}
use skua.Dispatch.{Env, Plan}
use skua.Dispatch.Reuse.{dispatch_all, dispatch_all_reuses}
use skua.Examples.Data.{config, five_wallets, world, receipt, tx, env}

acquire_least_recently_used_example : (t : ℕ) × IsFreeAt five_wallets 3 t × IsOldest t five_wallets
unfolding acquire acquire_from
acquire_least_recently_used_example = acquire_least_recently_used five_wallets 3 refl

take_nonces-consecutive_example :
    (q : WalletPool) × (take_nonces 3 0 five_wallets ≡ some (consecutive 3 7, q))
    × (nonce_of 0 q ≡ some 10)
    × ((j : ℕ) → j ≢ 0 → nonce_of j q ≡ nonce_of j five_wallets)
unfolding nonce_of
take_nonces-consecutive_example = take_nonces-consecutive 3 0 five_wallets refl (omega arith)

guarded : IsGuarded config world.bot
guarded = record { bounded = omega arith; tripped = λ h. absurd (omega arith) }

abbrev four_reverts : List (SendAnswer × Tx)
four_reverts =
    (mined (receipt false), tx)
    ∷ (mined (receipt false), tx)
    ∷ (mined (receipt false), tx)
    ∷ (mined (receipt false), tx)
    ∷ []

submit_all_reverts_example : length (submit_all config four_reverts world).sent + 0 ≤ 0 + 3
submit_all_reverts_example =
    submit_all_reverts config four_reverts world (omega arith) guarded
      (refl, (refl, (refl, (refl, tt))))

abbrev plan : Plan
plan = record { strategy = s1; contract = 3; gas_estimate = 550_000; multiplier = 3 }

abbrev two_rounds : List (Env × Plan × Call)
two_rounds =
    (env true, plan, place_order 8 false 100 5 3 0)
    ∷ (env true, plan, place_order 8 true 90 5 3 0)
    ∷ []

dispatch_all_reuses_example : (acquire (dispatch_all config two_rounds world).wallets).0 ≡ some 3
unfolding acquire acquire_from
dispatch_all_reuses_example = dispatch_all_reuses config two_rounds 3 world (refl, (refl, tt)) refl
