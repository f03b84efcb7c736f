-- ===== src/Submit/Breaker.antt =====
-- The circuit breakers of `submit_sync` (bot/crates/executor/src/submit.rs) and `BotState::is_halted`
-- (bot/crates/core/src/state.rs).
use skua.Prelude.{◌+◌, ◌^◌, ◌≤◌, ◌<◌, ◌≡◌, true, false, List, [], ◌∷◌, arith, length, All, ◌⊎◌}
use skua.Float.{Float}
use skua.Core.Config.{SkuaConfig}
use skua.Core.State.{BotState, is_halted}
use skua.World.{World, Outcome, Tx, Receipt, SendAnswer, request_failed, malformed, mined, ok, err}
use skua.Submit.{settle, submit_sync}

abbrev pub IsErr : {A : Type 0} → Outcome A → Type 0
IsErr (ok a) = ⊥
IsErr (err e) = Unit

abbrev pub IsRevert : SendAnswer → Type 0
IsRevert (mined receipt) = receipt.status ≡ false
IsRevert _ = ⊥

module _ {F : Type 0} where
  -- The revert counter never passes its threshold, and reaches it only with the kill switch on.
  pub record IsGuarded (config : SkuaConfig F) (s : BotState F) : Type 0 where
    pub bounded : s.consecutive_reverts ≤ config.max_consecutive_reverts
    pub tripped : config.max_consecutive_reverts ≤ s.consecutive_reverts → s.kill_switch ≡ true

module _ {F : Type 0} ⦃fl : Float F⦄ where
  -- A bot that is halted submits nothing: the call fails, no transaction is sent, the wallets and the
  -- metrics are left alone, and the kill switch is on afterwards.
  pub submit_sync-halted :
      (config : SkuaConfig F) (answer : SendAnswer) (tx : Tx) (w : World F)
      → is_halted config.max_consecutive_reverts w.bot ≡ true
      → let r = submit_sync config answer tx w in
        IsErr r.0
        × (r.1.sent ≡ w.sent)
        × (r.1.wallets ≡ w.wallets)
        × (r.1.metrics ≡ w.metrics)
        × (r.1.bot.kill_switch ≡ true)
  unfolding submit_sync is_halted
  submit_sync-halted config answer tx w h = ground arith

  settle-IsGuarded :
      (config : SkuaConfig F) (receipt : Receipt) (s : BotState F)
      → config.max_consecutive_reverts < 2 ^ 32
      → s.consecutive_reverts < config.max_consecutive_reverts
      → IsGuarded config (settle config receipt s)
  unfolding settle
  settle-IsGuarded config receipt s h b = ground arith

  -- With a threshold below 2^32 no submission takes the revert counter past the threshold, or up to
  -- it without turning the kill switch on; so the counter does not wrap.
  pub submit_sync-IsGuarded :
      (config : SkuaConfig F) (answer : SendAnswer) (tx : Tx) (w : World F)
      → config.max_consecutive_reverts < 2 ^ 32
      → IsGuarded config w.bot
      → IsGuarded config (submit_sync config answer tx w).1.bot
  unfolding submit_sync
  submit_sync-IsGuarded config request_failed tx w h v = ground arith
  submit_sync-IsGuarded config malformed tx w h v = ground arith
  submit_sync-IsGuarded config (mined receipt) tx w h v =
      ground (arith, settle-IsGuarded config receipt w.bot h)

  -- Submissions one after the other, each with the node's answer.
  pub submit_all : SkuaConfig F → List (SendAnswer × Tx) → World F → World F
  submit_all config [] w = w
  submit_all config ((answer, tx) ∷ rest) w =
      submit_all config rest (submit_sync config answer tx w).1

  settle-revert :
      (config : SkuaConfig F) (receipt : Receipt) (s : BotState F)
      → config.max_consecutive_reverts < 2 ^ 32
      → receipt.status ≡ false
      → s.consecutive_reverts < config.max_consecutive_reverts
      → (settle config receipt s).consecutive_reverts ≡ s.consecutive_reverts + 1
  unfolding settle
  settle-revert config receipt s h r b = ground arith

  submit_sync-revert :
      (config : SkuaConfig F) (answer : SendAnswer) (tx : Tx) (w : World F)
      → config.max_consecutive_reverts < 2 ^ 32
      → IsRevert answer
      → let w' = (submit_sync config answer tx w).1 in
        (length w'.sent ≡ length w.sent) × (w'.bot.consecutive_reverts ≡ w.bot.consecutive_reverts)
        ⊎ (length w'.sent ≡ length w.sent + 1)
          × (w'.bot.consecutive_reverts ≡ w.bot.consecutive_reverts + 1)
          × (w.bot.consecutive_reverts < config.max_consecutive_reverts)
  unfolding submit_sync
  submit_sync-revert config request_failed tx w h r = elim r [ ]
  submit_sync-revert config malformed tx w h r = elim r [ ]
  submit_sync-revert config (mined receipt) tx w h r =
      ground (arith, settle-revert config receipt w.bot h r)

  -- In a row of submissions that all revert, at most as many transactions are sent as the threshold
  -- leaves room for, however many are tried.
  pub submit_all_reverts :
      (config : SkuaConfig F) (tries : List (SendAnswer × Tx)) (w : World F)
      → config.max_consecutive_reverts < 2 ^ 32
      → IsGuarded config w.bot
      → All (λ (t : SendAnswer × Tx). IsRevert t.0) tries
      → length (submit_all config tries w).sent + w.bot.consecutive_reverts
        ≤ length w.sent + config.max_consecutive_reverts
  unfolding submit_all
  submit_all_reverts config [] w h v r = omega arith
  submit_all_reverts config ((answer, tx) ∷ rest) w h v (r, rs) = omega (
    arith,
    submit_all_reverts config rest (submit_sync config answer tx w).1 h
        (submit_sync-IsGuarded config answer tx w h v) rs,
    submit_sync-revert config answer tx w h r,
  )
