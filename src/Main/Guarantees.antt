-- ===== src/Main/Guarantees.antt =====
-- The running program (bot/src/main.rs): its transactions, its circuit breaker and its kill switch, whatever
-- happens to it and in whatever order.
use skua.Prelude.{
  same_text, ℕ, ◌≡◌, ◌≢◌, refl, ◌<◌, ◌^◌, true, false, List, [], ◌∷◌, inl, inr, All, arith, subst,
  sym, ◌⊎◌, ◌∙◌,
}
use skua.Float.{Float}
use skua.Core.Config.{SkuaConfig}
use skua.Core.State.{BotState, halt}
use skua.Submit.{submit_sync}
use skua.Submit.Breaker.{IsGuarded, submit_sync-IsGuarded}
use skua.Api.{
  Request, handle, kill, resume, toggle, kill_handler, resume_handler, strategy_toggle_handler,
}
use skua.Liquidation.Monitor.{RegisteredAsset}
use skua.StableDepeg.{StableToken}
use skua.World.{World, Tx, SendAnswer}
use skua.Main.Keeps.{Kept, IsOurs}
use skua.Main.Program.{
  Bot, Action, header, fees, indexer, l2_book, request, receive, run_task_at, state_of, run,
}
use skua.Main.Safety.{Steady, IsAllowed, run-Holds}

-- Any request.
abbrev IsRequest : Request → Type 0
IsRequest r = Unit

-- A request that does not resume the bot: no resume with the key of the configuration.
abbrev pub IsNoResume : {F : Type 0} → SkuaConfig F → Request → Type 0
IsNoResume config (resume key) = same_text key config.api_key ≡ false
IsNoResume config _ = Unit

any_requests : {F : Type 0} (actions : List (Action F)) → All (IsAllowed IsRequest) actions
any_requests [] = tt
any_requests (header h now ∷ rest) = (tt, any_requests rest)
any_requests (fees hl bal ∷ rest) = (tt, any_requests rest)
any_requests (indexer query event ∷ rest) = (tt, any_requests rest)
any_requests (l2_book parse now message ∷ rest) = (tt, any_requests rest)
any_requests (request r ∷ rest) = (tt, any_requests rest)
any_requests (receive price ∷ rest) = (tt, any_requests rest)
any_requests (run_task_at i answers ∷ rest) = (tt, any_requests rest)

module _ {F : Type 0} ⦃fl : Float F⦄ (config : SkuaConfig F) where
  abbrev OursOnly : BotState F → List Tx → Type 0
  OursOnly s sent = All (IsOurs config) sent

  submit_sync-sent :
      (answer : SendAnswer) (tx : Tx) (w : World F)
      → let v = (submit_sync config answer tx w).1 in (v.sent ≡ w.sent) ⊎ (v.sent ≡ tx ∷ w.sent)
  unfolding submit_sync
  submit_sync-sent answer tx w = ground arith

  OursOnly-Kept : Kept config OursOnly
  OursOnly-Kept = record {
    keep = λ answer tx w ours h. elim (submit_sync-sent answer tx w) [
      | inl same ↦ subst (All (IsOurs config)) (sym same) h
      | inr more ↦ subst (All (IsOurs config)) (sym more) (ours, h)
    ];
  }

  OursOnly-Steady : Steady config IsRequest OursOnly
  OursOnly-Steady = record { steady = λ s t sent u h. h; handled = λ r s sent a h. h }

  abbrev Guarded : BotState F → List Tx → Type 0
  Guarded s sent = IsGuarded config s

  Guarded-Kept : config.max_consecutive_reverts < 2 ^ 32 → Kept config Guarded
  Guarded-Kept low = record {
    keep = λ answer tx w ours h. submit_sync-IsGuarded config answer tx w low h;
  }

  Guarded-handled :
      config.max_consecutive_reverts ≢ 0
      → (r : Request) (s : BotState F) → IsGuarded config s
      → IsGuarded config (handle r (record { bot_state = s; api_key = config.api_key })).1.bot_state
  unfolding handle kill_handler resume_handler strategy_toggle_handler halt
  Guarded-handled some_reverts (kill key) s g = ground arith
  Guarded-handled some_reverts (resume key) s g = ground arith
  Guarded-handled some_reverts (toggle body) s g = ground arith

  Guarded-Steady : config.max_consecutive_reverts ≢ 0 → Steady config IsRequest Guarded
  Guarded-Steady some_reverts = record {
    steady = λ s t sent u g. ground (arith, u.switch, u.count);
    handled = λ r s sent a g. Guarded-handled some_reverts r s g;
  }

  abbrev Stopped : List Tx → BotState F → List Tx → Type 0
  Stopped before s sent = (s.kill_switch ≡ true) × (sent ≡ before)

  Stopped-Kept : (before : List Tx) → Kept config (Stopped before)
  unfolding submit_sync
  Stopped-Kept before = record { keep = λ answer tx w ours h. ground arith }

  Stopped-handled :
      (r : Request) (s : BotState F)
      → IsNoResume config r
      → s.kill_switch ≡ true
      → (handle r (record { bot_state = s; api_key = config.api_key })).1.bot_state.kill_switch
        ≡ true
  unfolding handle kill_handler resume_handler strategy_toggle_handler halt
  Stopped-handled (kill key) s a h = ground arith
  Stopped-handled (resume key) s a h = ground arith
  Stopped-handled (toggle body) s a h = ground arith

  Stopped-Steady : (before : List Tx) → Steady config (IsNoResume config) (Stopped before)
  Stopped-Steady before = record {
    steady = λ s t sent u (h, e). (u.switch ∙ h, e);
    handled = λ r s sent a (h, e). (Stopped-handled r s a h, e);
  }

  -- Whatever happens, every transaction that the bot sends is for the configured chain and to one of
  -- the four contracts of the configuration or to the CoreWriter, if those sent before are.
  pub run-IsOurs :
      (fuel : ℕ) (assets : List (RegisteredAsset F)) (stables : List StableToken)
      (actions : List (Action F)) (b : Bot F)
      → All (IsOurs config) b.s1.world.sent
      → All (IsOurs config) (run fuel config assets stables actions b).s1.world.sent
  run-IsOurs fuel assets stables actions b h =
      run-Holds config OursOnly OursOnly-Kept IsRequest OursOnly-Steady fuel assets stables actions
        b (any_requests actions) h

  -- Whatever happens, with a threshold that is neither 0 nor 2^32 or more, the revert counter of the bot
  -- never passes its threshold, and reaches it only with the kill switch on.
  pub run-IsGuarded :
      (fuel : ℕ) (assets : List (RegisteredAsset F)) (stables : List StableToken)
      (actions : List (Action F)) (b : Bot F)
      → config.max_consecutive_reverts ≢ 0
      → config.max_consecutive_reverts < 2 ^ 32
      → IsGuarded config (state_of b)
      → IsGuarded config (state_of (run fuel config assets stables actions b))
  run-IsGuarded fuel assets stables actions b some_reverts low h =
      run-Holds config Guarded (Guarded-Kept low) IsRequest (Guarded-Steady some_reverts) fuel
        assets stables actions b (any_requests actions) h

  -- Once the kill switch is on, no transaction is sent any more, by a task spawned before or later, and
  -- the switch stays on, whatever happens but a resume with the key of the configuration.
  pub run_stopped :
      (fuel : ℕ) (assets : List (RegisteredAsset F)) (stables : List StableToken)
      (actions : List (Action F)) (b : Bot F)
      → All (IsAllowed (IsNoResume config)) actions
      → (state_of b).kill_switch ≡ true
      → let t = run fuel config assets stables actions b in
        ((state_of t).kill_switch ≡ true) × (t.s1.world.sent ≡ b.s1.world.sent)
  run_stopped fuel assets stables actions b allowed on =
      run-Holds config (Stopped b.s1.world.sent) (Stopped-Kept b.s1.world.sent) (IsNoResume config)
        (Stopped-Steady b.s1.world.sent) fuel assets stables actions b allowed (on, refl)
