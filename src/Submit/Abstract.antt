-- ===== src/Submit/Abstract.antt =====
-- The circuit breaker as one machine, of which the kill switch, the counters, the submissions
-- (bot/crates/executor/src/submit.rs) and the requests (bot/crates/api/src/lib.rs) are the details.
use Prim.Native.Nat.{min}
use skua.Prelude.{
  same_text, ℕ, subst, ◌+◌, ◌-◌, ◌*◌, ◌/◌, ◌%◌, ◌^◌, ◌<◌, ◌≡◌, ◌≢◌, refl, false, ◌||◌, List, [],
  ◌∷◌, length, leb, if◌then◌else◌, inl, inr, Bool-cases, arith,
}
use skua.Float.{Float}
use skua.Core.Config.{SkuaConfig}
use skua.Core.State.{BotState, is_halted, halt, record_success, record_revert}
use skua.World.{World, Tx, Receipt, SendAnswer, request_failed, malformed, mined}
use skua.Submit.{gas_cost_hype_scaled, trip, settle, submit_sync}
use skua.Api.{
  Request, kill, resume, toggle, handle, kill_handler, resume_handler, strategy_toggle_handler,
}

-- Halted, or running with the reverts in a row.
pub data Mode : Type 0 where
  halted : Mode
  running : ℕ → Mode

pub record Breaker : Type 0 where
  pub mode : Mode
  pub spent : ℕ
  pub base_fee : ℕ

pub data Event : Type 0 where
  submit : SendAnswer → Tx → Event
  call : Request → Event

module _ {F : Type 0} ⦃fl : Float F⦄ (config : SkuaConfig F) where
  open fl use {cast, dec, ◌⊘◌, le}

  -- A submission: whether a transaction is sent, and the machine.
  abbrev pub after_receipt : Receipt → ℕ → Breaker → Breaker
  after_receipt receipt n b =
      let spent =
        (b.spent + min (receipt.gas_used % 2 ^ 64 * b.base_fee) (2 ^ 64 - 1) / 10_000_000_000)
        % 2 ^ 64 in
      let over = le config.gas_kill_threshold_hype (◌⊘◌ (cast spent) (dec 100_000_000 0)) in
      if receipt.status then record b { mode = running 0 } else record b {
        mode =
            if leb config.max_consecutive_reverts (n + 1) || over then halted else running (n + 1);
        spent = spent;
      }

  abbrev pub submitted : SendAnswer → Mode → Breaker → ℕ × Breaker
  submitted answer halted b = (0, b)
  submitted request_failed (running n) b = (1, b)
  submitted malformed (running n) b = (1, b)
  submitted (mined receipt) (running n) b = (1, after_receipt receipt n b)

  -- A request, which counts only with the right key.
  abbrev pub called : Request → Breaker → Breaker
  called (kill key) b = if same_text key config.api_key then record b { mode = halted } else b
  called (resume key) b = if same_text key config.api_key then record b { mode = running 0 } else b
  called (toggle body) b = b

  -- How many transactions are sent, and the machine after all events.
  abbrev pub breaker_run : List Event → Breaker → ℕ × Breaker
  breaker_run [] b = (0, b)
  breaker_run (submit answer tx ∷ rest) b =
      let r = submitted answer b.mode b in let more = breaker_run rest r.1 in (r.0 + more.0, more.1)
  breaker_run (call r ∷ rest) b = breaker_run rest (called r b)

  -- What the state of the bot shows of the machine.
  abbrev pub abstract_of : BotState F → Breaker
  abstract_of s = record {
    mode =
        if is_halted config.max_consecutive_reverts s
        then halted
        else running s.consecutive_reverts;
    spent = s.gas_spent_window;
    base_fee = s.current_base_fee;
  }

  abbrev pub detailed_run : List Event → World F → World F
  detailed_run [] w = w
  detailed_run (submit answer tx ∷ rest) w = detailed_run rest (submit_sync config answer tx w).1
  detailed_run (call r ∷ rest) w = detailed_run rest (record w {
    bot = (handle r (record { bot_state = w.bot; api_key = config.api_key })).1.bot_state;
  })

  module _ (some_reverts : config.max_consecutive_reverts ≢ 0)
      (low : config.max_consecutive_reverts < 2 ^ 32) where
    settle-abstract :
        (receipt : Receipt) (s : BotState F)
        → is_halted config.max_consecutive_reverts s ≡ false
        → abstract_of (settle config receipt s)
          ≡ after_receipt receipt s.consecutive_reverts (abstract_of s)
    unfolding settle is_halted trip record_success record_revert gas_cost_hype_scaled halt
    settle-abstract receipt s h = ground arith

    submit_sync-abstract :
        (answer : SendAnswer) (tx : Tx) (w : World F)
        → let v = (submit_sync config answer tx w).1 in
          let r = submitted answer (abstract_of w.bot).mode (abstract_of w.bot) in
          (abstract_of v.bot ≡ r.1) × (length v.sent ≡ length w.sent + r.0)
    unfolding submit_sync is_halted halt
    submit_sync-abstract answer tx w =
        elim (Bool-cases (is_halted config.max_consecutive_reverts w.bot)) [
          | inl stopped ↦ (ground arith, ground arith)
          | inr going ↦ by_answer answer going
        ]
      where
        by_answer :
            (a : SendAnswer)
            → is_halted config.max_consecutive_reverts w.bot ≡ false
            → let v = (submit_sync config a tx w).1 in
              let r = submitted a (abstract_of w.bot).mode (abstract_of w.bot) in
              (abstract_of v.bot ≡ r.1) × (length v.sent ≡ length w.sent + r.0)
        by_answer request_failed going = (ground arith, ground arith)
        by_answer malformed going = (ground arith, ground arith)
        by_answer (mined receipt) going =
            (ground (arith, settle-abstract receipt w.bot going), ground arith)

    handle-abstract :
        (r : Request) (s : BotState F)
        → abstract_of (handle r (record { bot_state = s; api_key = config.api_key })).1.bot_state
          ≡ called r (abstract_of s)
    unfolding handle kill_handler resume_handler strategy_toggle_handler is_halted halt
    handle-abstract (kill key) s = ground arith
    handle-abstract (resume key) s = ground arith
    handle-abstract (toggle body) s = ground arith

    -- That a state and a number of sent transactions are what the machine makes of b, from n on.
    abbrev Shows : World F → ℕ → ℕ × Breaker → Type 0
    Shows v n r = (abstract_of v.bot ≡ r.1) × (length v.sent ≡ n + r.0)

    -- Submissions and requests in any order do to the bot what they do to the machine: afterwards its
    -- kill switch and its counters show the mode and the gas of the machine, and as many transactions
    -- have been sent as the machine sends. The threshold of reverts is neither 0 nor 2^32 or more.
    pub detailed_run-breaker_run :
        (events : List Event) (w : World F)
        → let v = detailed_run events w in
          let r = breaker_run events (abstract_of w.bot) in
          (abstract_of v.bot ≡ r.1) × (length v.sent ≡ length w.sent + r.0)
    detailed_run-breaker_run [] w = (refl, omega arith)
    detailed_run-breaker_run (submit answer tx ∷ rest) w =
        let u = (submit_sync config answer tx w).1 in
        let (same, count) = submit_sync-abstract answer tx w in
        let (shown, more) =
          subst (λ b. Shows (detailed_run rest u) (length u.sent) (breaker_run rest b)) same
            (detailed_run-breaker_run rest u) in
        (shown, omega (arith, count, more))
    detailed_run-breaker_run (call r ∷ rest) w =
        let t = (handle r (record { bot_state = w.bot; api_key = config.api_key })).1.bot_state in
        subst
          (λ b.
            Shows (detailed_run rest (record w { bot = t })) (length w.sent) (breaker_run rest b))
          (handle-abstract r w.bot) (detailed_run-breaker_run rest (record w { bot = t }))
