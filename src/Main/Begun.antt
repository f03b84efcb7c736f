-- ===== src/Main/Begun.antt =====
-- The program of bot/src/main.rs from its start on.
use skua.Prelude.{
  ℕ, ◌≡◌, ◌≢◌, refl, subst, List, [], true, false, Option, none, some, ltb, ◌^◌, if◌then◌else◌,
  arith, inl, inr, if_keep,
}
use skua.Float.{Float}
use skua.Core.State.{BotState}
use skua.Core.Environment.{
  Environment, Parsers, Result, loaded, failed, unavailable, bind_lem, loaded-injective,
}
use skua.Core.FromEnv.{from_env}
use skua.Core.Required.{IsLoaded, from_env-IsLoaded}
use skua.HyperCore.Precompile.{read_price, refresh_hype_price}
use skua.World.{ok, Outcome-cases}
use skua.EvmArb.Sending.{new_executor}
use skua.Main.Program.{Action, state_of, run}
use skua.Main.Ready.{IsStaffed, OpensWell, open_wallets-OpensWell}
use skua.Main.Start.{Node, Started, open_wallets, first_state, fee_refresh_once, first_price, start}
use skua.Main.Idle.{IsIdle, run-IsIdle}

abbrev WhenLoaded : {A : Type 0} → (A → Type 0) → Result A → Type 0
WhenLoaded P (loaded a) = P a
WhenLoaded P (failed e) = Unit

module _ {F : Type 0} where
  -- What the first reads leave of the state.
  pub record IsFresh (s : BotState F) : Type 0 where
    pub priced : s.hype_price_usd ≢ 0
    pub no_pools : s.pool_states ≡ []
    pub s1_off : s.s1_enabled ≡ false
    pub s2_on : s.s2_enabled ≡ true
    pub s3_on : s.s3_enabled ≡ true
    pub s4_off : s.s4_enabled ≡ false
    pub running : s.kill_switch ≡ false
    pub no_reverts : s.consecutive_reverts ≡ 0

  refresh_hype_price_set :
      (price : Option ℕ) (s : BotState F) {u : Unit {0}}
      → (refresh_hype_price price s).0 ≡ ok u
      → (p : ℕ) × (p ≢ 0) × ((refresh_hype_price price s).1 ≡ record s { hype_price_usd = p })
  unfolding refresh_hype_price read_price
  refresh_hype_price_set none s e = absurd (cc e)
  refresh_hype_price_set (some p) s e = (p, ground arith, ground arith)

  priced-IsFresh : (p : ℕ) → p ≢ 0 → IsFresh (record first_state { hype_price_usd = p })
  unfolding first_state
  priced-IsFresh p positive = record {
    priced = positive;
    no_pools = refl;
    s1_off = refl;
    s2_on = refl;
    s3_on = refl;
    s4_off = refl;
    running = refl;
    no_reverts = refl;
  }

  first_price-IsFresh :
      (price : Option ℕ) {s : BotState F} → first_price price first_state ≡ loaded s → IsFresh s
  unfolding first_price
  first_price-IsFresh price {s} e =
      subst (WhenLoaded IsFresh) e
        (elim (Outcome-cases (refresh_hype_price price (first_state {F = F})).0) [
          | inl (e, lost) ↦ rw (lost, first_price) tt
          | inr (u, done) ↦
              let (p, positive, same) = refresh_hype_price_set price first_state done in
              rw (done, same, first_price) (priced-IsFresh p positive)
        ])

  fee_refresh_once-IsFresh :
      (hl_raw bal_raw : Option ℕ) (s : BotState F)
      → IsFresh s
      → WhenLoaded IsFresh (fee_refresh_once hl_raw bal_raw s)
  unfolding fee_refresh_once
  fee_refresh_once-IsFresh none bal_raw s fresh = tt
  fee_refresh_once-IsFresh (some hl) none s fresh = tt
  fee_refresh_once-IsFresh (some hl) (some wad) s fresh =
      if_keep (WhenLoaded IsFresh) (ltb wad (2 ^ 128)) _ _
        (record {
          priced = fresh.priced;
          no_pools = fresh.no_pools;
          s1_off = fresh.s1_off;
          s2_on = fresh.s2_on;
          s3_on = fresh.s3_on;
          s4_off = fresh.s4_off;
          running = fresh.running;
          no_reverts = fresh.no_reverts;
        })
        tt

module _ {F : Type 0} ⦃fl : Float F⦄ where
  pub record IsReady (st : Started F) : Type 0 where
    pub checked : IsLoaded st.config
    pub staffed : IsStaffed st.bot.s1.world.wallets
    pub fresh : IsFresh (state_of st.bot)
    pub at_rest : IsIdle [] st.bot.s1
    pub no_tasks : st.bot.tasks ≡ []

  -- When the program has started, its configuration has passed the checks of `from_env`, it has five
  -- to ten wallets, none in use, the price of HYPE is not zero, S2 and S3 are enabled and S1 and S4 are
  -- not, the kill switch is off and no revert is counted, no pool is known, S1 has not begun, and
  -- nothing is sent or spawned.
  pub start-IsReady :
      (env : Environment) (parsers : Parsers F) (node : Node) {st : Started F}
      → start env parsers node ≡ loaded st
      → IsReady st
  unfolding start new_executor
  start-IsReady env parsers node {st} e =
      let (config, c, e1) = bind_lem (from_env env parsers) _ e in
      let (_, _, e2) = bind_lem (if node.connected then loaded tt else failed unavailable) _ e1 in
      let (pool, p, e3) = bind_lem (open_wallets env parsers.signer node.transaction_count) _ e2 in
      let (priced, q, e4) = bind_lem (first_price node.price first_state) _ e3 in
      let (state, r, e5) = bind_lem (fee_refresh_once node.hl_raw node.bal_raw priced) _ e4 in
      let fresh = subst (WhenLoaded IsFresh) r (
        fee_refresh_once-IsFresh node.hl_raw node.bal_raw priced
          (first_price-IsFresh node.price q)) in
      subst IsReady (loaded-injective _ _ e5) (record {
        checked = (from_env-IsLoaded env parsers c).1;
        staffed =
            subst OpensWell p (open_wallets-OpensWell env parsers.signer node.transaction_count);
        fresh = fresh;
        at_rest = record { waiting = refl; no_pools = fresh.no_pools; nothing_sent = refl };
        no_tasks = refl;
      })

  -- The program, started from its environment and then left to whatever can happen, whatever is
  -- enabled later, never sends a transaction: no task fills the map of pools that S1, S3 and S4 look
  -- their pools up in, and S2 is given no prices.
  pub start-run_sends_nothing :
      (env : Environment) (parsers : Parsers F) (node : Node) {st : Started F} (fuel : ℕ)
      (actions : List (Action F))
      → start env parsers node ≡ loaded st
      → (run fuel st.config st.assets st.stables actions st.bot).s1.world.sent ≡ []
  start-run_sends_nothing env parsers node {st} fuel actions e =
      let ready = start-IsReady env parsers node e in
      (run-IsIdle st.config [] fuel st.assets st.stables actions st.bot ready.at_rest).nothing_sent
