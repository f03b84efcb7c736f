-- ===== src/Api.antt =====
-- The handlers of bot/crates/api/src/lib.rs. A handler takes the state of the bot and gives its answer
-- and the new state.
use Prim.Native.String.{String}
use skua.Prelude.{same_text, ℕ, ◌≡◌, refl, Bool, true, false, not, if◌then◌else◌, arith, ◌≢◌}
use skua.Float.{Float}
use skua.Core.State.{BotState, halt, hype_price_f64, is_halted}
pub mod Metrics
pub mod Rates

pub data StatusCode : Type 0 where
  status_ok unauthorized bad_request : StatusCode

pub record ApiState (F : Type 0) : Type 0 where
  pub bot_state : BotState F
  pub api_key : String

pub record StrategyToggle : Type 0 where
  pub api_key : String
  pub strategy : String
  pub enabled : Bool

pub record StatusResponse (F : Type 0) : Type 0 where
  pub block : ℕ
  pub base_fee : ℕ
  pub hype_price_usd : F
  pub kill_switch : Bool
  pub consecutive_reverts : ℕ
  pub s1_enabled : Bool
  pub s2_enabled : Bool
  pub s3_enabled : Bool
  pub s4_enabled : Bool

-- A request of the API that changes the state.
pub data Request : Type 0 where
  kill resume : String → Request
  toggle : StrategyToggle → Request

abbrev pub key_of : Request → String
key_of (kill key) = key
key_of (resume key) = key
key_of (toggle body) = body.api_key

module _ {F : Type 0} where
  abbrev answer : StatusCode → BotState F → ApiState F → StatusCode × ApiState F
  answer code bot s = (code, record s { bot_state = bot })

  unfoldable pub kill_handler : String → ApiState F → StatusCode × ApiState F
  unfolding halt
  kill_handler key s =
      if not (same_text key s.api_key)
      then (unauthorized, s)
      else answer status_ok (halt s.bot_state) s

  unfoldable pub resume_handler : String → ApiState F → StatusCode × ApiState F
  resume_handler key s =
      if not (same_text key s.api_key)
      then (unauthorized, s)
      else answer status_ok (record s.bot_state { kill_switch = false; consecutive_reverts = 0 }) s

  unfoldable pub strategy_toggle_handler : StrategyToggle → ApiState F → StatusCode × ApiState F
  strategy_toggle_handler body s =
      let bot = s.bot_state in
      if not (same_text body.api_key s.api_key)
      then (unauthorized, s)
      else if same_text body.strategy "s1"
      then answer status_ok (record bot { s1_enabled = body.enabled }) s
      else if same_text body.strategy "s2"
      then answer status_ok (record bot { s2_enabled = body.enabled }) s
      else if same_text body.strategy "s3"
      then answer status_ok (record bot { s3_enabled = body.enabled }) s
      else if same_text body.strategy "s4"
      then answer status_ok (record bot { s4_enabled = body.enabled }) s
      else (bad_request, s)

  -- `build_router`: each request goes to its handler.
  unfoldable pub handle : Request → ApiState F → StatusCode × ApiState F
  unfolding kill_handler resume_handler strategy_toggle_handler
  handle (kill key) = kill_handler key
  handle (resume key) = resume_handler key
  handle (toggle body) = strategy_toggle_handler body

  -- A request with a wrong key is refused, and changes nothing.
  pub handle-unauthorized :
      (r : Request) (s : ApiState F)
      → same_text (key_of r) s.api_key ≡ false
      → handle r s ≡ (unauthorized, s)
  unfolding handle kill_handler resume_handler strategy_toggle_handler
  handle-unauthorized (kill key) s wrong = rw wrong refl
  handle-unauthorized (resume key) s wrong = rw wrong refl
  handle-unauthorized (toggle body) s wrong = rw wrong refl

  -- With the right key, a kill halts the bot whatever the threshold of reverts, and a resume after it
  -- gives a bot that is not halted, with any threshold but 0.
  pub kill-resume :
      (key : String) (s : ApiState F) (max_reverts : ℕ)
      → same_text key s.api_key ≡ true
      → max_reverts ≢ 0
      → let killed = (handle (kill key) s).1 in
        (is_halted max_reverts killed.bot_state ≡ true)
        × (is_halted max_reverts (handle (resume key) killed).1.bot_state ≡ false)
  unfolding handle kill_handler resume_handler halt is_halted
  kill-resume key s max_reverts right some_reverts =
      (rw right refl, rw right (rw right (ground arith)))

  -- A toggle of a strategy never touches the kill switch, the revert counter or the gas spent.
  pub toggle-breakers :
      (body : StrategyToggle) (s : ApiState F)
      → let t = (handle (toggle body) s).1.bot_state in
        (t.kill_switch ≡ s.bot_state.kill_switch)
        × (t.consecutive_reverts ≡ s.bot_state.consecutive_reverts)
        × (t.gas_spent_window ≡ s.bot_state.gas_spent_window)
  unfolding handle strategy_toggle_handler
  toggle-breakers body s = ground arith

module _ {F : Type 0} ⦃fl : Float F⦄ where
  unfoldable pub status_handler : ApiState F → StatusResponse F
  unfolding hype_price_f64
  status_handler s =
      let bs = s.bot_state in
      record {
        block = bs.current_block;
        base_fee = bs.current_base_fee;
        hype_price_usd = hype_price_f64 bs;
        kill_switch = bs.kill_switch;
        consecutive_reverts = bs.consecutive_reverts;
        s1_enabled = bs.s1_enabled;
        s2_enabled = bs.s2_enabled;
        s3_enabled = bs.s3_enabled;
        s4_enabled = bs.s4_enabled;
      }
