-- ===== src/Chain/Providers.antt =====
-- bot/crates/chain/src/providers.rs. Whether an attempt to connect succeeds is external, and so are the
-- providers and the random byte of each wait; times are milliseconds.
use Prim.Native.String.{String}
use Prim.Native.Nat.{min}
use skua.Prelude.{ℕ, ◌+◌, ◌*◌, ◌%◌, List, [], ◌∷◌, Option, none, some}
use skua.Core.Config.{SkuaConfig}

-- An attempt to connect: a provider, or none on failure, and the random byte that is drawn after a
-- failure.
abbrev pub Attempt : Type 0 → Type 0
Attempt P = Option P × ℕ

-- The first wait, and the longest.
abbrev pub first_delay : ℕ
first_delay = 100

abbrev pub longest_delay : ℕ
longest_delay = 30_000

unfoldable pub next_delay : (delay random_byte : ℕ) → ℕ
next_delay delay random_byte = min (delay * 2 + random_byte % 100) longest_delay

module _ {P : Type 0} where
  -- The loop over the attempts, from a delay on: the waits that it made, and the provider. It goes on for
  -- ever in the code; here the list of attempts may end first.
  unfoldable pub reconnect_from : ℕ → List (Attempt P) → List ℕ × Option P
  unfolding next_delay
  reconnect_from delay [] = ([], none)
  reconnect_from delay ((some p, random_byte) ∷ rest) = ([], some p)
  reconnect_from delay ((none, random_byte) ∷ rest) =
      let r = reconnect_from (next_delay delay random_byte) rest in (delay ∷ r.0, r.1)

  unfoldable pub ws_with_reconnect :
      (connect : String → List (Attempt P)) → String → List ℕ × Option P
  unfolding reconnect_from
  ws_with_reconnect connect rpc_ws_url = reconnect_from first_delay (connect rpc_ws_url)

  -- The primary URL once, then the fallback URL as often as it takes.
  unfoldable pub ws_with_fallback :
      {F : Type 0}
      → (connect : String → List (Attempt P)) → SkuaConfig F
      → (primary : Option P) → List ℕ × Option P
  unfolding ws_with_reconnect
  ws_with_fallback connect config (some p) = ([], some p)
  ws_with_fallback connect config none = ws_with_reconnect connect config.rpc_fallback_url
