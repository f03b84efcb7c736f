-- ===== src/Dispatch/Reuse.antt =====
-- The wallet that a dispatch leaves free (bot/crates/strategies/*/src/executor.rs): the release comes
-- after the submission, on success and on error.
use skua.Prelude.{
  ℕ, zero, suc, ◌<◌, ◌≡◌, refl, ap, ◌∙◌, true, List, some, [], ◌∷◌, arith, All, length, get_elem?,
}
use skua.Float.{Float}
use skua.Core.Config.{SkuaConfig}
use skua.Executor.WalletPool
use skua.Executor.WalletPool.{WalletPool}
use skua.Executor.Selection.{IsBusy, acquire_least_recently_used}
use skua.Executor.Leak.{acquire_claims-All, length-acquire, release-some, acquire-release}
use skua.Submit.{build_raw_tx, submit_sync}
use skua.World
use skua.World.{
  World, Outcome, ok, err, Call, Tx, Receipt, SendAnswer, request_failed, malformed, mined,
}
use skua.Dispatch.{Env, Plan, count_receipt, submit_and_release, send_from, dispatch}
use skua.Dispatch.Stuck.{next_nonce-All}

get_elem?-length : {A : Type 0} (l : List A) (i : ℕ) {x : A} → get_elem? l i ≡ some x → i < length l
get_elem?-length [] i e = absurd (cc)
get_elem?-length (y ∷ ys) zero e = omega arith
get_elem?-length (y ∷ ys) (suc i) e = omega (arith, get_elem?-length ys i e)

acquire-length : (p : WalletPool) (i : ℕ) → (WalletPool.acquire p).0 ≡ some i → i < length p
acquire-length p i e =
    let (t, (s, at, _, _), _) = acquire_least_recently_used p i e in get_elem?-length p i at

next_nonce-some :
    (i : ℕ) (p : WalletPool)
    → i < length p
    → (n : ℕ) × (q : WalletPool) × (WalletPool.next_nonce i p ≡ some (n, q)) × (length q ≡ length p)
unfolding WalletPool.next_nonce
next_nonce-some i [] h = elim h [ ]
next_nonce-some zero (s ∷ ss) h = (_, _, refl, refl)
next_nonce-some (suc i) (s ∷ ss) h =
    let (n, q, e, same) = next_nonce-some i ss (omega arith) in (n, s ∷ q, rw e refl, ap suc same)

module _ {F : Type 0} ⦃fl : Float F⦄ where
  pub submit_sync-wallets :
      (config : SkuaConfig F) (answer : SendAnswer) (tx : Tx) (w : World F)
      → (submit_sync config answer tx w).1.wallets ≡ w.wallets
  unfolding submit_sync
  submit_sync-wallets config request_failed tx w = ground arith
  submit_sync-wallets config malformed tx w = ground arith
  submit_sync-wallets config (mined receipt) tx w = ground arith

  -- The wallet that the next call of `acquire` would be given.
  abbrev Offers : ℕ → World F → Type 0
  Offers i w = (WalletPool.acquire w.wallets).0 ≡ some i

  submit_and_release-Offers :
      (config : SkuaConfig F) (env : Env) (i : ℕ) (tx : Tx) (w : World F)
      → All IsBusy w.wallets
      → i < length w.wallets
      → Offers i (submit_and_release config env i tx w).1
  unfolding submit_and_release
  submit_and_release-Offers config env i tx w busy h =
      let (q, e) = release-some env.released_at i w.wallets h in
      let kept = submit_sync-wallets config env.send_answer tx w in
      let freed : WalletPool.release env.released_at i
            (submit_sync config env.send_answer tx w).1.wallets
          ≡ some q =
        ap (WalletPool.release env.released_at i) kept ∙ e in
      rw (freed, World.release) (acquire-release env.released_at i w.wallets q busy e)

  count_receipt-Offers :
      (plan : Plan) (i : ℕ) (r : Outcome Receipt × World F)
      → Offers i r.1
      → Offers i (World.after r (count_receipt plan.strategy)).1
  unfolding count_receipt
  count_receipt-Offers plan i (ok receipt, w) h = h
  count_receipt-Offers plan i (err e, w) h = h

  send_from-Offers :
      (config : SkuaConfig F) (env : Env) (plan : Plan) (input : Call) (i : ℕ) (w : World F)
      → env.signed ≡ true
      → All IsBusy w.wallets
      → i < length w.wallets
      → Offers i (send_from config env plan input i w).1
  unfolding send_from build_raw_tx
  send_from-Offers config env plan input i w signed busy h =
      let (n, p, next, same) = next_nonce-some i w.wallets h in
      rw (next, World.next_nonce)
        (rw signed (
          count_receipt-Offers plan i _ (
            submit_and_release-Offers config env i _ _ (next_nonce-All i w.wallets n p next busy)
              (omega (arith, same)))))

  after-Offers :
      {A : Type 0} (i : ℕ) (r : Outcome A × World F)
      → Offers i r.1
      → Offers i (World.after r (λ a. World.pure (some a))).1
  after-Offers i (ok a, w) h = h
  after-Offers i (err e, w) h = h

  dispatch-Offers :
      (config : SkuaConfig F) (env : Env) (plan : Plan) (input : Call) (i : ℕ) (w : World F)
      → env.signed ≡ true
      → Offers i w
      → Offers i (dispatch config env plan input w).1
  unfolding dispatch
  dispatch-Offers config env plan input i w signed free =
      let u = record w { wallets = (WalletPool.acquire w.wallets).1 } in
      rw (free, dispatch)
        (after-Offers i (send_from config env plan input i u) (
          send_from-Offers config env plan input i u signed (acquire_claims-All w.wallets)
            (omega (arith, acquire-length w.wallets i free, length-acquire w.wallets))))

  -- Dispatches one after the other, whether or not they fail, each with its own call and answers.
  pub dispatch_all : SkuaConfig F → List (Env × Plan × Call) → World F → World F
  dispatch_all config [] w = w
  dispatch_all config ((env, plan, input) ∷ rest) w =
      dispatch_all config rest (dispatch config env plan input w).1

  -- As long as transactions are signed, every dispatch of every strategy is given the wallet of the first
  -- one, whether the node refuses, fails or lands them: after any number of them the next one is given
  -- it again.
  pub dispatch_all_reuses :
      (config : SkuaConfig F) (rounds : List (Env × Plan × Call)) (i : ℕ) (w : World F)
      → All (λ (r : Env × Plan × Call). r.0.signed ≡ true) rounds
      → (WalletPool.acquire w.wallets).0 ≡ some i
      → (WalletPool.acquire (dispatch_all config rounds w).wallets).0 ≡ some i
  unfolding dispatch_all
  dispatch_all_reuses config [] i w signed free = free
  dispatch_all_reuses config ((env, plan, input) ∷ rest) i w (signed, more) free =
      dispatch_all_reuses config rest i (dispatch config env plan input w).1 more
        (dispatch-Offers config env plan input i w signed free)
