-- ===== src/Dispatch/Stuck.antt =====
-- A transaction that cannot be signed takes the wallets with it
-- (bot/crates/strategies/*/src/executor.rs: the error of `build_raw_tx` returns before any release).
use skua.Prelude.{ℕ, zero, suc, ◌≡◌, ap, subst, some, [], ◌∷◌, inl, inr, arith, All, Option-cases}
use mathlib.Core.Option.{some-injective}
use skua.Float.{Float}
use skua.Executor.WalletPool
use skua.Executor.WalletPool.{WalletPool}
use skua.Executor.Selection.{IsBusy}
use skua.World
use skua.World.{World}

pub next_nonce-All :
    (i : ℕ) (p : WalletPool) (n : ℕ) (q : WalletPool)
    → WalletPool.next_nonce i p ≡ some (n, q)
    → All IsBusy p
    → All IsBusy q
unfolding WalletPool.next_nonce
next_nonce-All i [] n q e b = absurd (cc)
next_nonce-All zero (s ∷ ss) n q e (b, bs) =
    subst (All IsBusy) (ap (λ r. r.1) (some-injective _ _ e)) (b, bs)
next_nonce-All (suc i) (s ∷ ss) n q e (b, bs) = elim (Option-cases (WalletPool.next_nonce i ss)) [
  | inl gone ↦ absurd (ground arith)
  | inr ((m, r), next) ↦
      let same : s ∷ r ≡ q =
        ap (λ t. t.1) (some-injective _ _ (rw (next, WalletPool.next_nonce) at e)) in
      subst (All IsBusy) same (b, next_nonce-All i ss m r next bs)
]
