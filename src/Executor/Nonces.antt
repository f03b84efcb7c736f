-- ===== src/Executor/Nonces.antt =====
-- The nonces that `WalletPool::next_nonce` hands out (bot/crates/executor/src/wallet_pool.rs).
use skua.Prelude.{
  ℕ, zero, suc, ◌+◌, ◌%◌, ◌^◌, ◌<◌, ◌≡◌, ◌≢◌, refl, ap, Option, none, some, List, [], ◌∷◌, arith,
  ◌∙◌,
}
use skua.Executor.WalletPool.{WalletSlot, WalletPool, next_nonce}

-- The counter of wallet i; `none` if there is no such wallet.
unfoldable pub nonce_of : ℕ → WalletPool → Option ℕ
nonce_of i [] = none
nonce_of zero (s ∷ ss) = some s.nonce
nonce_of (suc i) (s ∷ ss) = nonce_of i ss

-- n calls for wallet i: the nonces in order, and the pool after them.
pub take_nonces : ℕ → ℕ → WalletPool → Option (List ℕ × WalletPool)
take_nonces zero i p = some ([], p)
take_nonces (suc n) i p = elim (next_nonce i p) [
  | none ↦ none
  | some r ↦ elim (take_nonces n i r.1) [ none ↦ none | some rest ↦ some (r.0 ∷ rest.0, rest.1) ]
]

nonce_of-cons :
    (s : WalletSlot) (i : ℕ) (ss q : WalletPool)
    → ((j : ℕ) → j ≢ i → nonce_of j q ≡ nonce_of j ss)
    → (j : ℕ) → j ≢ suc i
    → nonce_of j (s ∷ q) ≡ nonce_of j (s ∷ ss)
unfolding nonce_of
nonce_of-cons s i ss q h zero ne = refl
nonce_of-cons s i ss q h (suc j) ne = h j (λ e. ne (ap suc e))

-- A call returns the counter, moves it on by one, and leaves every other wallet's counter alone.
next_nonce_lem :
    (i : ℕ) (p : WalletPool) {n : ℕ}
    → nonce_of i p ≡ some n
    → (q : WalletPool) × (next_nonce i p ≡ some (n, q))
      × (nonce_of i q ≡ some ((n + 1) % 2 ^ 64))
      × ((j : ℕ) → j ≢ i → nonce_of j q ≡ nonce_of j p)
unfolding next_nonce nonce_of
next_nonce_lem i [] e = absurd (cc)
next_nonce_lem zero (s ∷ ss) e =
    (record s { nonce = (s.nonce + 1) % 2 ^ 64 } ∷ ss, ground arith, ground arith, others)
  where
    others :
        (j : ℕ)
        → j ≢ 0
        → nonce_of j (record s { nonce = (s.nonce + 1) % 2 ^ 64 } ∷ ss) ≡ nonce_of j (s ∷ ss)
    others zero h = absurd (h refl)
    others (suc j) h = refl
next_nonce_lem (suc i) (s ∷ ss) e =
    let (q, step, new, others) = next_nonce_lem i ss e in
    (s ∷ q, rw step, new, nonce_of-cons s i ss q others)

take_nonces-suc :
    (k i : ℕ) (p q r : WalletPool) {n : ℕ} {l : List ℕ}
    → next_nonce i p ≡ some (n, q)
    → take_nonces k i q ≡ some (l, r)
    → take_nonces (suc k) i p ≡ some (n ∷ l, r)
unfolding take_nonces
take_nonces-suc k i p q r e h = ground arith

-- The nonces from n on, as the chain wants them: one for each transaction, with no gap.
pub consecutive : ℕ → ℕ → List ℕ
consecutive zero n = []
consecutive (suc k) n = n ∷ consecutive k (n + 1)

-- While the counter stays below 2^64, k calls for a wallet give the k consecutive nonces from its
-- counter on, and leave every other wallet's counter alone.
pub take_nonces-consecutive :
    (k i : ℕ) (p : WalletPool) {n : ℕ}
    → nonce_of i p ≡ some n
    → n + k < 2 ^ 64
    → (q : WalletPool) × (take_nonces k i p ≡ some (consecutive k n, q))
      × (nonce_of i q ≡ some (n + k))
      × ((j : ℕ) → j ≢ i → nonce_of j q ≡ nonce_of j p)
unfolding take_nonces consecutive
take_nonces-consecutive zero i p {n} e h = (p, refl, (e ∙ ap some (omega arith)), λ j _. refl)
take_nonces-consecutive (suc k) i p {n} e h =
    let (q, step, new, others) = next_nonce_lem i p e in
    let (r, steps, last, rest) =
      take_nonces-consecutive k i q {n = n + 1} (new ∙ ap some (omega arith)) (omega arith) in
    (
      r,
      take_nonces-suc k i p q r step steps,
      (last ∙ ap some (omega arith)),
      λ j ne. rest j ne ∙ others j ne,
    )
