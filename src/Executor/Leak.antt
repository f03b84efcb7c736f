-- ===== src/Executor/Leak.antt =====
-- What becomes of the wallets that `WalletPool::acquire` claims and does not return
-- (bot/crates/executor/src/wallet_pool.rs): only the one returned is ever released.
use skua.Prelude.{
  ℕ, zero, suc, ◌+◌, ◌≡◌, refl, false, Option, none, some, [], ◌∷◌, arith, if◌then◌else◌, inl, inr,
  Option-cases, ◌<◌, ◌∙◌, List, ap, All, length,
}
use mathlib.Core.Option.{some-injective}
use skua.Executor.WalletPool.{WalletPool, Best, better, acquire_from, acquire, release}
use skua.Executor.Selection.{acquire_from_full, IsBusy, acquire-none_iff}

acquire_from-All : (i : ℕ) (best : Best) (p : WalletPool) → All IsBusy (acquire_from i best p).1
unfolding acquire_from
acquire_from-All i best [] = tt
acquire_from-All i best (s ∷ ss) = (
  ground arith,
  acquire_from-All (i + 1) (if s.in_use then best else better best i s.last_used_ms) ss,
)

-- One call of `acquire` claims every free wallet of the pool, and not only the one that it returns.
pub acquire_claims-All : (p : WalletPool) → All IsBusy (acquire p).1
unfolding acquire
acquire_claims-All p = acquire_from-All 0 none p

-- So the next call finds none, however many wallets were free.
pub acquire_twice : (p : WalletPool) → (acquire (acquire p).1).0 ≡ none
acquire_twice p = (acquire-none_iff (acquire p).1).1 (acquire_claims-All p)

pub release-some :
    (now i : ℕ) (p : WalletPool) → i < length p → (q : WalletPool) × (release now i p ≡ some q)
unfolding release
release-some now i [] h = elim h [ ]
release-some now zero (s ∷ ss) h = (record s { last_used_ms = now; in_use = false } ∷ ss, refl)
release-some now (suc i) (s ∷ ss) h =
    let (q, e) = release-some now i ss (omega arith) in (s ∷ q, rw e)

-- What a pool offers when all its wallets but the released one are claimed.
release_only :
    (now k i : ℕ) (p q : WalletPool)
    → All IsBusy p
    → release now i p ≡ some q
    → (acquire_from k none q).0 ≡ some (k + i, now)
unfolding acquire_from release
release_only now k i [] q b e = absurd (cc)
release_only now k zero (s ∷ ss) q (b, bs) e =
    rw (← some-injective _ _ e) (acquire_from_full (k + 1) (some (k, now)) ss bs ∙ ground arith)
release_only now k (suc i) (s ∷ ss) q (b, bs) e = elim (Option-cases (release now i ss)) [
  | inl bad ↦ absurd (ground arith)
  | inr (r, good) ↦
      let same : s ∷ r ≡ q = some-injective _ _ (rw (good, release) at e) in
      rw (← same, b) (release_only now (k + 1) i ss r bs good ∙ ground arith)
]

-- Rounds of a client that releases wallet i, at the times given, and acquires again.
pub serve : ℕ → List ℕ → WalletPool → List (Option ℕ)
serve i [] p = []
serve i (t ∷ ts) p = elim (release t i p) [
  | none ↦ []
  | some q ↦ (acquire q).0 ∷ serve i ts (acquire q).1
]

length-acquire_from :
    (i : ℕ) (best : Best) (p : WalletPool) → length (acquire_from i best p).1 ≡ length p
unfolding acquire_from
length-acquire_from i best [] = refl
length-acquire_from i best (s ∷ ss) =
    ap suc
      (length-acquire_from (i + 1) (if s.in_use then best else better best i s.last_used_ms) ss)

pub length-acquire : (p : WalletPool) → length (acquire p).1 ≡ length p
unfolding acquire
length-acquire p = length-acquire_from 0 none p

pub length-release :
    (now i : ℕ) (p : WalletPool) {q : WalletPool} → release now i p ≡ some q → length q ≡ length p
unfolding release
length-release now i [] e = absurd (cc)
length-release now zero (s ∷ ss) e = ground arith
length-release now (suc i) (s ∷ ss) {q} e = elim (Option-cases (release now i ss)) [
  | inl bad ↦ absurd (ground arith)
  | inr (r, good) ↦ ground (arith, length-release now i ss good)
]

pub acquire-release :
    (now i : ℕ) (p q : WalletPool)
    → All IsBusy p
    → release now i p ≡ some q
    → (acquire q).0 ≡ some i
unfolding acquire
acquire-release now i p q b e = ground (arith, release_only now 0 i p q b e)
