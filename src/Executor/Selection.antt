-- ===== src/Executor/Selection.antt =====
-- Which wallet `WalletPool::acquire` picks (bot/crates/executor/src/wallet_pool.rs).
use skua.Prelude.{
  ℕ, suc, ◌+◌, ◌≤◌, ◌≡◌, refl, true, false, none, some, [], ◌∷◌, arith, if◌then◌else◌, get_elem?,
  subst, ap, ◌↔◌, ◌⊎◌, inl, inr, Bool-cases, All,
}
use skua.Executor.WalletPool.{WalletSlot, WalletPool, Best, better, acquire_from, index_of, acquire}

-- Slot i is free in the pool and was used at the time given.
abbrev pub IsFreeAt : WalletPool → ℕ → ℕ → Type 0
IsFreeAt p i t =
    (s : WalletSlot) × (get_elem? p i ≡ some s) × (s.in_use ≡ false) × (s.last_used_ms ≡ t)

-- No slot that is free was used before the time given.
abbrev pub IsOldest : ℕ → WalletPool → Type 0
IsOldest t = All (λ (s : WalletSlot). s.in_use ≡ false → t ≤ s.last_used_ms)

abbrev pub IsBusy : WalletSlot → Type 0
IsBusy s = s.in_use ≡ true

acquire_from-none :
    (i : ℕ) (best : Best) (p : WalletPool)
    → (acquire_from i best p).0 ≡ none
    → (best ≡ none) × All IsBusy p
unfolding acquire_from
acquire_from-none i best [] e = (e, tt)
acquire_from-none i best (s ∷ ss) e = ground (
  arith,
  acquire_from-none (i + 1) (if s.in_use then best else better best i s.last_used_ms) ss e,
)

-- Where the best slot comes from: it was the best before, or it stands in the list.
abbrev Origin : ℕ → Best → WalletPool → ℕ → ℕ → Type 0
Origin i best p j t = (best ≡ some (j, t)) ⊎ ((n : ℕ) × (j ≡ i + n) × IsFreeAt p n t)

abbrev Lower : Best → ℕ → Type 0
Lower none t = Unit {0}
Lower (some (k, b)) t = t ≤ b

Origin-busy :
    (i : ℕ) (best : Best) (s : WalletSlot) (ss : WalletPool) {j t : ℕ}
    → Origin (i + 1) best ss j t
    → Origin i best (s ∷ ss) j t
Origin-busy i best s ss (inl e) = inl e
Origin-busy i best s ss (inr (n, e, f)) = inr (suc n, omega arith, f)

better_cases :
    (best : Best) (i key : ℕ) {j t : ℕ}
    → better best i key ≡ some (j, t)
    → (best ≡ some (j, t)) ⊎ ((j ≡ i) × (key ≡ t))
unfolding better
better_cases none i key e = ground arith
better_cases (some (k, b)) i key e = ground arith

Origin-free :
    (i : ℕ) (best : Best) (s : WalletSlot) (ss : WalletPool) {j t : ℕ}
    → s.in_use ≡ false
    → Origin (i + 1) (better best i s.last_used_ms) ss j t
    → Origin i best (s ∷ ss) j t
Origin-free i best s ss free (inr (n, e, f)) = inr (suc n, omega arith, f)
Origin-free i best s ss free (inl e) = elim (better_cases best i s.last_used_ms e) [
  | inl old ↦ inl old
  | inr new ↦ inr (0, omega arith, (s, refl, free, new.1))
]

Lower-better : (best : Best) (i key t : ℕ) → Lower (better best i key) t → Lower best t × (t ≤ key)
unfolding better
Lower-better none i key t h = ground arith
Lower-better (some (k, b)) i key t h = ground arith

acquire_from-some :
    (i : ℕ) (best : Best) (p : WalletPool) {j t : ℕ}
    → (acquire_from i best p).0 ≡ some (j, t)
    → Origin i best p j t × Lower best t × IsOldest t p
unfolding acquire_from
acquire_from-some i none [] e = absurd (cc)
acquire_from-some i (some (k, b)) [] e = (inl e, ground arith, tt)
acquire_from-some i best (s ∷ ss) e = elim (Bool-cases s.in_use) [
  | inl busy ↦
      let (from, low, old) = acquire_from-some (i + 1) best ss (rw (busy, acquire_from) at e) in
      (Origin-busy i best s ss from, low, (λ free. absurd (cc), old))
  | inr free ↦
      let (from, low, old) =
        acquire_from-some (i + 1) (better best i s.last_used_ms) ss
          (rw (free, acquire_from) at e) in
      let (lower, key) = Lower-better best i s.last_used_ms _ low in
      (Origin-free i best s ss free from, lower, (λ _. key, old))
]

-- The origin of a slot that was picked with no best slot before it.
picked : (p : WalletPool) {i t : ℕ} → Origin 0 none p i t → IsFreeAt p i t
picked p (inl e) = absurd (cc)
picked p {i} {t} (inr (n, e, f)) =
    let same : n ≡ i = omega arith in subst (λ k. IsFreeAt p k t) same f

index_of-some : (b : Best) {i : ℕ} → index_of b ≡ some i → (t : ℕ) × (b ≡ some (i, t))
index_of-some none e = absurd (cc)
index_of-some (some (j, t)) e = (t, ground arith)

-- `acquire` picks a free wallet that was least recently used among the free ones.
pub acquire_least_recently_used :
    (p : WalletPool) (i : ℕ) → (acquire p).0 ≡ some i → (t : ℕ) × IsFreeAt p i t × IsOldest t p
unfolding acquire
acquire_least_recently_used p i e =
    let (t, best) = index_of-some (acquire_from 0 none p).0 e in
    let (from, _, old) = acquire_from-some 0 none p best in (t, picked p from, old)

pub acquire_from_full :
    (i : ℕ) (best : Best) (p : WalletPool) → All IsBusy p → (acquire_from i best p).0 ≡ best
unfolding acquire_from
acquire_from_full i best [] h = refl
acquire_from_full i best (s ∷ ss) (h, hs) = rw h (acquire_from_full (i + 1) best ss hs)

index_of-none : (b : Best) → index_of b ≡ none → b ≡ none
index_of-none none e = refl
index_of-none (some (j, t)) e = absurd (cc)

-- `acquire` refuses exactly when every wallet is in use.
pub acquire-none_iff : (p : WalletPool) → ((acquire p).0 ≡ none) ↔ All IsBusy p
unfolding acquire
acquire-none_iff p = (
  λ e. (acquire_from-none 0 none p (index_of-none _ e)).1,
  λ h. ap index_of (acquire_from_full 0 none p h),
)
