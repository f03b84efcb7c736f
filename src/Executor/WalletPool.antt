-- ===== src/Executor/WalletPool.antt =====
-- `WalletPool` of bot/crates/executor/src/wallet_pool.rs. A slot leaves out its signer and its
-- signing wallet, which only the external signing code reads. An index out of range is a panic, `none`.
use skua.Prelude.{
  ℕ, zero, suc, ◌+◌, ◌%◌, ◌^◌, Bool, true, false, Option, none, some, List, [], ◌∷◌, ltb, leb, ◌==◌,
  ◌&&◌, if◌then◌else◌, length,
}

pub record WalletSlot : Type 0 where
  pub address : ℕ
  pub nonce : ℕ
  pub last_used_ms : ℕ
  pub in_use : Bool

abbrev pub WalletPool : Type 0
WalletPool = List WalletSlot

unfoldable pub new_slot : ℕ → ℕ → WalletSlot
new_slot address initial_nonce = record {
  address = address;
  nonce = initial_nonce;
  last_used_ms = 0;
  in_use = false;
}

unfoldable pub zip_slots : List ℕ → List ℕ → WalletPool
unfolding new_slot
zip_slots [] ns = []
zip_slots (s ∷ ss) [] = []
zip_slots (s ∷ ss) (n ∷ ns) = new_slot s n ∷ zip_slots ss ns

-- `none` is a failed assertion: as many nonces as signers, and at least five.
unfoldable pub new_pool : List ℕ → List ℕ → Option WalletPool
unfolding zip_slots
new_pool signers nonces =
    if (length signers == length nonces) && leb 5 (length signers)
    then some (zip_slots signers nonces)
    else none

-- The index and the key of the best slot so far; `min_by_key` keeps the first of equal keys.
abbrev pub Best : Type 0
Best = Option (ℕ × ℕ)

unfoldable pub better : Best → ℕ → ℕ → Best
better none i key = some (i, key)
better (some (j, best)) i key = if ltb key best then some (i, key) else some (j, best)

-- The iterator chain of `acquire` from slot i on. The filter claims each free slot that it passes,
-- by its `compare_exchange`.
unfoldable pub acquire_from : ℕ → Best → WalletPool → Best × WalletPool
unfolding better
acquire_from i best [] = (best, [])
acquire_from i best (s ∷ ss) =
    let rest = acquire_from (i + 1) (if s.in_use then best else better best i s.last_used_ms) ss in
    (rest.0, (if s.in_use then s else record s { in_use = true }) ∷ rest.1)

abbrev pub index_of : Best → Option ℕ
index_of none = none
index_of (some (i, key)) = some i

unfoldable pub acquire : WalletPool → Option ℕ × WalletPool
unfolding acquire_from
acquire p = let found = acquire_from 0 none p in (index_of found.0, found.1)

unfoldable pub next_nonce : ℕ → WalletPool → Option (ℕ × WalletPool)
next_nonce i [] = none
next_nonce zero (s ∷ ss) = some (s.nonce, record s { nonce = (s.nonce + 1) % 2 ^ 64 } ∷ ss)
next_nonce (suc i) (s ∷ ss) = elim (next_nonce i ss) [ none ↦ none | some r ↦ some (r.0, s ∷ r.1) ]

unfoldable pub release : ℕ → ℕ → WalletPool → Option WalletPool
release now_ms i [] = none
release now_ms zero (s ∷ ss) = some (record s { last_used_ms = now_ms; in_use = false } ∷ ss)
release now_ms (suc i) (s ∷ ss) = elim (release now_ms i ss) [ none ↦ none | some r ↦ some (s ∷ r) ]

-- What the chain answers to the nonce query is an argument; `none` is an error, which changes nothing.
unfoldable pub reset_nonce : ℕ → Option ℕ → WalletPool → Option WalletPool
reset_nonce i on_chain [] = none
reset_nonce zero none (s ∷ ss) = some (s ∷ ss)
reset_nonce zero (some n) (s ∷ ss) = some (record s { nonce = n } ∷ ss)
reset_nonce (suc i) on_chain (s ∷ ss) = elim (reset_nonce i on_chain ss) [
  | none ↦ none
  | some r ↦ some (s ∷ r)
]

-- One query for each signer, in order; the first error ends it.
unfoldable pub fetch_initial_nonces : (ℕ → Option ℕ) → List ℕ → Option (List ℕ)
fetch_initial_nonces query [] = some []
fetch_initial_nonces query (s ∷ ss) = elim (query s) [
  | none ↦ none
  | some n ↦ elim (fetch_initial_nonces query ss) [ none ↦ none | some ns ↦ some (n ∷ ns) ]
]
