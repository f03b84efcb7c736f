-- ===== src/Main/Ready.antt =====
-- What holds when the program of bot/src/main.rs has started.
use Prim.Native.String.{String}
use skua.Prelude.{
  ℕ, suc, ◌≤◌, ◌≡◌, ◌≢◌, refl, ap, subst, inl, inr, false, List, [], ◌∷◌, All, length, Option, none,
  some, leb, if◌then◌else◌, if_keep, Option-cases, arith,
}
use skua.Core.Environment.{
  Environment, Result, loaded, failed, StartError, unavailable, panicked, missing, malformed, ◌>>=◌,
  bind_lem, loaded-injective,
}
use skua.Executor.WalletPool.{
  WalletPool, WalletSlot, new_slot, zip_slots, new_pool, fetch_initial_nonces,
}
use skua.Main.Startup.{bot_key_vars, trim_0x, load_signers, load_signers_from_env}
use skua.Main.Start.{open_wallets}

-- How many of the variables are required.
abbrev needed : List (ℕ × String) → ℕ
needed [] = 0
needed ((i, var) ∷ rest) = let n = needed rest in if leb i 5 then suc n else 0

-- A value that is present, where its absence is a failure.
present :
    {A B : Type 0} (o : Option A) (x : StartError) (f : A → Result B) {b : B}
    → elim o [ none ↦ failed x | some a ↦ f a ] ≡ loaded b
    → (a : A) × (o ≡ some a) × (f a ≡ loaded b)
present none x f e = absurd (cc e)
present (some a) x f e = (a, refl, e)

-- At least as many signers as variables are required, and at most as many as there are.
load_signers_bounds :
    (env : Environment) (signer : String → Option ℕ) (vars : List (ℕ × String)) {signers : List ℕ}
    → load_signers env signer vars ≡ loaded signers
    → (needed vars ≤ length signers) × (length signers ≤ length vars)
unfolding load_signers
load_signers_bounds env signer [] e = ground arith
load_signers_bounds env signer ((i, var) ∷ rest) {signers} e = elim (Option-cases (env var)) [
  | inl unset ↦ ground arith
  | inr (key, found) ↦
      let (s, _, past) = present (signer (trim_0x key)) (malformed var) _ (key_set key found) in
      let (ss, read, same) = bind_lem (load_signers env signer rest) _ past in
      let (low, high) = load_signers_bounds env signer rest read in
      subst (λ xs. (needed ((i, var) ∷ rest) ≤ length xs) × (length xs ≤ suc (length rest)))
        (loaded-injective _ _ same) (ground arith)
]
  where
    key_set :
        (key : String)
        → env var ≡ some key
        → elim (signer (trim_0x key)) [
          | none ↦ failed (malformed var)
          | some s ↦ load_signers env signer rest >>= (λ ss. loaded (s ∷ ss))
        ]
          ≡ loaded signers
    key_set key found = ground arith

fetch_initial_nonces-length :
    (query : ℕ → Option ℕ) (signers : List ℕ) {nonces : List ℕ}
    → fetch_initial_nonces query signers ≡ some nonces
    → length signers ≡ length nonces
unfolding fetch_initial_nonces
fetch_initial_nonces-length query [] e = ground arith
fetch_initial_nonces-length query (s ∷ ss) {nonces} e =
    elim (Option-cases (fetch_initial_nonces query ss)) [
      | inl lost ↦ ground arith
      | inr (ns, read) ↦ ground (arith, fetch_initial_nonces-length query ss read)
    ]

abbrev AllFree : WalletPool → Type 0
AllFree = All (λ (s : WalletSlot). s.in_use ≡ false)

zip_slots-AllFree : (signers nonces : List ℕ) → AllFree (zip_slots signers nonces)
unfolding zip_slots new_slot
zip_slots-AllFree [] ns = tt
zip_slots-AllFree (s ∷ ss) [] = tt
zip_slots-AllFree (s ∷ ss) (n ∷ ns) = (refl, zip_slots-AllFree ss ns)

length-zip_slots :
    (signers nonces : List ℕ)
    → length signers ≡ length nonces
    → length (zip_slots signers nonces) ≡ length signers
unfolding zip_slots
length-zip_slots [] ns h = refl
length-zip_slots (s ∷ ss) [] h = omega (arith, h)
length-zip_slots (s ∷ ss) (n ∷ ns) h = ap suc (length-zip_slots ss ns (omega (arith, h)))

pub record IsStaffed (p : WalletPool) : Type 0 where
  pub at_least : 5 ≤ length p
  pub at_most : length p ≤ 10
  pub all_free : AllFree p

-- The wallets are staffed, or what failed is no assertion.
abbrev pub OpensWell : Result WalletPool → Type 0
OpensWell (loaded p) = IsStaffed p
OpensWell (failed e) = e ≢ panicked

-- The assertions of the pool hold of the signers and the nonces that the start-up hands to it.
new_pool_total :
    (signers nonces : List ℕ)
    → length signers ≡ length nonces
    → 5 ≤ length signers
    → new_pool signers nonces ≡ some (zip_slots signers nonces)
unfolding new_pool
new_pool_total signers nonces same enough = ground arith

abbrev NoPanic : {A : Type 0} → Result A → Type 0
NoPanic (loaded a) = Unit
NoPanic (failed e) = e ≢ panicked

NoPanic-bind :
    {A B : Type 0} (m : Result A) (f : A → B) → NoPanic m → NoPanic (m >>= (λ a. loaded (f a)))
NoPanic-bind (loaded a) f n = tt
NoPanic-bind (failed e) f n = n

load_signers-NoPanic :
    (env : Environment) (signer : String → Option ℕ) (vars : List (ℕ × String))
    → NoPanic (load_signers env signer vars)
unfolding load_signers
load_signers-NoPanic env signer [] = tt
load_signers-NoPanic env signer ((i, var) ∷ rest) = elim (Option-cases (env var)) [
  | inl unset ↦
      rw (unset, load_signers)
        (if_keep NoPanic (leb i 5) (failed (missing var)) (loaded []) (λ e. cc e) tt)
  | inr (key, found) ↦ elim (Option-cases (signer (trim_0x key))) [
    | inl bad ↦ rw (found, bad, load_signers) (λ e. cc e)
    | inr (s, good) ↦
        rw (found, good, load_signers)
          (NoPanic-bind (load_signers env signer rest) (λ ss. s ∷ ss)
            (load_signers-NoPanic env signer rest))
  ]
]

-- Opening the wallets ends with five to ten of them, none in use, or with a missing key, a malformed
-- key or a nonce that was not answered: never in a failed assertion of the pool.
pub open_wallets-OpensWell :
    (env : Environment) (signer : String → Option ℕ) (transaction_count : ℕ → Option ℕ)
    → OpensWell (open_wallets env signer transaction_count)
unfolding open_wallets load_signers_from_env
open_wallets-OpensWell env signer transaction_count =
    by_signers (load_signers env signer bot_key_vars) refl
  where
    by_nonces :
        (signers : List ℕ)
        → load_signers env signer bot_key_vars ≡ loaded signers
        → (n : Option (List ℕ)) → fetch_initial_nonces transaction_count signers ≡ n
        → OpensWell (elim n [
          | none ↦ failed unavailable
          | some nonces ↦ elim (new_pool signers nonces) [
            | none ↦ failed panicked
            | some pool ↦ loaded pool
          ]
        ])
    by_nonces signers read none lost = λ same. cc same
    by_nonces signers read (some nonces) found =
        let (low, high) = load_signers_bounds env signer bot_key_vars read in
        let same = fetch_initial_nonces-length transaction_count signers found in
        rw (new_pool_total signers nonces same low) (record {
          at_least = rw (length-zip_slots signers nonces same) low;
          at_most = rw (length-zip_slots signers nonces same) high;
          all_free = zip_slots-AllFree signers nonces;
        })

    by_signers :
        (r : Result (List ℕ))
        → load_signers env signer bot_key_vars ≡ r
        → OpensWell (
            r >>= (λ signers. elim (fetch_initial_nonces transaction_count signers) [
              | none ↦ failed unavailable
              | some nonces ↦ elim (new_pool signers nonces) [
                | none ↦ failed panicked
                | some pool ↦ loaded pool
              ]
            ]))
    by_signers (failed e) read = subst NoPanic read (load_signers-NoPanic env signer bot_key_vars)
    by_signers (loaded signers) read =
        by_nonces signers read (fetch_initial_nonces transaction_count signers) refl
