-- ===== src/Liquidation/Positions.antt =====
-- What `refresh_borrower_position` stores (bot/crates/strategies/liquidation/src/monitor.rs).
use skua.Prelude.{
  ℕ, ◌<◌, ◌≡◌, ◌≢◌, refl, subst, ap, ◌∙◌, Option, none, some, List, [], ◌∷◌, ◌++◌, ltb, inl, inr,
  arith, All, All-append, In, In-append_left, In-append_right, lookup, lookup-insert, Bool-cases,
  Option-cases, if◌then◌else◌, lt→ltb,
}
use mathlib.Core.Option.{some-injective}
use skua.Float.{Float}
use skua.Core.State.{BotState}
use skua.Core.Types.{BorrowerPosition, DebtAsset}
use skua.World.{Error, ok, err, rpc_failed}
use skua.Liquidation.Monitor.{
  UserReserve, RegisteredAsset, total_debt, Assets, debt_of, push_reserve, read_reserves, stored_hf,
  refresh_borrower_position,
}

err-ok : {A : Type 0} (e : Error) (a : A) → err e ≢ ok a
err-ok e a same = absurd (cc)

module _ {F : Type 0} where
  push_reserve-debts :
      (a : RegisteredAsset F) (r : UserReserve) (found : Assets F)
      → (push_reserve a r found).1
        ≡ (if ltb 0 (total_debt r) then found.1 ++ (debt_of a r ∷ []) else found.1)
  unfolding push_reserve
  push_reserve-debts a r (collateral, debts) = ground arith

  -- Each debt read is that of an asset of the list, and positive.
  read_reserves-All :
      (P : DebtAsset → Type 0) (query : ℕ → Option UserReserve) (assets : List (RegisteredAsset F))
      (found result : Assets F)
      → read_reserves query assets found ≡ some result
      → ((a : RegisteredAsset F) (r : UserReserve)
          → In a assets
          → query a.token ≡ some r
          → 0 < total_debt r
          → P (debt_of a r))
      → All P found.1
      → All P result.1
  unfolding read_reserves
  read_reserves-All P query [] found result e h all =
      subst (λ (t : Assets F). All P t.1) (some-injective _ _ e) all
  read_reserves-All P query (a ∷ rest) found result e h all = elim (Option-cases (query a.token)) [
    | inl failed ↦ absurd (ground arith)
    | inr (r, answer) ↦
        read_reserves-All P query rest (push_reserve a r found) result
          (rw (answer, read_reserves) at e) (λ b q m. h b q (inr m))
          (rw (push_reserve-debts a r found) (elim (Bool-cases (ltb 0 (total_debt r))) [
            | inl owes ↦ rw owes (
                All-append P found.1 (debt_of a r ∷ []) all
                  (h a r (inl refl) answer (ground arith), tt))
            | inr clear ↦ rw clear all
          ]))
  ]

  push_reserve-keep :
      (d : DebtAsset) (a : RegisteredAsset F) (r : UserReserve) (found : Assets F)
      → In d found.1
      → In d (push_reserve a r found).1
  push_reserve-keep d a r found m =
      rw (push_reserve-debts a r found) (elim (Bool-cases (ltb 0 (total_debt r))) [
        | inl owes ↦ rw owes (In-append_left d found.1 (debt_of a r ∷ []) m)
        | inr clear ↦ rw clear m
      ])

  read_reserves-keep :
      (d : DebtAsset) (query : ℕ → Option UserReserve) (assets : List (RegisteredAsset F))
      (found result : Assets F)
      → read_reserves query assets found ≡ some result
      → In d found.1
      → In d result.1
  unfolding read_reserves
  read_reserves-keep d query [] found result e m =
      subst (λ (t : Assets F). In d t.1) (some-injective _ _ e) m
  read_reserves-keep d query (a ∷ rest) found result e m = elim (Option-cases (query a.token)) [
    | inl failed ↦ absurd (ground arith)
    | inr (r, answer) ↦
        read_reserves-keep d query rest (push_reserve a r found) result
          (rw (answer, read_reserves) at e) (push_reserve-keep d a r found m)
  ]

  read_reserves-In :
      (query : ℕ → Option UserReserve) (assets : List (RegisteredAsset F)) (found result : Assets F)
      (a : RegisteredAsset F) (r : UserReserve)
      → read_reserves query assets found ≡ some result
      → In a assets
      → query a.token ≡ some r
      → 0 < total_debt r
      → In (debt_of a r) result.1
  unfolding read_reserves
  read_reserves-In query [] found result a r e m answer owes = absurd m
  read_reserves-In query (b ∷ rest) found result a r e (inl same) answer owes =
      let asked : query b.token ≡ some r =
        subst (λ (x : RegisteredAsset F). query x.token ≡ some r) same answer in
      read_reserves-keep (debt_of a r) query rest (push_reserve b r found) result
        (rw (asked, read_reserves) at e)
        (rw (push_reserve-debts b r found) (
          rw (lt→ltb 0 (total_debt r) owes) (
            In-append_right (debt_of a r) found.1 (debt_of b r ∷ [])
              (inl (ap (λ (x : RegisteredAsset F). debt_of x r) same)))))
  read_reserves-In query (b ∷ rest) found result a r e (inr m) answer owes =
      elim (Option-cases (query b.token)) [
        | inl failed ↦ absurd (ground arith)
        | inr (q, asked) ↦
            read_reserves-In query rest (push_reserve b q found) result a r
              (rw (asked, read_reserves) at e) m answer owes
      ]

  read_reserves-none :
      (query : ℕ → Option UserReserve) (assets : List (RegisteredAsset F)) (found : Assets F)
      (a : RegisteredAsset F)
      → In a assets
      → query a.token ≡ none
      → read_reserves query assets found ≡ none
  unfolding read_reserves
  read_reserves-none query [] found a m failed = absurd m
  read_reserves-none query (b ∷ rest) found a (inl same) failed =
      let asked = subst (λ (x : RegisteredAsset F). query x.token ≡ none) same failed in
      rw (asked, read_reserves) refl
  read_reserves-none query (b ∷ rest) found a (inr m) failed = elim (Option-cases (query b.token)) [
    | inl out ↦ rw (out, read_reserves) refl
    | inr (q, asked) ↦
        rw (asked, read_reserves)
          (read_reserves-none query rest (push_reserve b q found) a m failed)
  ]

module _ {F : Type 0} ⦃fl : Float F⦄ where
  -- A refresh in which the pool does not answer for some registered asset fails, and leaves the state
  -- as it was.
  pub refresh_borrower_position-failed :
      (query : ℕ → Option UserReserve) (borrower : ℕ) (assets : List (RegisteredAsset F))
      (s : BotState F) (a : RegisteredAsset F)
      → In a assets
      → query a.token ≡ none
      → refresh_borrower_position query borrower assets s ≡ (err rpc_failed, s)
  unfolding refresh_borrower_position
  refresh_borrower_position-failed query borrower assets s a m failed =
      rw (read_reserves-none query assets ([], []) a m failed, refresh_borrower_position) refl

  -- A refresh leaves the positions of all other borrowers alone, whether it fails or not.
  pub refresh_borrower_position-others :
      (query : ℕ → Option UserReserve) (borrower other : ℕ) (assets : List (RegisteredAsset F))
      (s : BotState F)
      → other ≢ borrower
      → lookup other (refresh_borrower_position query borrower assets s).1.hyperlend_positions
        ≡ lookup other s.hyperlend_positions
  unfolding refresh_borrower_position
  refresh_borrower_position-others query borrower other assets s away =
      elim (Option-cases (read_reserves query assets ([], []))) [
        | inl failed ↦ rw (failed, refresh_borrower_position) refl
        | inr ((collateral, debts), read) ↦
            rw (read, refresh_borrower_position)
              (lookup-insert borrower other _ s.hyperlend_positions ∙ ground arith)
      ]

  -- What a position says of the borrower's debts: each is a positive debt in a registered asset, and
  -- none is missing.
  pub record IsDebtsOf (query : ℕ → Option UserReserve) (assets : List (RegisteredAsset F))
      (debts : List DebtAsset) : Type 0 where
    pub sound :
        All
          (λ (d : DebtAsset).
            (a : RegisteredAsset F) × (r : UserReserve) × In a assets
            × (query a.token ≡ some r)
            × (0 < total_debt r)
            × (d ≡ debt_of a r))
          debts
    pub whole :
        (a : RegisteredAsset F) (r : UserReserve)
        → In a assets
        → query a.token ≡ some r
        → 0 < total_debt r
        → In (debt_of a r) debts

  pub refresh_borrower_position-stored :
      (query : ℕ → Option UserReserve) (borrower : ℕ) (assets : List (RegisteredAsset F))
      (s : BotState F)
      → let r = refresh_borrower_position query borrower assets s in
        r.0 ≡ ok tt
        → (pos : BorrowerPosition F) × (lookup borrower r.1.hyperlend_positions ≡ some pos)
          × IsDebtsOf query assets pos.debt_assets
          × (pos.computed_hf ≡ stored_hf pos.debt_assets)
          × (pos.last_block ≡ s.current_block)
  unfolding refresh_borrower_position
  refresh_borrower_position-stored query borrower assets s e =
      elim (Option-cases (read_reserves query assets ([], []))) [
        | inl failed ↦ absurd (err-ok _ tt (rw (failed, refresh_borrower_position) at e))
        | inr ((collateral, debts), read) ↦
            rw (read, refresh_borrower_position)
              (
                record {
                  address = borrower;
                  collateral_assets = collateral;
                  debt_assets = debts;
                  computed_hf = stored_hf debts;
                  last_block = s.current_block;
                },
                lookup-insert borrower borrower _ s.hyperlend_positions ∙ ground arith,
                record {
                  sound =
                      read_reserves-All _ query assets ([], []) (collateral, debts) read
                        (λ a r m answer owes. (a, r, m, answer, owes, refl)) tt;
                  whole =
                      λ a r. read_reserves-In query assets ([], []) (collateral, debts) a r read;
                },
                refl,
                refl,
              )
      ]
