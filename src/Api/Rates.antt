-- ===== src/Api/Rates.antt =====
-- The landing rate of bot/crates/api/src/metrics.rs: what a sequence of calls leaves in the registry.
use Prim.Native.String.{String}
use skua.Prelude.{
  ◌≡◌, ◌≢◌, refl, sym, ap, subst, ◌∙◌, false, List, [], ◌∷◌, inl, inr, Bool-cases, if◌then◌else◌,
  if_keep, same_text, same_text_iff, Bool, true,
}
use skua.Float.{Float, nought, one}
use skua.Api.Metrics.{
  Vector, txs_submitted, txs_landed, profit_usd, gas_hype_total, landing_rate, Histogram, Series,
  Registry, IsRegistry, Record, opp_detected, sim_passed, tx_submitted, tx_landed, tx_reverted,
  sizing, sim_divergence, block_latency, signal_latency, series, inc_positive, record_opp_detected,
  record_sim_passed, record_tx_submitted, record_tx_landed, record_tx_reverted, record_sizing,
  record_sim_divergence, record_signal_latency, record_block_latency, perform,
}

-- The vectors that the landing rate rests on, and itself.
abbrev is_counted : Vector → Bool
is_counted txs_submitted = true
is_counted txs_landed = true
is_counted landing_rate = true
is_counted _ = false

-- What is counted of a strategy.
pub record Counts (F : Type 0) : Type 0 where
  pub submitted : F
  pub landed : F
  pub rate : F

module _ {F R : Type 0} ⦃fl : Float F⦄ (registry : Registry F R) (laws : IsRegistry registry)
    (strategy : String) where
  open fl use {◌⊕◌, ◌⊘◌, lt}
  open registry use {inc_by, set, get}

  infixl 65 ◌⊕◌
  infixl 70 ◌⊘◌
  -- A landing, with the rate computed anew.
  abbrev pub with_landing : Counts F → Counts F
  with_landing c =
      let landed = c.landed ⊕ one in
      record c {
        landed = landed;
        rate = if lt nought c.submitted then landed ⊘ c.submitted else c.rate;
      }

  abbrev pub counted : Record F → Counts F → Counts F
  counted (tx_submitted t) c =
      if same_text t strategy then record c { submitted = c.submitted ⊕ one } else c
  counted (tx_landed t profit gas) c = if same_text t strategy then with_landing c else c
  counted _ c = c

  abbrev pub counted_all : List (Record F) → Counts F → Counts F
  counted_all [] c = c
  counted_all (call ∷ rest) c = counted_all rest (counted call c)

  abbrev pub perform_all : List (Record F) → R → R
  perform_all [] r = r
  perform_all (call ∷ rest) r = perform_all rest (perform registry call r)

  abbrev at : Vector → Series
  at v = (v, strategy ∷ [])

  -- What the registry holds of the strategy.
  abbrev pub counts_of : R → Counts F
  counts_of r = record {
    submitted = get (at txs_submitted) r;
    landed = get (at txs_landed) r;
    rate = get (at landing_rate) r;
  }

  -- An increment of a series that is none of the three.
  IsOther : Series → Type 0
  IsOther s = (s ≢ at txs_submitted) × (s ≢ at txs_landed) × (s ≢ at landing_rate)

  Counts_eq :
      (a b : Counts F) → a.submitted ≡ b.submitted → a.landed ≡ b.landed → a.rate ≡ b.rate → a ≡ b
  Counts_eq a b p q r = λ i. record { submitted = p i; landed = q i; rate = r i }

  inc_by-other : (s : Series) (x : F) (r : R) → IsOther s → counts_of (inc_by s x r) ≡ counts_of r
  unfolding IsOther
  inc_by-other s x r (a, b, c) =
      Counts_eq _ _ (laws.get-inc_by_other s _ x r a) (laws.get-inc_by_other s _ x r b)
        (laws.get-inc_by_other s _ x r c)

  inc_positive-other :
      (s : Series) (x : F) (r : R)
      → IsOther s
      → counts_of (inc_positive registry s x r) ≡ counts_of r
  inc_positive-other s x r o =
      if_keep (λ t. counts_of t ≡ counts_of r) (lt nought x) _ _ (inc_by-other s x r o) refl

  -- A vector that is none of the three, and a label that is not the strategy.
  -- A series of a vector that is none of the three.
  IsOther-vector : (v : Vector) (labels : List String) → is_counted v ≡ false → IsOther (v, labels)
  unfolding IsOther
  IsOther-vector v labels other =
      let differs : (w : Vector) → is_counted w ≡ true → (v, labels) ≢ at w =
        λ w one_of e. cc (ap (λ (t : Series). is_counted t.0) e, one_of, other) in
      (differs txs_submitted refl, differs txs_landed refl, differs landing_rate refl)

  -- The series of one strategy differ by their vectors.
  vectors_differ : (v w : Vector) → (v ≢ w) → at v ≢ at w
  vectors_differ v w away e = away (ap (λ (t : Series). t.0) e)

  label_of : String → List String → String
  label_of d [] = d
  label_of d (x ∷ xs) = x

  IsOther-label : (v : Vector) (t : String) → t ≢ strategy → IsOther (series registry v t)
  unfolding IsOther label_of
  IsOther-label v t away =
      let differs : (w : Vector) → series registry v t ≢ at w =
        λ w e. away (ap (λ (x : Series). label_of t x.1) e) in
      (differs txs_submitted, differs txs_landed, differs landing_rate)

  submitted_here :
      (r : R)
      → counts_of (inc_by (at txs_submitted) one r)
        ≡ record (counts_of r) { submitted = get (at txs_submitted) r ⊕ one }
  submitted_here r =
      Counts_eq _ _ (laws.get-inc_by (at txs_submitted) one r)
        (laws.get-inc_by_other (at txs_submitted) _ one r (vectors_differ _ _ (λ e. cc e)))
        (laws.get-inc_by_other (at txs_submitted) _ one r (vectors_differ _ _ (λ e. cc e)))

  landed_here :
      (r : R)
      → counts_of (inc_by (at txs_landed) one r)
        ≡ record (counts_of r) { landed = get (at txs_landed) r ⊕ one }
  landed_here r =
      Counts_eq _ _ (laws.get-inc_by_other (at txs_landed) _ one r (vectors_differ _ _ (λ e. cc e)))
        (laws.get-inc_by (at txs_landed) one r)
        (laws.get-inc_by_other (at txs_landed) _ one r (vectors_differ _ _ (λ e. cc e)))

  abbrev rated : Counts F → Counts F
  rated c = record c { rate = if lt nought c.submitted then c.landed ⊘ c.submitted else c.rate }

  abbrev set_rate : String → R → R
  set_rate t r =
      let landed = get (series registry txs_landed t) r in
      let submitted = get (series registry txs_submitted t) r in
      if lt nought submitted then set (series registry landing_rate t) (landed ⊘ submitted) r else r

  set_rate_here : (r : R) → counts_of (set_rate strategy r) ≡ rated (counts_of r)
  set_rate_here r = elim (Bool-cases (lt nought (get (at txs_submitted) r))) [
    | inl some ↦ rw some (
        Counts_eq _ _ (laws.get-set_other (at landing_rate) _ _ r (vectors_differ _ _ (λ e. cc e)))
          (laws.get-set_other (at landing_rate) _ _ r (vectors_differ _ _ (λ e. cc e)))
          (laws.get-set (at landing_rate) _ r))
    | inr none_yet ↦ rw none_yet refl
  ]

  set_rate_other : (t : String) (r : R) → t ≢ strategy → counts_of (set_rate t r) ≡ counts_of r
  unfolding IsOther
  set_rate_other t r away =
      let (a, b, c) = IsOther-label landing_rate t away in
      if_keep (λ u. counts_of u ≡ counts_of r) (lt nought (get (series registry txs_submitted t) r))
        _ _
        (Counts_eq _ _ (laws.get-set_other _ _ _ r a) (laws.get-set_other _ _ _ r b)
          (laws.get-set_other _ _ _ r c))
        refl

  -- The profit and the gas touch none of the three.
  paid_other :
      (t : String) (profit gas : F) (r : R)
      → counts_of (
          inc_positive registry
            (series registry gas_hype_total t)
            gas
            (inc_positive registry (series registry profit_usd t) profit r))
        ≡ counts_of r
  paid_other t profit gas r =
      inc_positive-other _ gas _ (IsOther-vector _ _ refl)
      ∙ inc_positive-other _ profit r (IsOther-vector _ _ refl)

  abbrev observed :
      (h : Histogram) (labels : List String) (x : F) (r : R)
      → counts_of (registry.observe h labels x r) ≡ counts_of r
  observed h labels x r =
      Counts_eq _ _ (laws.get-observe _ h labels x r) (laws.get-observe _ h labels x r)
        (laws.get-observe _ h labels x r)

  differs : (t : String) → same_text t strategy ≡ false → t ≢ strategy
  differs t another e = absurd (cc ((same_text_iff t strategy).1 e, another))

  submitted-counts :
      (t : String) (r : R)
      → counts_of (record_tx_submitted registry t r) ≡ counted (tx_submitted t) (counts_of r)
  unfolding record_tx_submitted
  submitted-counts t r = elim (Bool-cases (same_text t strategy)) [
    | inl same ↦ rw same (
        subst
          (λ u.
            counts_of (record_tx_submitted registry u r)
            ≡ record (counts_of r) { submitted = get (at txs_submitted) r ⊕ one })
          (sym ((same_text_iff t strategy).0 same)) (submitted_here r))
    | inr another ↦
        rw another (inc_by-other _ one r (IsOther-label txs_submitted t (differs t another)))
  ]

  landed-counts :
      (t : String) (profit gas : F) (r : R)
      → counts_of (record_tx_landed registry t profit gas r)
        ≡ counted (tx_landed t profit gas) (counts_of r)
  unfolding record_tx_landed
  landed-counts t profit gas r = elim (Bool-cases (same_text t strategy)) [
    | inl same ↦ rw same (
        subst
          (λ u. counts_of (record_tx_landed registry u profit gas r) ≡ with_landing (counts_of r))
          (sym ((same_text_iff t strategy).0 same))
          (set_rate_here _ ∙ ap rated (paid_other strategy profit gas _ ∙ landed_here r)))
    | inr another ↦
        let away = differs t another in
        rw another (
          set_rate_other t _ away
          ∙ paid_other t profit gas _
          ∙ inc_by-other _ one r (IsOther-label txs_landed t away))
  ]

  perform-counts :
      (call : Record F) (r : R) → counts_of (perform registry call r) ≡ counted call (counts_of r)
  unfolding record_opp_detected record_sim_passed record_tx_reverted record_sizing
      record_sim_divergence record_signal_latency record_block_latency
  perform-counts (opp_detected t) r = inc_by-other _ one r (IsOther-vector _ _ refl)
  perform-counts (sim_passed t) r = inc_by-other _ one r (IsOther-vector _ _ refl)
  perform-counts (tx_submitted t) r = submitted-counts t r
  perform-counts (tx_landed t profit gas) r = landed-counts t profit gas r
  perform-counts (tx_reverted t class gas) r =
      inc_positive-other _ gas _ (IsOther-vector _ _ refl)
      ∙ inc_by-other _ one _ (IsOther-vector _ _ refl)
      ∙ inc_by-other _ one r (IsOther-vector _ _ refl)
  perform-counts (sizing t x) r = observed _ _ _ r
  perform-counts (sim_divergence t x) r = observed _ _ _ r
  perform-counts (block_latency t x) r = observed _ _ _ r
  perform-counts (signal_latency t x) r = observed _ _ _ r

  -- After any sequence of calls the registry holds of each strategy what its own calls count: every
  -- submission and every landing, and as the landing rate the landings over the submissions at the
  -- last landing that had a submission before it. Reverts, profits, gas and the calls of other strategies
  -- leave the three alone.
  pub perform_all-counts :
      (calls : List (Record F)) (r : R)
      → counts_of (perform_all calls r) ≡ counted_all calls (counts_of r)
  perform_all-counts [] r = refl
  perform_all-counts (call ∷ rest) r =
      perform_all-counts rest (perform registry call r)
      ∙ ap (counted_all rest) (perform-counts call r)
