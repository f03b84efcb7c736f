-- ===== src/Examples/Counters.antt =====
-- A worked example of the metrics, on a registry that is a function from the series to their values.
use Prim.Native.String.{String}
use skua.Prelude.{
  ℕ, none, some, get_elem?, ◌≡◌, ◌≢◌, refl, sym, ap, ap₂, ◌∙◌, Bool, true, false, ◌&&◌, List, [],
  ◌∷◌, ◌==◌, same_text, same_text_iff, inl, inr, Bool-cases, if◌then◌else◌, arith,
}
use skua.Float.Grid.{Grid, num, grid_float}
use skua.Api.Metrics.{
  Vector, opps_detected, sims_passed, txs_submitted, txs_landed, txs_reverted, profit_usd,
  gas_hype_total, reverts_by_class, landing_rate, Series, Registry, IsRegistry, Record,
  tx_submitted, tx_landed, tx_reverted, opp_detected,
}
use skua.Api.Rates.{counts_of, perform_all, perform_all-counts}

abbrev number : Vector → ℕ
number opps_detected = 0
number sims_passed = 1
number txs_submitted = 2
number txs_landed = 3
number txs_reverted = 4
number profit_usd = 5
number gas_hype_total = 6
number reverts_by_class = 7
number landing_rate = 8

abbrev all_vectors : List Vector
all_vectors =
    opps_detected ∷ sims_passed ∷ txs_submitted ∷ txs_landed ∷ txs_reverted ∷ profit_usd
    ∷ gas_hype_total ∷ reverts_by_class ∷ landing_rate ∷ []

abbrev vector_of : ℕ → Vector
vector_of n = elim (get_elem? all_vectors n) [ none ↦ landing_rate | some v ↦ v ]

vector_of-number : (v : Vector) → vector_of (number v) ≡ v
vector_of-number opps_detected = refl
vector_of-number sims_passed = refl
vector_of-number txs_submitted = refl
vector_of-number txs_landed = refl
vector_of-number txs_reverted = refl
vector_of-number profit_usd = refl
vector_of-number gas_hype_total = refl
vector_of-number reverts_by_class = refl
vector_of-number landing_rate = refl

abbrev same_labels : List String → List String → Bool
same_labels [] [] = true
same_labels (x ∷ xs) (y ∷ ys) = same_text x y && same_labels xs ys
same_labels _ _ = false

abbrev same_series : Series → Series → Bool
same_series s t = (number s.0 == number t.0) && same_labels s.1 t.1

same_labels_refl : (xs : List String) → same_labels xs xs ≡ true
same_labels_refl [] = refl
same_labels_refl (x ∷ xs) = ground (arith, (same_text_iff x x).1 refl, same_labels_refl xs)

same_labels-eq : (xs ys : List String) → same_labels xs ys ≡ true → xs ≡ ys
same_labels-eq [] [] h = refl
same_labels-eq [] (y ∷ ys) h = absurd (cc h)
same_labels-eq (x ∷ xs) [] h = absurd (cc h)
same_labels-eq (x ∷ xs) (y ∷ ys) h =
    ap₂ (λ a b. a ∷ b) ((same_text_iff x y).0 (ground arith)) (same_labels-eq xs ys (ground arith))

abbrev Values : Type 0
Values = Series → Grid

abbrev put : Series → Grid → Values → Values
put s x r t = if same_series s t then x else r t

abbrev values : Registry Grid Values
values = record {
  inc_by = λ s x r. put s (grid_float.◌⊕◌ (r s) x) r;
  set = put;
  get = λ s r. r s;
  observe = λ h labels x r. r;
  set_gauge = λ g x r. r;
}

same_series_refl : (s : Series) → same_series s s ≡ true
same_series_refl s = ground (arith, same_labels_refl s.1)

same_series-eq : (s t : Series) → same_series s t ≡ true → s ≡ t
same_series-eq (v, xs) (w, ys) h =
    let e : number v ≡ number w = ground arith in
    ap₂ (λ a b. (a, b)) (sym (vector_of-number v) ∙ ap vector_of e ∙ vector_of-number w)
      (same_labels-eq xs ys (ground arith))

put-same : (s : Series) (x : Grid) (r : Values) → put s x r s ≡ x
put-same s x r = rw (same_series_refl s) refl

put-other : (s t : Series) (x : Grid) (r : Values) → s ≢ t → put s x r t ≡ r t
put-other s t x r away = elim (Bool-cases (same_series s t)) [
  | inl same ↦ absurd (away (same_series-eq s t same))
  | inr another ↦ rw another refl
]

values-IsRegistry : IsRegistry values
values-IsRegistry = record {
  get-inc_by = λ s x r. put-same s _ r;
  get-inc_by_other = λ s t x r away. put-other s t _ r away;
  get-set = λ s x r. put-same s x r;
  get-set_other = λ s t x r away. put-other s t x r away;
  get-observe = λ t h labels x r. refl;
}

-- Two submissions of S3, of which one lands and one reverts, and one of S4.
abbrev calls : List (Record Grid)
calls =
    opp_detected "s3"
    ∷ tx_submitted "s3"
    ∷ tx_submitted "s4"
    ∷ tx_submitted "s3"
    ∷ tx_landed "s3" (num 5_000_000) (num 1_000)
    ∷ tx_reverted "s3" "unknown" (num 1_000)
    ∷ []

abbrev empty : Values
empty s = num 0

perform_all-counts_example :
    counts_of values values-IsRegistry "s3" (perform_all values values-IsRegistry "s3" calls empty)
    ≡ record { submitted = num 2_000_000; landed = num 1_000_000; rate = num 500_000 }
perform_all-counts_example = perform_all-counts values values-IsRegistry "s3" calls empty
