-- ===== src/Triangular/Chains.antt =====
-- Chains of hops through the graph of bot/crates/strategies/triangular/src/graph.rs.
use skua.Prelude.{
  ℕ, ◌≡◌, refl, sym, ap, ap₂, false, ◌||◌, some, List, [], ◌∷◌, ◌++◌, ◌==◌, arith, lookup, contains,
  map, In,
}
use skua.World.{Hop}
use skua.Triangular.Graph.{PoolEdge, ArbGraph}
use skua.Triangular.Search.{hop_by}

abbrev pub ins : List Hop → List ℕ
ins = map (λ h. h.token_in)

abbrev pub outs : List Hop → List ℕ
outs = map (λ h. h.token_out)

abbrev pub Distinct : List ℕ → Type 0
Distinct [] = Unit
Distinct (x ∷ xs) = (contains xs x ≡ false) × Distinct xs

module _ {F : Type 0} where
  -- The hop follows an edge of the graph.
  abbrev pub IsHop : ArbGraph F → Hop → Type 0
  IsHop g h =
      (es : List (PoolEdge F)) × (e : PoolEdge F) × (lookup h.token_in g ≡ some es)
      × In e es
      × (h ≡ hop_by e h.token_in)

  -- Hops through the graph from one token to another, each from where the one before it ends.
  abbrev pub Chain : ArbGraph F → ℕ → List Hop → ℕ → Type 0
  Chain g a [] b = a ≡ b
  Chain g a (h ∷ hs) b = (h.token_in ≡ a) × IsHop g h × Chain g h.token_out hs b

  pub Chain-snoc :
      (g : ArbGraph F) (a : ℕ) (hs : List Hop) (h : Hop)
      → Chain g a hs h.token_in
      → IsHop g h
      → Chain g a (hs ++ (h ∷ [])) h.token_out
  Chain-snoc g a [] h c e = (sym c, e, refl)
  Chain-snoc g a (k ∷ hs) h (from, hop, c) e = (from, hop, Chain-snoc g k.token_out hs h c e)

  -- The tokens that a chain enters and then its end are its start and then the tokens that it leaves by.
  pub ins-end :
      (g : ArbGraph F) (a : ℕ) (hs : List Hop) (b : ℕ)
      → Chain g a hs b
      → ins hs ++ (b ∷ []) ≡ a ∷ outs hs
  ins-end g a [] b c = ap (λ (x : ℕ). x ∷ []) (sym c)
  ins-end g a (h ∷ hs) b (from, hop, c) =
      ap₂ (λ (x : ℕ) (l : List ℕ). x ∷ l) from (ins-end g h.token_out hs b c)

pub contains-snoc :
    (xs : List ℕ) (y x : ℕ) → contains (xs ++ (y ∷ [])) x ≡ (contains xs x || (y == x))
contains-snoc [] y x = ground arith
contains-snoc (z ∷ xs) y x = ground (arith, contains-snoc xs y x)

pub Distinct-snoc :
    (xs : List ℕ) (y : ℕ) → Distinct xs → contains xs y ≡ false → Distinct (xs ++ (y ∷ []))
Distinct-snoc [] y d h = (refl, tt)
Distinct-snoc (x ∷ xs) y (n, d) h =
    (ground (arith, contains-snoc xs y x), Distinct-snoc xs y d (ground arith))

pub ins-snoc : (hs : List Hop) (h : Hop) → ins (hs ++ (h ∷ [])) ≡ ins hs ++ (h.token_in ∷ [])
ins-snoc [] h = refl
ins-snoc (k ∷ hs) h = ap (λ (l : List ℕ). k.token_in ∷ l) (ins-snoc hs h)

pub outs-snoc : (hs : List Hop) (h : Hop) → outs (hs ++ (h ∷ [])) ≡ outs hs ++ (h.token_out ∷ [])
outs-snoc [] h = refl
outs-snoc (k ∷ hs) h = ap (λ (l : List ℕ). k.token_out ∷ l) (outs-snoc hs h)
