-- ===== src/Main/Lines.antt =====
-- The definitions of stable tokens that bot/src/main.rs reads: which texts are read as which token.
use Prim.Native.Char.{Char, code}
use Prim.Native.String.{String}
use text.Mathlib.TextEquality.{Char-path}
use mathlib.Core.Option.{some-injective, some-ne-none}
use skua.Prelude.{
  ℕ, ◌≡◌, refl, sym, ap, ap₂, subst, ◌∙◌, ◌↔◌, true, false, ◌==◌, List, [], ◌∷◌, All, Option, none,
  some, inl, inr, Bool-cases, arith,
}
use skua.Core.Environment.{parse_unsigned}
use skua.StableDepeg.{StableToken}
use skua.Main.Startup.{prepend, split, parse_stable}

-- The character is not in the text.
abbrev pub IsWithout : ℕ → String → Type 0
IsWithout sep String.[] = Unit
IsWithout sep (String.◌∷◌ c s) = ((code c == sep) ≡ false) × IsWithout sep s

-- A part, the separator and the rest.
abbrev pub before : String → Char → String → String
before String.[] sep rest = String.◌∷◌ sep rest
before (String.◌∷◌ c part) sep rest = String.◌∷◌ c (before part sep rest)

-- The parts with the separator between them.
abbrev pub joined : Char → List String → String
joined sep [] = ""
joined sep (part ∷ []) = part
joined sep (part ∷ q ∷ parts) = before part sep (joined sep (q ∷ parts))

split-without : (sep : ℕ) (s : String) → IsWithout sep s → split sep s ≡ s ∷ []
unfolding split
split-without sep String.[] w = refl
split-without sep (String.◌∷◌ c s) (other, w) = rw (other, split-without sep s w, split) refl

split-append :
    (sep : Char) (part rest : String)
    → IsWithout (code sep) part
    → split (code sep) (before part sep rest) ≡ part ∷ split (code sep) rest
unfolding split
split-append sep String.[] rest w =
    let same : (code sep == code sep) ≡ true = ground arith in rw same refl
split-append sep (String.◌∷◌ c s) rest (other, w) =
    rw (other, split-append sep s rest w, split) refl

split-joined :
    (sep : Char) (part : String) (parts : List String)
    → All (IsWithout (code sep)) (part ∷ parts)
    → split (code sep) (joined sep (part ∷ parts)) ≡ part ∷ parts
split-joined sep part [] (w, _) = split-without (code sep) part w
split-joined sep part (q ∷ parts) (w, ws) =
    split-append sep part (joined sep (q ∷ parts)) w
    ∙ ap (λ l. part ∷ l) (split-joined sep q parts ws)

joined-cons :
    (c sep : Char) (part : String) (parts : List String)
    → joined sep (String.◌∷◌ c part ∷ parts) ≡ String.◌∷◌ c (joined sep (part ∷ parts))
joined-cons c sep part [] = refl
joined-cons c sep part (q ∷ parts) = refl

-- The converse: the parts do not hold the separator, and joined they are the text.
split-parts :
    (sep : Char) (s : String)
    → (part : String) × (parts : List String) × (split (code sep) s ≡ part ∷ parts)
      × All (IsWithout (code sep)) (part ∷ parts)
      × (joined sep (part ∷ parts) ≡ s)
unfolding split
split-parts sep String.[] = ("", [], refl, (tt, tt), refl)
split-parts sep (String.◌∷◌ c s) =
    let (part, parts, found, without, same) = split-parts sep s in
    elim (Bool-cases (code c == code sep)) [
      | inl here ↦ (
        "",
        part ∷ parts,
        rw here (ap (λ l. "" ∷ l) found),
        (tt, without),
        ap₂ (λ x y. String.◌∷◌ x y) (Char-path sep c (ground arith)) same,
      )
      | inr away ↦ (
        String.◌∷◌ c part,
        parts,
        rw away (ap (prepend c) found),
        ((away, without.0), without.1),
        joined-cons c sep part parts ∙ ap (λ y. String.◌∷◌ c y) same,
      )
    ]

-- Six texts that the fields of a token are read from.
pub record IsRead (address : String → Option ℕ) (parts : List String) (t : StableToken)
    : Type 0 where
  pub token_text : String
  pub oracle_text : String
  pub decimals_text : String
  pub pool_a_text : String
  pub pool_b_text : String
  pub six :
      parts ≡ t.symbol ∷ token_text ∷ oracle_text ∷ decimals_text ∷ pool_a_text ∷ pool_b_text ∷ []
  pub token_read : address token_text ≡ some t.token
  pub oracle_read : parse_unsigned 32 oracle_text ≡ some t.oracle_token_index
  pub decimals_read : parse_unsigned 8 decimals_text ≡ some t.decimals
  pub pool_a_read : address pool_a_text ≡ some t.pool_a
  pub pool_b_read : address pool_b_text ≡ some t.pool_b

given :
    {A B : Type 0} (o : Option A) (f : A → Option B) {b : B}
    → elim o [ none ↦ none | some a ↦ f a ] ≡ some b
    → (a : A) × (o ≡ some a) × (f a ≡ some b)
given none f e = absurd (some-ne-none _ (sym e))
given (some a) f e = (a, refl, e)

parse_stable-IsRead :
    (address : String → Option ℕ) (parts : List String) {t : StableToken}
    → parse_stable address parts ≡ some t
    → IsRead address parts t
unfolding parse_stable
parse_stable-IsRead address [] e = absurd (some-ne-none _ (sym e))
parse_stable-IsRead address (a ∷ []) e = absurd (some-ne-none _ (sym e))
parse_stable-IsRead address (a ∷ b ∷ []) e = absurd (some-ne-none _ (sym e))
parse_stable-IsRead address (a ∷ b ∷ c ∷ []) e = absurd (some-ne-none _ (sym e))
parse_stable-IsRead address (a ∷ b ∷ c ∷ d ∷ []) e = absurd (some-ne-none _ (sym e))
parse_stable-IsRead address (a ∷ b ∷ c ∷ d ∷ f ∷ []) e = absurd (some-ne-none _ (sym e))
parse_stable-IsRead address (a ∷ b ∷ c ∷ d ∷ f ∷ g ∷ h ∷ l) e = absurd (some-ne-none _ (sym e))
parse_stable-IsRead address (symbol ∷ token ∷ oracle ∷ decimals ∷ a ∷ b ∷ []) e =
    let (_, token_eq, e1) = given (address token) _ e in
    let (_, oracle_eq, e2) = given (parse_unsigned 32 oracle) _ e1 in
    let (_, decimals_eq, e3) = given (parse_unsigned 8 decimals) _ e2 in
    let (_, a_eq, e4) = given (address a) _ e3 in
    let (_, b_eq, e5) = given (address b) _ e4 in
    subst (IsRead address (symbol ∷ token ∷ oracle ∷ decimals ∷ a ∷ b ∷ [])) (some-injective _ _ e5)
      (record {
        token_text = token;
        oracle_text = oracle;
        decimals_text = decimals;
        pool_a_text = a;
        pool_b_text = b;
        six = refl;
        token_read = token_eq;
        oracle_read = oracle_eq;
        decimals_read = decimals_eq;
        pool_a_read = a_eq;
        pool_b_read = b_eq;
      })

IsRead-parse_stable :
    (address : String → Option ℕ) (parts : List String) (t : StableToken)
    → IsRead address parts t
    → parse_stable address parts ≡ some t
unfolding parse_stable
IsRead-parse_stable address parts t r =
    subst (λ l. parse_stable address l ≡ some t) (sym r.six)
      (rw (r.token_read, r.oracle_read, r.decimals_read, r.pool_a_read, r.pool_b_read, parse_stable)
        refl)

-- The line of a token: six parts without a colon, joined by colons.
abbrev pub IsLineOf : (address : String → Option ℕ) → Char → String → StableToken → Type 0
IsLineOf address colon line t =
    (part : String) × (parts : List String) × All (IsWithout (code colon)) (part ∷ parts)
    × (joined colon (part ∷ parts) ≡ line)
    × IsRead address (part ∷ parts) t

-- A text is read as a stable token exactly if it is six parts without a colon, joined by colons: the
-- symbol, and five that the parsers of addresses and of 32-bit and 8-bit numbers read as the other
-- fields. So no two tokens are read from one text, and writing such parts and reading them gives the
-- token back.
pub parse_stable-IsLineOf_iff :
    (address : String → Option ℕ) (colon : Char) (line : String) (t : StableToken)
    → (parse_stable address (split (code colon) line) ≡ some t) ↔ IsLineOf address colon line t
parse_stable-IsLineOf_iff address colon line t = (
  λ e.
      let (part, parts, found, without, same) = split-parts colon line in
      (
        part,
        parts,
        without,
        same,
        parse_stable-IsRead address (part ∷ parts)
            (subst (λ l. parse_stable address l ≡ some t) found e),
      ),
  λ (part, parts, without, same, read).
      subst (λ l. parse_stable address (split (code colon) l) ≡ some t) same
        (subst (λ l. parse_stable address l ≡ some t) (sym (split-joined colon part parts without))
          (IsRead-parse_stable address (part ∷ parts) t read)),
)
