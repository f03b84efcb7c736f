-- ===== src/Core/Environment.antt =====
-- How the process environment is read: `req` and `req_addr` of bot/crates/core/src/config.rs, with the
-- standard library's parser of unsigned integers. Addresses and private keys are parsed by external
-- code, and the values of `f64` are a parameter, so these three parsers are arguments.
use Prim.Native.Char.{code}
use Prim.Native.String.{String}
use mathlib.Core.Option.{some-ne-none}
use skua.Prelude.{
  ℕ, two_pow_pos, ◌+◌, ◌-◌, ◌*◌, ◌^◌, ◌<◌, ◌≡◌, ◌≢◌, refl, ◌&&◌, Option, none, some, leb, ltb, ◌==◌,
  if◌then◌else◌, arith, inl, inr, sym, Bool-cases, Option-cases,
}

-- A variable that is not set has no value.
abbrev pub Environment : Type 0
Environment = String → Option String

pub record Parsers (F : Type 0) : Type 0 where
  pub address : String → Option ℕ
  pub float : String → Option F
  -- the address of the signer of a private key
  pub signer : String → Option ℕ

pub data StartError : Type 0 where
  missing malformed zero_address : (key : String) → StartError
  unavailable panicked : StartError

pub data Result (A : Type 0) : Type 0 where
  loaded : A → Result A
  failed : StartError → Result A

infixl 5 ◌>>=◌
abbrev pub ◌>>=◌ : {A B : Type 0} → Result A → (A → Result B) → Result B
loaded a >>= f = f a
failed e >>= f = failed e

-- The digits of a text, the value so far in front; a value that leaves w bits is an error.
unfoldable pub digits : (w : ℕ) → ℕ → String → Option ℕ
digits w n String.[] = some n
digits w n (String.◌∷◌ c rest) =
    let next = n * 10 + (code c - 48) in
    let value = digits w next rest in
    if leb 48 (code c) && leb (code c) 57 && ltb next (2 ^ w) then value else none

-- `from_str` of `u8` to `u64`: a sign `+` may stand in front, and there is at least one digit.
unfoldable pub parse_unsigned : ℕ → String → Option ℕ
unfolding digits
parse_unsigned w String.[] = none
parse_unsigned w (String.◌∷◌ c String.[]) = digits w 0 (String.◌∷◌ c String.[])
parse_unsigned w (String.◌∷◌ c (String.◌∷◌ d rest)) =
    if code c == 43
    then digits w 0 (String.◌∷◌ d rest)
    else digits w 0 (String.◌∷◌ c (String.◌∷◌ d rest))

unfoldable pub req : {A : Type 0} → Environment → (String → Option A) → String → Result A
req env parse key = elim (env key) [
  | none ↦ failed (missing key)
  | some raw ↦ elim (parse raw) [ none ↦ failed (malformed key) | some a ↦ loaded a ]
]

unfoldable pub req_addr : Environment → (String → Option ℕ) → String → Result ℕ
unfolding req
req_addr env parse key = do
  addr ← req env parse key
  if addr == 0 then failed (zero_address key) else loaded addr

digits_bound :
    (w n : ℕ) (text : String) {value : ℕ} → n < 2 ^ w → digits w n text ≡ some value → value < 2 ^ w
unfolding digits
digits_bound w n String.[] h e = ground arith
digits_bound w n (String.◌∷◌ c rest) h e =
    elim (Bool-cases (leb 48 (code c) && leb (code c) 57 && ltb (n * 10 + (code c - 48)) (2 ^ w))) [
      | inl fits ↦ digits_bound w (n * 10 + (code c - 48)) rest (ground arith) (rw fits at e)
      | inr past ↦ absurd (some-ne-none _ (sym (rw past at e)))
    ]

pub parse_unsigned_bound :
    (w : ℕ) (text : String) {value : ℕ} → parse_unsigned w text ≡ some value → value < 2 ^ w
unfolding parse_unsigned
parse_unsigned_bound w String.[] e = absurd (some-ne-none _ (sym e))
parse_unsigned_bound w (String.◌∷◌ c String.[]) e =
    digits_bound w 0 (String.◌∷◌ c String.[]) (two_pow_pos w) e
parse_unsigned_bound w (String.◌∷◌ c (String.◌∷◌ d rest)) e = elim (Bool-cases (code c == 43)) [
  | inl signed ↦ digits_bound w 0 (String.◌∷◌ d rest) (two_pow_pos w) (rw signed at e)
  | inr bare ↦ digits_bound w 0 (String.◌∷◌ c (String.◌∷◌ d rest)) (two_pow_pos w) (rw bare at e)
]

pub loaded-injective : {A : Type 0} (a b : A) → loaded a ≡ loaded b → a ≡ b
loaded-injective a b e = cc e

pub bind_lem :
    {A B : Type 0} (m : Result A) (f : A → Result B) {b : B}
    → (m >>= f) ≡ loaded b
    → (a : A) × (m ≡ loaded a) × (f a ≡ loaded b)
bind_lem (loaded a) f e = (a, refl, e)
bind_lem (failed x) f {b} e = absurd (failed_ne_loaded x b e)
  where
    failed_ne_loaded : {B : Type 0} (x : StartError) (b : B) → failed x ≡ loaded b → ⊥
    failed_ne_loaded x b e = cc e

-- What a read value says about the environment.
pub req_lem :
    {A : Type 0} (env : Environment) (parse : String → Option A) (key : String) {a : A}
    → req env parse key ≡ loaded a
    → (raw : String) × (env key ≡ some raw) × (parse raw ≡ some a)
unfolding req
req_lem env parse key {a} e = elim (Option-cases (env key)) [
  | inl unset ↦ ground arith
  | inr (raw, found) ↦ (raw, found, ground arith)
]

pub req_addr_lem :
    (env : Environment) (parse : String → Option ℕ) (key : String) {a : ℕ}
    → req_addr env parse key ≡ loaded a
    → a ≢ 0
unfolding req_addr
req_addr_lem env parse key {a} e =
    let (b, found, kept) = bind_lem (req env parse key) _ e in ground arith
