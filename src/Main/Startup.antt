-- ===== src/Main/Startup.antt =====
-- What bot/src/main.rs reads from the environment beside the configuration: the private keys, the
-- assets of HyperLend and the stable tokens of S4.
use Prim.Native.Char.{Char, code}
use Prim.Native.String.{String}
use skua.Prelude.{ℕ, Bool, ◌&&◌, ◌||◌, Option, none, some, List, [], ◌∷◌, leb, ◌==◌, if◌then◌else◌}
use skua.Core.Environment.{
  Environment, Result, loaded, failed, missing, malformed, ◌>>=◌, parse_unsigned,
}
use skua.StableDepeg.{StableToken}

-- `trim_start_matches("0x")`, which takes off every "0x" in front
unfoldable pub trim_0x : String → String
trim_0x String.[] = ""
trim_0x (String.◌∷◌ c String.[]) = String.◌∷◌ c String.[]
trim_0x (String.◌∷◌ c (String.◌∷◌ d rest)) =
    let shorter = trim_0x rest in
    if code c == 48 && code d == 120 then shorter else String.◌∷◌ c (String.◌∷◌ d rest)

-- The character in front of the first part.
abbrev pub prepend : Char → List String → List String
prepend c [] = String.◌∷◌ c String.[] ∷ []
prepend c (part ∷ parts) = String.◌∷◌ c part ∷ parts

-- `split` at a character, given by its number
unfoldable pub split : ℕ → String → List String
split sep String.[] = "" ∷ []
split sep (String.◌∷◌ c rest) =
    let parts = split sep rest in if code c == sep then "" ∷ parts else prepend c parts

-- the property White_Space of Unicode
abbrev pub is_whitespace : ℕ → Bool
is_whitespace n =
    (leb 9 n && leb n 13)
    || (n == 32)
    || (n == 133)
    || (n == 160)
    || (n == 5760)
    || (leb 8192 n && leb n 8202)
    || (n == 8232)
    || (n == 8233)
    || (n == 8239)
    || (n == 8287)
    || (n == 12288)

unfoldable pub trim_start : String → String
trim_start String.[] = ""
trim_start (String.◌∷◌ c rest) =
    let shorter = trim_start rest in if is_whitespace (code c) then shorter else String.◌∷◌ c rest

abbrev pub unless_blank : Char → String → String
unless_blank c String.[] = if is_whitespace (code c) then "" else String.◌∷◌ c String.[]
unless_blank c (String.◌∷◌ d rest) = String.◌∷◌ c (String.◌∷◌ d rest)

unfoldable pub trim_end : String → String
trim_end String.[] = ""
trim_end (String.◌∷◌ c rest) = unless_blank c (trim_end rest)

-- The variables of the keys, with their numbers.
abbrev pub bot_key_vars : List (ℕ × String)
bot_key_vars =
    (1, "SKUA_BOT_KEY_1")
    ∷ (2, "SKUA_BOT_KEY_2")
    ∷ (3, "SKUA_BOT_KEY_3")
    ∷ (4, "SKUA_BOT_KEY_4")
    ∷ (5, "SKUA_BOT_KEY_5")
    ∷ (6, "SKUA_BOT_KEY_6")
    ∷ (7, "SKUA_BOT_KEY_7")
    ∷ (8, "SKUA_BOT_KEY_8")
    ∷ (9, "SKUA_BOT_KEY_9")
    ∷ (10, "SKUA_BOT_KEY_10")
    ∷ []

-- The loop of `load_signers_from_env`, over the variables that are left.
unfoldable pub load_signers :
    Environment → (signer : String → Option ℕ) → List (ℕ × String) → Result (List ℕ)
unfolding trim_0x
load_signers env signer [] = loaded []
load_signers env signer ((i, key_var) ∷ rest) = elim (env key_var) [
  | none ↦ if leb i 5 then failed (missing key_var) else loaded []
  | some hex_key ↦ elim (signer (trim_0x hex_key)) [
    | none ↦ failed (malformed key_var)
    | some s ↦ do signers ← load_signers env signer rest; loaded (s ∷ signers)
  ]
]

unfoldable pub load_signers_from_env : Environment → (signer : String → Option ℕ) → Result (List ℕ)
unfolding load_signers
load_signers_from_env env signer = load_signers env signer bot_key_vars

-- The addresses of a comma-separated list: parts that do not parse are left out.
unfoldable pub parse_assets : (address : String → Option ℕ) → List String → List ℕ
unfolding trim_start trim_end
parse_assets address [] = []
parse_assets address (String.[] ∷ parts) = parse_assets address parts
parse_assets address (String.◌∷◌ c part ∷ parts) =
    elim (address (trim_start (trim_end (String.◌∷◌ c part)))) [
      | none ↦ parse_assets address parts
      | some a ↦ a ∷ parse_assets address parts
    ]

unfoldable pub hyperlend_asset_addrs : Environment → (address : String → Option ℕ) → List ℕ
unfolding parse_assets split
hyperlend_asset_addrs env address =
    parse_assets address (split 44 (elim (env "SKUA_HYPERLEND_ASSETS") [ none ↦ "" | some v ↦ v ]))

-- A definition of six parts; the first that does not parse loses it.
unfoldable pub parse_stable : (address : String → Option ℕ) → List String → Option StableToken
unfolding parse_unsigned
parse_stable address (symbol ∷ token ∷ oracle ∷ decimals ∷ pool_a ∷ pool_b ∷ []) =
    elim (address token) [
      | none ↦ none
      | some t ↦ elim (parse_unsigned 32 oracle) [
        | none ↦ none
        | some o ↦ elim (parse_unsigned 8 decimals) [
          | none ↦ none
          | some d ↦ elim (address pool_a) [
            | none ↦ none
            | some a ↦ elim (address pool_b) [
              | none ↦ none
              | some b ↦ some (record {
                token = t;
                symbol = symbol;
                oracle_token_index = o;
                decimals = d;
                pool_a = a;
                pool_b = b;
              })
            ]
          ]
        ]
      ]
    ]
parse_stable address _ = none

abbrev pub stable_vars : List String
stable_vars =
    "SKUA_S4_STABLE_1" ∷ "SKUA_S4_STABLE_2" ∷ "SKUA_S4_STABLE_3" ∷ "SKUA_S4_STABLE_4"
    ∷ "SKUA_S4_STABLE_5" ∷ "SKUA_S4_STABLE_6" ∷ "SKUA_S4_STABLE_7" ∷ "SKUA_S4_STABLE_8" ∷ []

-- The loop of `load_stable_tokens_from_env`: the first variable that is not set ends it, and a
-- definition that does not parse is passed over.
unfoldable pub load_stables :
    Environment → (address : String → Option ℕ) → List String → List StableToken
unfolding parse_stable split
load_stables env address [] = []
load_stables env address (var ∷ rest) = elim (env var) [
  | none ↦ []
  | some v ↦ elim (parse_stable address (split 58 v)) [
    | none ↦ load_stables env address rest
    | some token ↦ token ∷ load_stables env address rest
  ]
]

unfoldable pub load_stable_tokens_from_env :
    Environment → (address : String → Option ℕ) → List StableToken
unfolding load_stables
load_stable_tokens_from_env env address = load_stables env address stable_vars
