-- ===== src/Config/Env.antt =====
-- How the configuration.ts files read one environment variable.
use oneandro_clone.Prelude.{
  String, ◌≡◌, refl, Bool, true, false, Option, none, some, List, [], ◌∷◌, inl, inr, Option-cases,
  Bool-cases, if◌then◌else◌,
}
use oneandro_clone.Users.Email.{Text, text_eq, trim_start, trim_end}
use oneandro_clone.Gateway.Routes.{codes}
use oneandro_clone.Config.{Boot, up, missing, stopped_by, ◌>>=◌}
use oneandro_clone.Config.Numbers.{Integer, parse_int}
use oneandro_clone.Config.Lists.{split}

-- `process.env`
abbrev pub Env : Type 0
Env = String → Option Text

-- `text.trim().length === 0`
unfoldable pub is_blank : Text → Bool
is_blank text = text_eq (trim_end (trim_start text)) []

unfoldable pub required : Env → String → Boot Text
required env name = elim (env name) [
  | none ↦ missing name
  | some value ↦ if is_blank value then missing name else up value
]

-- `process.env.NAME ?? 'default'`
unfoldable pub or_default : Env → String → Text → Text
or_default env name value = elim (env name) [ none ↦ value | some given ↦ given ]

unfoldable pub int_or_default : Env → String → Text → Integer
int_or_default env name value = parse_int (or_default env name value)

unfoldable pub list_or_default : Env → String → Text → List Text
list_or_default env name value = split b',' (or_default env name value)

unfoldable pub flag_or_default : Env → String → Text → Bool
flag_or_default env name value = text_eq (or_default env name value) (codes "true")

-- A variable that is there and not blank.
abbrev pub is_set : Option Text → Bool
is_set none = false
is_set (some value) = if is_blank value then false else true

-- The first of these variables that is not there, or blank.
unfoldable pub first_unset : Env → List String → Option String
first_unset env [] = none
first_unset env (name ∷ names) = if is_set (env name) then first_unset env names else some name

-- A service that requires a variable and goes on is stopped by the first that is not set.
pub stopped_by-required {ℓ} :
    {A : Type ℓ} (env : Env) (name : String) (names : List String) (next : Text → Boot A)
    → ((value : Text) → stopped_by (next value) ≡ first_unset env names)
    → stopped_by (required env name >>= next) ≡ first_unset env (name ∷ names)
unfolding required first_unset
stopped_by-required env name names next h = elim (Option-cases (env name)) [
  | inl gone ↦ rw (gone, required) refl
  | inr (value, given) ↦ (elim (Bool-cases (is_blank value)) [
    | inl blank ↦ rw (given, required, blank) refl
    | inr text ↦ rw (given, required, text) (h value)
  ])
]

pub first_unset-nil : (env : Env) → none ≡ first_unset env []
unfolding first_unset
first_unset-nil env = refl
