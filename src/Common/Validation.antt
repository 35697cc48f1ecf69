-- ===== src/Common/Validation.antt =====
-- The validation of a body or a query before its handler: the ValidationPipe that main.ts of the services
-- sets up, and the decorators of the DTO classes.
use oneandro_clone.Prelude.{
  ℕ, String, ◌≡◌, ◌≤◌, ◌*◌, Bool, true, ◌&&◌, Option, none, some, List, [], ◌∷◌, ◌==◌, any, arith,
  inl, inr, Option-cases, Bool-cases, eq_iff, sym, ap, ◌∙◌, if◌then◌else◌,
}

infixl 5 ◌>>=◌
abbrev pub ◌>>=◌ {k ℓ} :
    {Out : Type ℓ} {Value : Type k} → Option Value → (Value → Option Out) → Option Out
some value >>= rest = rest value
none >>= rest = none

infixl 5 ◌>>◌
abbrev pub ◌>>◌ {ℓ} : {Out : Type ℓ} → Option (Unit {0}) → Option Out → Option Out
first >> second = first >>= λ done. second

-- class-transformer and class-validator. A value is converted to the type that its property declares,
-- if that gives a number, or a text; the others are the decorators of those names, and
-- what the value of a number is, as an integer and in hundredths.
pub record Validators : Type 1 where
  pub Value : Type 0
  pub Number : Type 0
  pub is_null : Value → Bool
  pub number : Value → Option Number
  pub text : Value → Option String
  pub code_units : String → List ℕ
  pub is_int : Number → Bool
  pub is_number : ℕ → Number → Bool
  pub min : ℕ → Number → Bool
  pub max : ℕ → Number → Bool
  pub is_length : ℕ → ℕ → String → Bool
  pub min_length : ℕ → String → Bool
  pub is_email : String → Bool
  pub is_uuid : String → Bool
  pub whole : Number → ℕ
  pub cents : Number → ℕ
  pub whole-min : (v : Number) (n : ℕ) → is_int v ≡ true → min n v ≡ true → n ≤ whole v
  pub whole-max : (v : Number) (n : ℕ) → is_int v ≡ true → max n v ≡ true → whole v ≤ n
  pub cents-min : (v : Number) (n : ℕ) → is_number 2 v ≡ true → min n v ≡ true → n * 100 ≤ cents v
  pub cents-max : (v : Number) (n : ℕ) → is_number 2 v ≡ true → max n v ≡ true → cents v ≤ n * 100

-- A decorator that does not hold is a BadRequestException, here `none`.
abbrev pub require : Bool → Option (Unit {0})
require holds = if holds then some tt else none

module _ (V : Validators) where
  -- The names and values of a body or a query.
  abbrev pub Fields : Type 0
  Fields = List (String × V.Value)

  unfoldable pub field : String → Fields → Option V.Value
  field name [] = none
  field name ((n, v) ∷ rest) = if n == name then some v else field name rest

  -- whitelist and forbidNonWhitelisted: a name that the class does not declare is refused.
  unfoldable pub is_whitelisted : List String → Fields → Bool
  is_whitelisted known [] = true
  is_whitelisted known ((n, v) ∷ rest) = any (λ k. k == n) known && is_whitelisted known rest

  -- @IsOptional(): the other decorators are left out for a value that is missing or null.
  unfoldable pub optional {ℓ} :
      {A : Type ℓ} → (V.Value → Option A) → Option V.Value → Option (Option A)
  optional check none = some none
  optional check (some v) = if V.is_null v then some none else (check v >>= λ a. some (some a))

  unfoldable pub required {ℓ} : {A : Type ℓ} → (V.Value → Option A) → Option V.Value → Option A
  required check none = none
  required check (some v) = check v

  -- @IsString() @Length(least, most)
  unfoldable pub string_of : ℕ → ℕ → V.Value → Option String
  string_of least most v = do s ← V.text v; require (V.is_length least most s); some s

  -- @IsEnum() and @IsIn(): the member that is written so.
  unfoldable pub member_of {ℓ} : {A : Type ℓ} → (A → String) → List A → V.Value → Option A
  member_of written [] v = none
  member_of written (m ∷ ms) v = do
    s ← V.text v
    if written m == s then some m else member_of written ms v

  abbrev pub at_most : Option ℕ → V.Number → Bool
  at_most none n = true
  at_most (some most) n = V.max most n

  -- @IsInt() @Min(1), and @Max(most) if there is one.
  unfoldable pub count_of : Option ℕ → V.Value → Option ℕ
  count_of most v = do
    n ← V.number v
    require (V.is_int n)
    require (V.min 1 n)
    require (at_most most n)
    some (V.whole n)

  -- The same, optional and with a default; a query has no null.
  unfoldable pub count_or : ℕ → Option ℕ → Option V.Value → Option ℕ
  count_or default most none = some default
  count_or default most (some v) = count_of most v

  count_of-ok :
      (most : Option ℕ) (v : V.Value) (n : ℕ)
      → count_of most v ≡ some n
      → (m : V.Number) × (V.whole m ≡ n)
        × (V.is_int m ≡ true)
        × (V.min 1 m ≡ true)
        × (at_most most m ≡ true)
  unfolding count_of
  count_of-ok most v n h = elim (Option-cases (V.number v)) [
    | inl none_given ↦ cc (rw none_given at h)
    | inr (m, given) ↦ let (a, b, c, d) = checks m (rw given at h) in (m, a, b, c, d)
  ]
    where
      checks :
          (m : V.Number)
          → (require (V.is_int m)
              >> (require (V.min 1 m) >> (require (at_most most m) >> some (V.whole m))))
            ≡ some n
          → (V.whole m ≡ n) × (V.is_int m ≡ true) × (V.min 1 m ≡ true) × (at_most most m ≡ true)
      checks m h = ground arith

  pub count_or-least :
      (default : ℕ) (most : Option ℕ) (v : Option V.Value) (n : ℕ)
      → 1 ≤ default
      → count_or default most v ≡ some n
      → 1 ≤ n
  unfolding count_or
  count_or-least default most none n d h = ground arith
  count_or-least default most (some v) n d h =
      let (m, same, int, least, upper) = count_of-ok most v n h in
      rw (← same) (V.whole-min m 1 int least)

  pub count_or-most :
      (default most : ℕ) (v : Option V.Value) (n : ℕ)
      → default ≤ most
      → count_or default (some most) v ≡ some n
      → n ≤ most
  unfolding count_or
  count_or-most default most none n d h = ground arith
  count_or-most default most (some v) n d h =
      let (m, same, int, least, upper) = count_of-ok (some most) v n h in
      rw (← same) (V.whole-max m most int upper)

  -- What is taken is written as the text of the value.
  pub member_of_sound {ℓ} :
      {A : Type ℓ} (written : A → String) (ms : List A) (v : V.Value) (m : A)
      → member_of written ms v ≡ some m
      → V.text v ≡ some (written m)
  unfolding member_of
  member_of_sound written [] v m h = cc
  member_of_sound {A = A} written (k ∷ ms) v m h = elim (Option-cases (V.text v)) [
    | inl none_given ↦ cc (rw none_given at h)
    | inr (s, given) ↦ elim (Bool-cases (written k == s)) [
      | inl same ↦
          let kept : some k ≡ some m = rw same at (rw given at h) in
          given ∙ ap some (sym ((eq_iff (written k) s).0 same)) ∙ cc
      | inr other ↦ member_of_sound written ms v m (rw other at (rw given at h))
    ]
  ]
