-- ===== src/Config/Numbers.antt =====
-- `parseInt(text, 10)` and `String(n)`, as the configuration.ts files of the services use them.
-- A number is exact here at every size; in the source it is from 2^53 on rounded.
use oneandro_clone.Prelude.{
  ℕ, zero, suc, ◌+◌, ◌-◌, ◌*◌, ◌/◌, ◌%◌, ◌≤◌, ◌≡◌, refl, sym, ap, ◌∙◌, Bool, true, false, ◌&&◌,
  Option, none, some, [], ◌∷◌, ◌++◌, arith, leb, eqb, Bool-cases, inl, inr, if◌then◌else◌,
  append-nil, append_assoc,
}
use oneandro_clone.Users.Email.{Text, trim_start, is_space}

-- What `parseInt` returns: NaN, or an integer by its sign and its size.
pub data Integer : Type 0 where
  nan : Integer
  plus minus : ℕ → Integer

unfoldable pub is_digit : ℕ → Bool
is_digit c = leb b'0' c && leb c b'9'

abbrev or_zero : Option ℕ → ℕ
or_zero none = 0
or_zero (some n) = n

-- The digits at the start of the text, after those read so far.
unfoldable pub read_digits : Text → Option ℕ → Option ℕ
read_digits [] acc = acc
read_digits (c ∷ cs) acc =
    if is_digit c then read_digits cs (some (or_zero acc * 10 + (c - b'0'))) else acc

abbrev signed : (ℕ → Integer) → Option ℕ → Integer
signed sign none = nan
signed sign (some n) = sign n

abbrev read_sign : Text → Integer
read_sign [] = nan
read_sign (c ∷ cs) =
    if eqb c b'-'
    then signed minus (read_digits cs none)
    else if eqb c b'+'
    then signed plus (read_digits cs none)
    else signed plus (read_digits (c ∷ cs) none)

unfoldable pub parse_int : Text → Integer
parse_int text = read_sign (trim_start text)

-- The decimal digits of a number that is at most the fuel.
unfoldable pub digits_of : ℕ → ℕ → Text
digits_of zero n = (n + b'0') ∷ []
digits_of (suc fuel) n =
    let rest = digits_of fuel (n / 10) in
    if leb n 9 then (n + b'0') ∷ [] else rest ++ (n % 10 + b'0') ∷ []

unfoldable pub to_decimal : ℕ → Text
to_decimal n = digits_of n n

-- What stands behind a number that is read: no further digit.
abbrev pub IsCut : Text → Type 0
IsCut [] = Unit
IsCut (c ∷ cs) = is_digit c ≡ false

read_digits-cut : (rest : Text) (acc : Option ℕ) → IsCut rest → read_digits rest acc ≡ acc
unfolding read_digits
read_digits-cut [] acc h = refl
read_digits-cut (c ∷ cs) acc h = rw h refl

read_digits-one :
    (d m : ℕ) (rest : Text) (acc : Option ℕ)
    → d ≤ 9
    → or_zero acc * 10 + d ≡ m
    → read_digits ((d + b'0') ∷ rest) acc ≡ read_digits rest (some m)
unfolding read_digits is_digit
read_digits-one d m rest acc h e = ground arith

read_digits-digits_of :
    (fuel n : ℕ) (rest : Text)
    → n ≤ fuel
    → read_digits (digits_of fuel n ++ rest) none ≡ read_digits rest (some n)
unfolding digits_of
read_digits-digits_of zero n rest h = read_digits-one n n rest none (omega arith) (omega arith)
read_digits-digits_of (suc fuel) n rest h = elim (Bool-cases (leb n 9)) [
  | inl small ↦ rw small (read_digits-one n n rest none (ground arith) (omega arith))
  | inr large ↦
      rw (large, append_assoc)
        (read_digits-digits_of fuel (n / 10) ((n % 10 + b'0') ∷ rest) (ground arith)
          ∙ read_digits-one (n % 10) n rest (some (n / 10)) (omega arith) (omega arith))
]

-- A text that starts with a digit has neither a sign nor white space before it.
read_sign-digit :
    (c : ℕ) (cs : Text)
    → is_digit c ≡ true
    → read_sign (trim_start (c ∷ cs)) ≡ signed plus (read_digits (c ∷ cs) none)
unfolding is_digit trim_start is_space
read_sign-digit c cs h = ground arith

-- The first character of a decimal is a digit.
digits_of-head :
    (fuel n : ℕ)
    → n ≤ fuel
    → (c : ℕ) × (cs : Text) × (digits_of fuel n ≡ c ∷ cs) × (is_digit c ≡ true)
unfolding digits_of is_digit
digits_of-head zero n h = (n + b'0', [], refl, ground arith)
digits_of-head (suc fuel) n h = elim (Bool-cases (leb n 9)) [
  | inl small ↦ (n + b'0', [], rw small refl, ground arith)
  | inr large ↦
      let (c, cs, e, d) = digits_of-head fuel (n / 10) (ground arith) in
      (c, cs ++ (n % 10 + b'0') ∷ [], rw (large, e) refl, d)
]

-- Reading the decimal of a number gives the number, whatever follows that is no digit.
pub parse_int-to_decimal :
    (n : ℕ) (rest : Text) → IsCut rest → parse_int (to_decimal n ++ rest) ≡ plus n
unfolding parse_int to_decimal
parse_int-to_decimal n rest h =
    let (c, cs, e, d) = digits_of-head n n (omega arith) in
    let read : read_digits (c ∷ cs ++ rest) none ≡ some n =
      ap (λ t. read_digits (t ++ rest) none) (sym e)
      ∙ read_digits-digits_of n n rest (omega arith)
      ∙ read_digits-cut rest (some n) h in
    rw e (read_sign-digit c (cs ++ rest) d ∙ ap (signed plus) read)

pub parse_int-to_decimal_alone : (n : ℕ) → parse_int (to_decimal n) ≡ plus n
parse_int-to_decimal_alone n =
    ap parse_int (sym (append-nil (to_decimal n))) ∙ parse_int-to_decimal n [] tt
