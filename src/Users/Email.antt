-- ===== src/Users/Email.antt =====
-- `normalizeEmail` of apps/user-service/src/users/users.service.ts: `email.trim().toLowerCase()`.
-- A text is the list of its code units. Lower case is that of the ASCII letters, and other code
-- units stay as they are: the addresses are taken to be ASCII.
use oneandro_clone.Prelude.{
  ℕ, ◌+◌, ◌≡◌, refl, ◌∙◌, ap, Bool, true, false, ◌&&◌, ◌||◌, List, [], ◌∷◌, map, arith, leb, eqb,
  if◌then◌else◌, Bool-cases, inl, inr,
}

abbrev pub Text : Type 0
Text = List ℕ

unfoldable pub text_eq : Text → Text → Bool
text_eq [] [] = true
text_eq (a ∷ as_) (b ∷ bs) = eqb a b && text_eq as_ bs
text_eq _ _ = false

pub text_eq_refl : (a : Text) → text_eq a a ≡ true
unfolding text_eq
text_eq_refl [] = refl
text_eq_refl (a ∷ r) = ground (arith, text_eq_refl r)

pub text_eq_sound : (a b : Text) → text_eq a b ≡ true → a ≡ b
unfolding text_eq
text_eq_sound [] [] h = refl
text_eq_sound (a ∷ r) (b ∷ q) h = ground (arith, text_eq_sound r q)
text_eq_sound [] (b ∷ q) h = cc
text_eq_sound (a ∷ r) [] h = cc

-- The white space and line ends that `trim` removes.
unfoldable pub is_space : ℕ → Bool
is_space c =
    (leb 9 c && leb c 13)
    || eqb c 32
    || eqb c 160
    || eqb c 5760
    || (leb 8192 c && leb c 8202)
    || eqb c 8232
    || eqb c 8233
    || eqb c 8239
    || eqb c 8287
    || eqb c 12288
    || eqb c 65279

unfoldable pub to_lower : ℕ → ℕ
to_lower c = if leb 65 c && leb c 90 then c + 32 else c

unfoldable pub trim_start : Text → Text
trim_start [] = []
trim_start (c ∷ cs) = if is_space c then trim_start cs else c ∷ cs

-- A character that ends a text is dropped if it is white space.
abbrev pub keep_end : ℕ → Text → Text
keep_end c [] = if is_space c then [] else c ∷ []
keep_end c (d ∷ ds) = c ∷ d ∷ ds

unfoldable pub trim_end : Text → Text
trim_end [] = []
trim_end (c ∷ cs) = keep_end c (trim_end cs)

unfoldable pub normalize_email : Text → Text
normalize_email email = map to_lower (trim_end (trim_start email))

is_space-to_lower : (c : ℕ) → is_space (to_lower c) ≡ is_space c
unfolding is_space to_lower
is_space-to_lower c = ground arith

to_lower_idem : (c : ℕ) → to_lower (to_lower c) ≡ to_lower c
unfolding to_lower
to_lower_idem c = ground arith

map-to_lower_idem : (s : Text) → map to_lower (map to_lower s) ≡ map to_lower s
map-to_lower_idem [] = refl
map-to_lower_idem (c ∷ s) = cc (to_lower_idem c, map-to_lower_idem s)

trim_start-map : (s : Text) → trim_start (map to_lower s) ≡ map to_lower (trim_start s)
unfolding trim_start
trim_start-map [] = refl
trim_start-map (c ∷ s) = ground (arith, is_space-to_lower c, trim_start-map s)

keep_end-map :
    (c : ℕ) (t : Text) → keep_end (to_lower c) (map to_lower t) ≡ map to_lower (keep_end c t)
keep_end-map c [] = ground (arith, is_space-to_lower c)
keep_end-map c (d ∷ ds) = refl

trim_end-map : (s : Text) → trim_end (map to_lower s) ≡ map to_lower (trim_end s)
unfolding trim_end
trim_end-map [] = refl
trim_end-map (c ∷ s) = ap (keep_end (to_lower c)) (trim_end-map s) ∙ keep_end-map c (trim_end s)

trim_end_idem : (s : Text) → trim_end (trim_end s) ≡ trim_end s
unfolding trim_end
trim_end_idem [] = refl
trim_end_idem (c ∷ s) = keep_end_trimmed c (trim_end s) (trim_end_idem s)
  where
    keep_end_trimmed : (c : ℕ) (t : Text) → trim_end t ≡ t → trim_end (keep_end c t) ≡ keep_end c t
    keep_end_trimmed c [] e = ground arith
    keep_end_trimmed c (d ∷ ds) e = rw e

-- Trimming the end keeps the start trimmed.
trim_start-keep_end :
    (c : ℕ) (t : Text) → is_space c ≡ false → trim_start (keep_end c t) ≡ keep_end c t
unfolding trim_start
trim_start-keep_end c [] h = ground arith
trim_start-keep_end c (d ∷ ds) h = ground arith

trim_start-trim_end : (s : Text) → trim_start (trim_end (trim_start s)) ≡ trim_end (trim_start s)
unfolding trim_start trim_end
trim_start-trim_end [] = refl
trim_start-trim_end (c ∷ s) = elim (Bool-cases (is_space c)) [
  | inl space ↦ rw space (trim_start-trim_end s)
  | inr other ↦ rw other (trim_start-keep_end c (trim_end s) other)
]

-- Normalising an address twice is normalising it once: what is stored is found again by itself.
pub normalize_email_idem : (s : Text) → normalize_email (normalize_email s) ≡ normalize_email s
unfolding normalize_email
normalize_email_idem s =
    rw (trim_start-map, trim_start-trim_end, trim_end-map, trim_end_idem, map-to_lower_idem)
