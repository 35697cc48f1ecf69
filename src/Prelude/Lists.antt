-- ===== src/Prelude/Lists.antt =====
-- Lists under Boolean tests, measured by native numbers, under the library's names.
use Prim.Native.Nat.{ℕ, zero, suc, ◌+◌, ◌-◌, ◌≤◌, min}
use mathlib.Core.Path.{◌≡◌, refl}
use mathlib.Core.Bool.{Bool, true, false, ◌&&◌, ◌||◌}
use mathlib.Core.Option
use mathlib.Core.Option.{Option, none, some}
use mathlib.Core.List.{List, [], ◌∷◌, ◌++◌}
use native.Mathlib.Omega.{arith}
use oneandro_clone.Prelude.Tests.{if◌then◌else◌}

module _ {ℓ} {A : Type ℓ} where
  abbrev pub length : List A → ℕ
  length [] = 0
  length (x ∷ xs) = suc (length xs)

  abbrev pub take : ℕ → List A → List A
  take zero xs = []
  take (suc n) [] = []
  take (suc n) (x ∷ xs) = x ∷ take n xs

  abbrev pub drop : ℕ → List A → List A
  drop zero xs = xs
  drop (suc n) [] = []
  drop (suc n) (x ∷ xs) = drop n xs

  abbrev pub any : (A → Bool) → List A → Bool
  any p [] = false
  any p (x ∷ xs) = p x || any p xs

  abbrev pub all : (A → Bool) → List A → Bool
  all p [] = true
  all p (x ∷ xs) = p x && all p xs

  abbrev pub filter : (A → Bool) → List A → List A
  filter p [] = []
  filter p (x ∷ xs) = if p x then x ∷ filter p xs else filter p xs

  -- How many elements pass.
  abbrev pub count : (A → Bool) → List A → ℕ
  count p [] = 0
  count p (x ∷ xs) = if p x then suc (count p xs) else count p xs

  -- The first element that passes.
  abbrev pub find : (A → Bool) → List A → Option A
  find p [] = none
  find p (x ∷ xs) = if p x then some x else find p xs

  -- `f` at the elements that pass, the others as they are.
  abbrev pub map_where : (A → Bool) → (A → A) → List A → List A
  map_where p f [] = []
  map_where p f (x ∷ xs) = (if p x then f x else x) ∷ map_where p f xs

  abbrev pub or_else : Option A → Option A → Option A
  or_else none o = o
  or_else (some a) o = some a

module _ {ℓ κ} {A : Type ℓ} where
  abbrev pub All : (A → Type κ) → List A → Type κ
  All P [] = Unit
  All P (x ∷ xs) = P x × All P xs

  pub All-append : (P : A → Type κ) (xs ys : List A) → All P xs → All P ys → All P (xs ++ ys)
  All-append P [] ys h k = k
  All-append P (x ∷ xs) ys h k = (h.0, All-append P xs ys h.1 k)

module _ {ℓ} {A : Type ℓ} where
  pub append-nil : (xs : List A) → xs ++ [] ≡ xs
  append-nil [] = refl
  append-nil (x ∷ xs) = cc (append-nil xs)

  pub append_assoc : (xs ys zs : List A) → (xs ++ ys) ++ zs ≡ xs ++ (ys ++ zs)
  append_assoc [] ys zs = refl
  append_assoc (x ∷ xs) ys zs = cc (append_assoc xs ys zs)

  pub length-append : (xs ys : List A) → length (xs ++ ys) ≡ length xs + length ys
  length-append [] ys = omega arith
  length-append (x ∷ xs) ys = omega (arith, length-append xs ys)

  pub length-take : (n : ℕ) (xs : List A) → length (take n xs) ≡ min n (length xs)
  length-take zero xs = omega arith
  length-take (suc n) [] = omega arith
  length-take (suc n) (x ∷ xs) = omega (arith, length-take n xs)

  pub length-drop : (n : ℕ) (xs : List A) → length (drop n xs) ≡ length xs - n
  length-drop zero xs = omega arith
  length-drop (suc n) [] = omega arith
  length-drop (suc n) (x ∷ xs) = omega (arith, length-drop n xs)

  pub find-append :
      (p : A → Bool) (xs ys : List A) → find p (xs ++ ys) ≡ or_else (find p xs) (find p ys)
  find-append p [] ys = refl
  find-append p (x ∷ xs) ys = ground (arith, find-append p xs ys)

  pub find-holds : (p : A → Bool) (xs : List A) {x : A} → find p xs ≡ some x → p x ≡ true
  find-holds p [] e = cc
  find-holds p (y ∷ ys) {x} e = ground (arith, find-holds p ys {x = x})

  -- Nothing passes `p` where no element passes `q` and `p` implies `q`.
  pub find-none_of_any :
      (p q : A → Bool) (xs : List A)
      → ((x : A) → p x ≡ true → q x ≡ true)
      → any q xs ≡ false
      → find p xs ≡ none
  find-none_of_any p q [] h e = refl
  find-none_of_any p q (x ∷ xs) h e = ground (arith, h x, find-none_of_any p q xs h)

  -- Looking for one key after a change of the rows with another key, or the same.
  pub find-map_where :
      (p q : A → Bool) (f : A → A) (xs : List A)
      → ((x : A) → q (f x) ≡ q x)
      → ((x : A) → q x ≡ true → p x ≡ true)
      → find q (map_where p f xs) ≡ Option.map f (find q xs)
  find-map_where p q f [] keep h = refl
  find-map_where p q f (x ∷ xs) keep h = ground (arith, keep x, h x, find-map_where p q f xs keep h)

  -- What is found before a change that keeps the key is found after it, changed or not.
  pub find-map_where_if :
      (p q : A → Bool) (f : A → A) (xs : List A) (x : A)
      → ((y : A) → q (f y) ≡ q y)
      → find q xs ≡ some x
      → find q (map_where p f xs) ≡ some (if p x then f x else x)
  find-map_where_if p q f [] x keep h = cc
  find-map_where_if p q f (y ∷ ys) x keep h =
      ground (arith, keep y, find-map_where_if p q f ys x keep)

  pub find-map_where_ne :
      (p q : A → Bool) (f : A → A) (xs : List A)
      → ((x : A) → q (f x) ≡ q x)
      → ((x : A) → q x ≡ true → p x ≡ false)
      → find q (map_where p f xs) ≡ find q xs
  find-map_where_ne p q f [] keep h = refl
  find-map_where_ne p q f (x ∷ xs) keep h =
      ground (arith, keep x, h x, find-map_where_ne p q f xs keep h)

module _ {ℓ κ} {A : Type ℓ} where
  pub All-find :
      (P : A → Type κ) (p : A → Bool) (xs : List A) {x : A} → All P xs → find p xs ≡ some x → P x
  All-find P p [] h e = cc
  All-find P p (y ∷ ys) {x} h e = ground (arith, All-find P p ys {x = x} h.1)

  pub All-map_where :
      (P : A → Type κ) (p : A → Bool) (f : A → A) (xs : List A)
      → ((x : A) → p x ≡ true → P x → P (f x))
      → All P xs
      → All P (map_where p f xs)
  All-map_where P p f [] step h = tt
  All-map_where P p f (x ∷ xs) step h = (ground (arith, step x), All-map_where P p f xs step h.1)

module _ {ℓ} {A : Type ℓ} where
  pub count-append : (q : A → Bool) (xs ys : List A) → count q (xs ++ ys) ≡ count q xs + count q ys
  count-append q [] ys = omega arith
  count-append q (x ∷ xs) ys = ground (arith, count-append q xs ys)

  pub count-none_of_any :
      (p q : A → Bool) (xs : List A)
      → ((x : A) → p x ≡ true → q x ≡ true)
      → any q xs ≡ false
      → count p xs ≡ 0
  count-none_of_any p q [] h e = refl
  count-none_of_any p q (x ∷ xs) h e = ground (arith, h x, count-none_of_any p q xs h)

  -- A change that makes no element pass anew does not raise the count.
  pub count-map_where :
      (p q : A → Bool) (f : A → A) (xs : List A)
      → ((x : A) → q (f x) ≡ true → q x ≡ true)
      → count q (map_where p f xs) ≤ count q xs
  count-map_where p q f [] h = omega arith
  count-map_where p q f (x ∷ xs) h = ground (arith, h x, count-map_where p q f xs h)

  -- It lowers the count if it stops an element that passed.
  pub count-map_where_lt :
      (p q r : A → Bool) (f : A → A) (xs : List A) (x : A)
      → ((y : A) → q (f y) ≡ false)
      → find r xs ≡ some x
      → p x ≡ true
      → q x ≡ true
      → suc (count q (map_where p f xs)) ≤ count q xs
  count-map_where_lt p q r f [] x h found px qx = cc
  count-map_where_lt p q r f (y ∷ ys) x h found px qx = ground (
    arith,
    h y,
    count-map_where p q f ys (λ z e. ground (arith, h z)),
    count-map_where_lt p q r f ys x h,
  )

  -- No element passes after a change of all that would.
  pub count-map_where_zero :
      (p q : A → Bool) (f : A → A) (xs : List A)
      → ((y : A) → p y ≡ true → q (f y) ≡ false)
      → ((y : A) → p y ≡ false → q y ≡ false)
      → count q (map_where p f xs) ≡ 0
  count-map_where_zero p q f [] h k = refl
  count-map_where_zero p q f (y ∷ ys) h k =
      ground (arith, h y, k y, count-map_where_zero p q f ys h k)
