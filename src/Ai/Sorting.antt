-- ===== src/Ai/Sorting.antt =====
-- An ORDER BY for keys that are numbers, which shows that the laws of the interface can hold.
use mathlib.Core.List.Perm as Permuted
use mathlib.Core.List.{Perm}
use oneandro_clone.Prelude.{
  ℕ, ◌≡◌, Bool, true, List, [], ◌∷◌, arith, leb, All, Bool-cases, inl, inr, if◌then◌else◌,
}
use oneandro_clone.Ai.Vectors.{IsOrdered}

module _ {A : Type 0} (key : A → ℕ) where
  unfoldable pub insert : A → List A → List A
  insert x [] = x ∷ []
  insert x (y ∷ ys) = if leb (key x) (key y) then x ∷ y ∷ ys else y ∷ insert x ys

  unfoldable pub sort_by : List A → List A
  sort_by [] = []
  sort_by (x ∷ xs) = insert x (sort_by xs)

  abbrev pub is_before : A → A → Bool
  is_before x y = leb (key x) (key y)

  insert-Perm : (x : A) (ys : List A) → Perm (insert x ys) (x ∷ ys)
  unfolding insert
  insert-Perm x [] = Permuted.refl (x ∷ [])
  insert-Perm x (y ∷ ys) = elim (Bool-cases (leb (key x) (key y))) [
    | inl before ↦ rw (insert, before) (Permuted.refl (x ∷ y ∷ ys))
    | inr after ↦
        rw (insert, after)
          (Permuted.trans (Permuted.cons y (insert-Perm x ys)) (Permuted.swap x y ys))
  ]

  pub sort_by-Perm : (xs : List A) → Perm (sort_by xs) xs
  unfolding sort_by
  sort_by-Perm [] = Permuted.refl []
  sort_by-Perm (x ∷ xs) =
      Permuted.trans (insert-Perm x (sort_by xs)) (Permuted.cons x (sort_by-Perm xs))

  All-insert : (Q : A → Type 0) (x : A) (ys : List A) → Q x → All Q ys → All Q (insert x ys)
  unfolding insert
  All-insert Q x [] q h = (q, tt)
  All-insert Q x (y ∷ ys) q h = elim (Bool-cases (leb (key x) (key y))) [
    | inl before ↦ rw (insert, before) (q, h)
    | inr after ↦ rw (insert, after) (h.0, All-insert Q x ys q h.1)
  ]

  before-All :
      (x y : A) (ys : List A)
      → is_before x y ≡ true
      → All (λ z. is_before y z ≡ true) ys
      → All (λ z. is_before x z ≡ true) ys
  before-All x y [] h k = tt
  before-All x y (z ∷ zs) h k = (ground (arith, k.0), before-All x y zs h k.1)

  insert-IsOrdered :
      (x : A) (ys : List A) → IsOrdered is_before ys → IsOrdered is_before (insert x ys)
  unfolding insert
  insert-IsOrdered x [] h = (tt, tt)
  insert-IsOrdered x (y ∷ ys) h = elim (Bool-cases (leb (key x) (key y))) [
    | inl before ↦ rw (insert, before) ((before, before-All x y ys before h.0), h)
    | inr after ↦
        rw (insert, after)
          (
            All-insert (λ z. is_before y z ≡ true) x ys (ground arith) h.0,
            insert-IsOrdered x ys h.1,
          )
  ]

  pub sort_by-IsOrdered : (xs : List A) → IsOrdered is_before (sort_by xs)
  unfolding sort_by
  sort_by-IsOrdered [] = tt
  sort_by-IsOrdered (x ∷ xs) = insert-IsOrdered x (sort_by xs) (sort_by-IsOrdered xs)
