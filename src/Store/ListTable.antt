-- ===== src/Store/ListTable.antt =====
-- A table that is a list of its rows, the oldest first: the assumptions on the Prisma client can be
-- met, and the services run on it.
use mathlib.Core.List.Perm
use oneandro_clone.Prelude.{
  ℕ, zero, suc, ◌-◌, ◌≡◌, ◌&&◌, ◌∙◌, ap, true, arith, All, min, length-take, refl, Bool, not, List,
  [], ◌∷◌, ◌++◌, any, filter, find, map_where, take, drop, length, if◌then◌else◌,
}
use oneandro_clone.Store.{Table}
use mathlib.Core.Option

module _ {Row : Type 0} where
  filter-holds : (p : Row → Bool) (xs : List Row) → All (λ r. p r ≡ true) (filter p xs)
  filter-holds p [] = tt
  filter-holds p (x ∷ xs) = ground (arith, filter-holds p xs)

  All-take : (Q : Row → Type 0) (n : ℕ) (xs : List Row) → All Q xs → All Q (take n xs)
  All-take Q zero xs h = tt
  All-take Q (suc n) [] h = tt
  All-take Q (suc n) (x ∷ xs) h = (h.0, All-take Q n xs h.1)

  All-drop : (Q : Row → Type 0) (n : ℕ) (xs : List Row) → All Q xs → All Q (drop n xs)
  All-drop Q zero xs h = h
  All-drop Q (suc n) [] h = h
  All-drop Q (suc n) (x ∷ xs) h = All-drop Q n xs h.1

  pub length-drop : (n : ℕ) (xs : List Row) → length (drop n xs) ≡ length xs - n
  length-drop zero xs = omega arith
  length-drop (suc n) [] = omega arith
  length-drop (suc n) (x ∷ xs) = omega (arith, length-drop n xs)

  pub page-matches :
      (p : Row → Bool) (skip n : ℕ) (xs : List Row)
      → All (λ r. p r ≡ true) (take n (drop skip (filter p xs)))
  page-matches p skip n xs =
      All-take (λ r. p r ≡ true) n (drop skip (filter p xs))
        (All-drop (λ r. p r ≡ true) skip (filter p xs) (filter-holds p xs))

  pub length-page :
      (skip n : ℕ) (xs : List Row) → length (take n (drop skip xs)) ≡ min n (length xs - skip)
  length-page skip n xs = length-take n (drop skip xs) ∙ ap (min n) (length-drop skip xs)

-- The rows that the columns can hold are those of the test.
abbrev pub typed_table :
    (Row : Type 0) (clash : Row → Row → Bool) (accepts : Row → Bool) → Table Row clash
typed_table Row clash accepts = record {
  Db = List Row;
  rows = λ d. d;
  find_unique = find;
  find_many = filter;
  find_page = λ p skip n d. take n (drop skip (filter p d));
  count = λ p d. length (filter p d);
  accepts = accepts;
  create = λ r d. (
    accepts r && not (any (clash r) d),
    if accepts r && not (any (clash r) d) then d ++ r ∷ [] else d,
  );
  update = λ p f d. (Option.map f (find p d), map_where p f d);
  update_many = map_where;
  find_unique-rows = λ p d. refl;
  find_many-perm = λ p d. Perm.refl (filter p d);
  find_page-matches = λ p skip n d. page-matches p skip n d;
  length-find_page = λ p skip n d. length-page skip n (filter p d);
  count-find_many = λ p d. refl;
  create-written = λ r d. refl;
  rows-create = λ r d. refl;
  update-row = λ p f d. refl;
  rows-update = λ p f d. refl;
  rows-update_many = λ p f d. refl;
}

abbrev pub list_table : (Row : Type 0) (clash : Row → Row → Bool) → Table Row clash
list_table Row clash = typed_table Row clash (λ r. true)
