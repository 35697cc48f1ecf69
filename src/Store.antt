-- ===== src/Store.antt =====
-- One table behind the Prisma client, which the services import and do not implement: the calls
-- that they make, and the documented behaviour that they rely on, in terms of the table's rows.
-- `clash` says which two rows break an `@id` or `@unique` column.
pub mod ListTable
use mathlib.Core.Option
use mathlib.Core.List.{Perm}
use oneandro_clone.Prelude.{
  ℕ, ◌≡◌, Bool, true, not, ◌&&◌, Option, List, [], ◌∷◌, ◌++◌, any, filter, find, map_where, length,
  All, min, ◌-◌, if◌then◌else◌,
}

pub record Table (Row : Type 0) (clash : Row → Row → Bool) : Type 1 where
  pub Db : Type 0
  pub rows : Db → List Row
  -- findUnique({ where })
  pub find_unique : (Row → Bool) → Db → Option Row
  -- findMany({ where, orderBy: { createdAt: 'desc' } }), all matches and one page of them
  pub find_many : (Row → Bool) → Db → List Row
  pub find_page : (Row → Bool) → ℕ → ℕ → Db → List Row
  pub count : (Row → Bool) → Db → ℕ
  -- whether the values of a row fit the types of its columns
  pub accepts : Row → Bool
  -- create({ data }): whether the row was written, and the table after; it is not written if a
  -- value does not fit its column, or if it breaks a unique column (P2002)
  pub create : Row → Db → Bool × Db
  -- update({ where, data }) with a unique column in `where`: the row as written, or nothing
  pub update : (Row → Bool) → (Row → Row) → Db → Option Row × Db
  pub update_many : (Row → Bool) → (Row → Row) → Db → Db
  pub find_unique-rows : (p : Row → Bool) (d : Db) → find_unique p d ≡ find p (rows d)
  pub find_many-perm : (p : Row → Bool) (d : Db) → Perm (find_many p d) (filter p (rows d))
  -- `skip` and `take` count; which rows a page has is left open, as rows of one instant may come in any
  -- order, and in another one for each query
  pub find_page-matches :
      (p : Row → Bool) (skip n : ℕ) (d : Db) → All (λ r. p r ≡ true) (find_page p skip n d)
  pub length-find_page :
      (p : Row → Bool) (skip n : ℕ) (d : Db)
      → length (find_page p skip n d) ≡ min n (length (find_many p d) - skip)
  pub count-find_many : (p : Row → Bool) (d : Db) → count p d ≡ length (find_many p d)
  pub create-written :
      (r : Row) (d : Db) → (create r d).0 ≡ (accepts r && not (any (clash r) (rows d)))
  pub rows-create :
      (r : Row) (d : Db)
      → rows (create r d).1
        ≡ (if accepts r && not (any (clash r) (rows d)) then rows d ++ r ∷ [] else rows d)
  pub update-row :
      (p : Row → Bool) (f : Row → Row) (d : Db) → (update p f d).0 ≡ Option.map f (find p (rows d))
  pub rows-update :
      (p : Row → Bool) (f : Row → Row) (d : Db) → rows (update p f d).1 ≡ map_where p f (rows d)
  pub rows-update_many :
      (p : Row → Bool) (f : Row → Row) (d : Db) → rows (update_many p f d) ≡ map_where p f (rows d)
