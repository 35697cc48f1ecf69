-- ===== src/Pagination.antt =====
-- The paginated listings of LeadsService.list and UsersService.list, over any table.
use Prim.Native.Nat.mul
use native.Mathlib.Nat.{div-add-mod', mod-lt}
use oneandro_clone.Prelude.{
  ℕ, zero, suc, ◌+◌, ◌-◌, ◌*◌, ◌/◌, ◌≤◌, ◌<◌, max, ◌≡◌, ap, ◌∙◌, Bool, List, [], ◌++◌, true, arith,
  length, length-append, All, min,
}
use oneandro_clone.Store.{Table}

-- PaginatedResult
pub record PaginatedResult {ℓ} (A : Type ℓ) : Type ℓ where
  pub items : List A
  pub page : ℕ
  pub page_size : ℕ
  pub total : ℕ
  pub total_pages : ℕ

-- Math.max(1, Math.ceil(total / pageSize)); the page size is at least 1.
unfoldable pub total_pages : ℕ → ℕ → ℕ
total_pages total page_size = max 1 ((total + page_size - 1) / page_size)

module _ {Row : Type 0} {clash : Row → Row → Bool} (T : Table Row clash) (where_ : Row → Bool)
    (page_size : ℕ) (db : T.Db) where
  -- The two queries of `list`; pages are counted from 1.
  unfoldable pub list_page : ℕ → PaginatedResult Row
  list_page page = record {
    items = T.find_page where_ ((page - 1) * page_size) page_size db;
    page = page;
    page_size = page_size;
    total = T.count where_ db;
    total_pages = total_pages (T.count where_ db) page_size;
  }

  -- The items of the first pages, one page after the other.
  abbrev pub first_pages : ℕ → List Row
  first_pages zero = []
  first_pages (suc n) = first_pages n ++ (list_page (suc n)).items

max-one-mul : (q size total : ℕ) → total ≤ q * size → total ≤ max 1 q * size
max-one-mul q size total h = grind (arith, mul-le_max q)
  where
    mul-le_max : (q : ℕ) → q ≤ max 1 q
    mul-le_max q = omega arith

-- The pages have room for every item.
pub total_pages-enough : (total size : ℕ) → 0 < size → total ≤ total_pages total size * size
unfolding total_pages
total_pages-enough total size h =
    max-one-mul ((total + size - 1) / size) size total
      (omega (arith, div-add-mod' (total + size - 1) size, mod-lt (total + size - 1) h))

module _ {Row : Type 0} {clash : Row → Row → Bool} (T : Table Row clash) (where_ : Row → Bool)
    (page_size : ℕ) (db : T.Db) where
  -- A page has no more items than its size, and all of them pass the filter.
  pub list_page-matches :
      (page : ℕ)
      → (length (list_page T where_ page_size db page).items ≤ page_size)
        × All (λ r. where_ r ≡ true) (list_page T where_ page_size db page).items
  unfolding list_page
  list_page-matches page = (
    omega (arith, T.length-find_page where_ ((page - 1) * page_size) page_size db),
    T.find_page-matches where_ ((page - 1) * page_size) page_size db,
  )

  length-first_pages :
      (n : ℕ)
      → length (first_pages T where_ page_size db n) ≡ min (n * page_size) (T.count where_ db)
  unfolding list_page
  length-first_pages zero = rw mul.zero (omega arith)
  length-first_pages (suc n) =
      let full : (suc n - 1) * page_size ≡ n * page_size = ap (λ k. k * page_size) (pred-suc n) in
      rw
        (
          length-append (first_pages T where_ page_size db n)
              (list_page T where_ page_size db (suc n)).items,
          mul.suc,
        )
        (omega (
          arith,
          length-first_pages n,
          T.length-find_page where_ ((suc n - 1) * page_size) page_size db,
          T.count-find_many where_ db,
          full,
        ))
    where
      pred-suc : (k : ℕ) → suc k - 1 ≡ k
      pred-suc k = omega arith

  -- The pages from 1 to totalPages have room for as many items as match the query.
  pub first_pages-total_pages :
      0 < page_size
      → length (first_pages T where_ page_size db (list_page T where_ page_size db 1).total_pages)
        ≡ T.count where_ db
  unfolding list_page
  first_pages-total_pages h =
      length-first_pages (list_page T where_ page_size db 1).total_pages
      ∙ omega (arith, total_pages-enough (T.count where_ db) page_size h)
