-- ===== src/Leads/Listing.antt =====
-- The listings of apps/lead-service/src/leads/leads.service.ts.
use oneandro_clone.Prelude.{
  ℕ, String, ◌≡◌, Bool, true, false, ◌&&◌, Option, none, some, arith, truthy, ◌==◌, eq_iff, is_text,
  if◌then◌else◌,
}
use oneandro_clone.Common.{LeadStatus, status_eq}
use oneandro_clone.Leads.{Lead, LeadDb, State}
use oneandro_clone.Pagination.{PaginatedResult, list_page}

-- ListLeadsQueryDto: validated to 1 ≤ page and 1 ≤ pageSize ≤ 100.
pub record ListLeadsQuery : Type 0 where
  pub page : ℕ
  pub page_size : ℕ
  pub status : Option LeadStatus

-- The `where` of `list`: a filter that is absent, or an empty user id, does not restrict.
unfoldable pub where_of : Option LeadStatus → Option String → Lead → Bool
where_of status user_id l =
    (elim status [ none ↦ true | some s ↦ status_eq l.status s ])
    && (if truthy user_id then is_text user_id l.user_id else true)

module _ (P : LeadDb) where
  unfoldable pub list : ListLeadsQuery → Option String → State P → PaginatedResult Lead
  list query user_id s =
      list_page P.leads (where_of query.status user_id) query.page_size s.leads query.page

  unfoldable pub list_for_user : String → ListLeadsQuery → State P → PaginatedResult Lead
  list_for_user user_id query s = list query (some user_id) s

-- If the id of the caller is not empty, a lead that passes the filter of its listing is its own.
pub where_of-own :
    (status : Option LeadStatus) (user_id : String) (l : Lead)
    → (user_id == "") ≡ false
    → where_of status (some user_id) l ≡ true
    → l.user_id ≡ user_id
unfolding where_of
where_of-own status user_id l named h = ground (arith, eq_iff user_id l.user_id)
