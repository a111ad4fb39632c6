-- ===== src/Listings/Claims/Sound.antt =====
-- What a listing of claims shows.
use reimbursement_system.Base.{
  ℕ, ◌≡◌, refl, ◌≤◌, inl, inr, Bool, true, ◌&&◌, some, List, [], ◌∷◌, arith, length, filter, All,
  MemIn, All-MemIn, filter-MemIn, Text, lit, length-take-le, take, drop, pos, negsuc, zero, suc,
  Option-cases, &&-true, ℤ,
}
use reimbursement_system.Approval.{
  Status, draft, submitted, approved, rejected, paid, cancelled, Role,
}
use reimbursement_system.Store.{Db, Env, World, ok, statement}
use reimbursement_system.Reimbursements.Scope.{
  DetailRow, base_query, scope_filter, can_see, scope_filter-can_see,
}
use reimbursement_system.Reimbursements.Workflow.Notify.{status_text}
use reimbursement_system.Requests.Paging.{Params, Order}
use reimbursement_system.Listings.Pages.{page_rows, rows_from}
use reimbursement_system.Listings.Claims.{
  Sql, ListFilters, cast_status, apply_list_filters, search_test, selected, count_rows,
  rows_of_page, list_claims,
}

-- Sorting adds no row.
abbrev pub AddsNone : Sql → Type 0
AddsNone sql =
    (column : Text) (o : Order) (rows : List DetailRow) (row : DetailRow)
    → MemIn row (sql.arrange column o rows)
    → MemIn row rows

take-MemIn :
    (n : ℕ) (rows : List DetailRow) (row : DetailRow) → MemIn row (take n rows) → MemIn row rows
take-MemIn zero rows row m = absurd m
take-MemIn (suc n) [] row m = absurd m
take-MemIn (suc n) (x ∷ rows) row (inl same) = inl same
take-MemIn (suc n) (x ∷ rows) row (inr m) = inr (take-MemIn n rows row m)

drop-MemIn :
    (n : ℕ) (rows : List DetailRow) (row : DetailRow) → MemIn row (drop n rows) → MemIn row rows
drop-MemIn zero rows row m = m
drop-MemIn (suc n) [] row m = absurd m
drop-MemIn (suc n) (x ∷ rows) row m = inr (drop-MemIn n rows row m)

selected_sound :
    (sql : Sql) (e : Env) (p : Params) (f : ListFilters) (role : Role) (user_id : ℕ) (db : Db)
    (rows : List DetailRow) (row : DetailRow)
    → selected sql e p f role user_id db ≡ some rows
    → MemIn row rows
    → MemIn row (scope_filter role user_id (base_query db))
      × (search_test sql p.search row ≡ true)
      × ((test : DetailRow → Bool) × (apply_list_filters sql e f ≡ some test) × (test row ≡ true))
unfolding selected
selected_sound sql e p f role user_id db rows row h m =
    elim (Option-cases (apply_list_filters sql e f)) [
      | inl refused ↦ absurd (ground arith)
      | inr (test, filters) ↦
          let scoped = scope_filter role user_id (base_query db) in
          let passes = λ (r : DetailRow). test r && search_test sql p.search r in
          let made : filter passes scoped ≡ rows = ground arith in
          let (inside, passed) = filter-MemIn passes scoped row (rw (← made) at m) in
          let (tested, found) = &&-true (test row) (search_test sql p.search row) passed in
          (inside, found, (test, filters, tested))
    ]

list_claims-parts :
    (sql : Sql) (p : Params) (f : ListFilters) (role : Role) (user_id : ℕ) (e : Env) (w w' : World)
    (rows : List DetailRow) (total : ℕ)
    → list_claims sql p f role user_id e w ≡ (ok (rows, total), w')
    → (w'.db ≡ w.db)
      × (count_rows (selected sql e p f role user_id w.db) ≡ ok total)
      × (rows_of_page sql p (selected sql e p f role user_id w.db) ≡ ok rows)
unfolding list_claims statement
list_claims-parts sql p f role user_id e w w' rows total h =
    (ground arith, ground arith, ground arith)

page_rows-parts :
    (p : Params) (all rows : List DetailRow)
    → page_rows p all ≡ rows
    → (length rows ≤ p.limit) × ((row : DetailRow) → MemIn row rows → MemIn row all)
unfolding page_rows
page_rows-parts p all rows h = go p.offset h
  where
    go :
        (offset : ℤ)
        → rows_from p.limit offset all ≡ rows
        → (length rows ≤ p.limit) × ((row : DetailRow) → MemIn row rows → MemIn row all)
    go (pos n) h = rw (← h) (
      length-take-le p.limit (drop n all),
      λ row m. drop-MemIn n all row (take-MemIn p.limit (drop n all) row m),
    )
    go (negsuc n) h = rw (← h) (length-take-le p.limit all, take-MemIn p.limit all)

-- What a row that a listing shows satisfies: the caller may see it, and it passes the search and
-- the filters of the query.
pub record Shown (sql : Sql) (e : Env) (p : Params) (f : ListFilters) (role : Role) (user_id : ℕ)
    (row : DetailRow) : Type 0 where
  pub visible : can_see role user_id row.claim.employee_id ≡ true
  pub found : search_test sql p.search row ≡ true
  pub filtered :
      (test : DetailRow → Bool) × (apply_list_filters sql e f ≡ some test) × (test row ≡ true)

-- If sorting adds no row, a listing that succeeds changes no table and shows at most `limit`
-- rows, all of which the caller may see and which pass the search and the filters, and its total
-- counts every row that the query selects.
pub list_claims_sound :
    (sql : Sql) (p : Params) (f : ListFilters) (role : Role) (user_id : ℕ) (e : Env) (w w' : World)
    (rows : List DetailRow) (total : ℕ)
    → AddsNone sql
    → list_claims sql p f role user_id e w ≡ (ok (rows, total), w')
    → (w'.db ≡ w.db)
      × (length rows ≤ p.limit)
      × All (Shown sql e p f role user_id) rows
      × ((all : List DetailRow) × (selected sql e p f role user_id w.db ≡ some all)
          × (total ≡ length all))
list_claims_sound sql p f role user_id e w w' rows total adds_none h =
    let (same, counted, paged) = list_claims-parts sql p f role user_id e w w' rows total h in
    elim (Option-cases (selected sql e p f role user_id w.db)) [
      | inl refused ↦ absurd (ground arith)
      | inr (all, chosen) ↦
          let sorted = sql.arrange p.sort p.order all in
          let page : page_rows p sorted ≡ rows = ground arith in
          let total_of : total ≡ length all = ground arith in
          let (few, inside) = page_rows-parts p sorted rows page in
          (
            same,
            few,
            All-MemIn _ rows (λ row m.
                let (scoped, found, filtered) =
                  selected_sound sql e p f role user_id w.db all row chosen
                    (adds_none p.sort p.order all row (inside row m)) in
                record {
                  visible = scoped-visible role user_id (base_query w.db) row scoped;
                  found = found;
                  filtered = filtered;
                }),
            (all, chosen, total_of),
          )
    ]
  where
    scoped-visible :
        (role : Role) (user_id : ℕ) (all : List DetailRow) (row : DetailRow)
        → MemIn row (scope_filter role user_id all)
        → can_see role user_id row.claim.employee_id ≡ true
    scoped-visible role user_id all row m =
        (filter-MemIn (λ (r : DetailRow). can_see role user_id r.claim.employee_id) all row
          (rw (scope_filter-can_see role user_id all) at m)).1

-- A cast that is not empty text reads the names of the enum.
pub cast_status-text : (s : Status) → cast_status (status_text s) ≡ some s
unfolding cast_status lit
cast_status-text draft = refl
cast_status-text submitted = refl
cast_status-text approved = refl
cast_status-text rejected = refl
cast_status-text paid = refl
cast_status-text cancelled = refl
