-- ===== src/Reimbursements/Workflow/Checks.antt =====
-- The checks of Submit in workflow.go: what holds of a claim that passes the policy engine.
use reimbursement_system.Base.{
  ℕ, ◌≡◌, ◌≢◌, refl, ap, ◌∙◌, true, false, ◌&&◌, Option, some, List, [], ◌∷◌, ◌++◌, arith, ◌==◌,
  is_empty, length, filter, find?, sort_by, insert_by, Text,
}
use reimbursement_system.Decimal.{add_numeric}
use reimbursement_system.Approval.{submit, Role, can_transition}
use reimbursement_system.AppErr.{Detail}
use reimbursement_system.Store.{
  AttachmentRow, Category, Reimbursement, Db, Env, World, ok, statement, ◌>>=◌, ◌>>◌, pure, >>=-ok,
}
use reimbursement_system.Reimbursements.Scope.{DetailRow, base_query, scope_filter}
use reimbursement_system.Reimbursements.Repository.{get_detail, has_id}
use reimbursement_system.Reimbursements.Repository.Policy.{
  limit_of, counts_for_month, sum_text, is_duplicate, first_date, count_attachments,
  category_monthly_limit, monthly_category_spend, find_duplicate,
}
use reimbursement_system.Reimbursements.Workflow.Policy.{
  Config, amount_text, exceeds, receipt_rule, limit_violation, limit_rule, duplicate_rule,
}
use reimbursement_system.Reimbursements.Workflow.Actions.{
  chain_for, read_submittable, policy_violations, choose_chain, check_submit,
}

abbrev pub receipts_of : ℕ → Db → List AttachmentRow
receipts_of id db = filter (λ (a : AttachmentRow). a.reimbursement_id == id) db.attachments

abbrev pub limit_for : DetailRow → Db → Option Text
limit_for row db =
    limit_of (find? (λ (c : Category). c.id == row.claim.category_id && c.is_active) db.categories)

-- The other claims of the employee that count against the month's limit of the category.
abbrev pub month_claims : Env → DetailRow → ℕ → Db → List Reimbursement
month_claims e row id db =
    filter
      (counts_for_month e.month_of row.claim.employee_id row.claim.category_id
        row.claim.expense_date id)
      db.reimbursements

abbrev pub duplicates : DetailRow → ℕ → Db → List Reimbursement
duplicates row id db =
    filter (is_duplicate row.claim.employee_id (amount_text row) row.claim.expense_date id)
      db.reimbursements

receipt_rule-ok :
    (cfg : Config) (row : DetailRow) (id : ℕ) (e : Env) (w w' : World)
    → receipt_rule cfg row id e w ≡ (ok [], w')
    → (w'.db ≡ w.db)
      × (exceeds (amount_text row) cfg.receipt_threshold ≡ true → length (receipts_of id w.db) ≢ 0)
unfolding receipt_rule count_attachments statement
receipt_rule-ok cfg row id e w w' h = (ground arith, λ over. ground arith)

limit_rule-ok :
    (row : DetailRow) (id : ℕ) (e : Env) (w w' : World)
    → limit_rule row id e w ≡ (ok [], w')
    → (w'.db ≡ w.db)
      × ((limit : Text)
          → limit_for row w.db ≡ some limit
          → exceeds (add_numeric (sum_text (month_claims e row id w.db)) (amount_text row)) limit
            ≡ false)
unfolding limit_rule category_monthly_limit monthly_category_spend limit_violation statement
limit_rule-ok row id e w w' h = (ground arith, λ limit set. ground arith)

duplicate_rule-ok :
    (row : DetailRow) (id : ℕ) (e : Env) (w w' : World)
    → duplicate_rule row id e w ≡ (ok tt, w')
    → (w'.db ≡ w.db)
      × (is_empty (
            first_date e.date_text
              (sort_by (λ (r : Reimbursement). r.created_at) (duplicates row id w.db)))
          ≡ true)
unfolding duplicate_rule find_duplicate statement
duplicate_rule-ok row id e w w' h = (ground arith, ground arith)

read_submittable-ok :
    (id : ℕ) (role : Role) (user_id : ℕ) (e : Env) (w w' : World) (row : DetailRow)
    → read_submittable id role user_id e w ≡ (ok row, w')
    → (w'.db ≡ w.db)
      × (find? (has_id id) (scope_filter role user_id (base_query w.db)) ≡ some row)
      × (row.claim.employee_id ≡ user_id)
      × (can_transition row.claim.status submit ≡ true)
unfolding read_submittable get_detail statement
read_submittable-ok id role user_id e w w' row h =
    (ground arith, ground arith, ground arith, ground arith)

append-nil_parts : (xs ys : List Detail) → xs ++ ys ≡ [] → (xs ≡ []) × (ys ≡ [])
append-nil_parts [] [] h = (refl, refl)
append-nil_parts [] (y ∷ ys) h = cc
append-nil_parts (x ∷ xs) ys h = cc

policy_violations-ok :
    (cfg : Config) (row : DetailRow) (id : ℕ) (e : Env) (w w' : World)
    → policy_violations cfg row id e w ≡ (ok [], w')
    → (w1 w2 : World) × (receipt_rule cfg row id e w ≡ (ok [], w1))
      × (limit_rule row id e w1 ≡ (ok [], w2))
      × (duplicate_rule row id e w2 ≡ (ok tt, w'))
unfolding policy_violations
policy_violations-ok cfg row id e w w' h =
    let k = λ (receipts : List Detail).
      λ (limits : List Detail). duplicate_rule row id >> pure (receipts ++ limits) in
    let (receipts, w1, ruled, rest) =
      >>=-ok (receipt_rule cfg row id) (λ ds. limit_rule row id >>= k ds) e w [] w' h in
    let (limits, w2, limited, rest') = >>=-ok (limit_rule row id) (k receipts) e w1 [] w' rest in
    let (u, w3, checked, last) =
      >>=-ok (duplicate_rule row id) (λ v. pure (receipts ++ limits)) e w2 [] w' rest' in
    let (no_receipts, no_limits) = append-nil_parts receipts limits (ground arith) in
    let same : w3 ≡ w' = ground arith in
    (w1, w2, rw no_receipts at ruled, rw no_limits at limited, rw same at checked)

choose_chain-ok :
    (cfg : Config) (row : DetailRow) (violations : List Detail) (e : Env) (w w' : World)
    (amount : Text) (chain : List Role)
    → choose_chain cfg row violations e w ≡ (ok (amount, chain), w')
    → (violations ≡ [])
      × (w' ≡ w)
      × (amount ≡ amount_text row)
      × (chain ≡ chain_for cfg row)
      × (chain ≢ [])
unfolding choose_chain
choose_chain-ok cfg row violations e w w' amount chain h =
    (ground arith, ground arith, ground arith, ground arith, ground arith)

-- What holds when the checks pass: of the claim that was read, and of the tables at that time.
pub record Checked (cfg : Config) (e : Env) (id : ℕ) (role : Role) (user_id : ℕ) (db : Db)
    (amount : Text) (chain : List Role) (row : DetailRow) : Type 0 where
  pub found : find? (has_id id) (scope_filter role user_id (base_query db)) ≡ some row
  pub owner : row.claim.employee_id ≡ user_id
  pub editable : can_transition row.claim.status submit ≡ true
  pub receipts :
      exceeds (amount_text row) cfg.receipt_threshold ≡ true → length (receipts_of id db) ≢ 0
  pub limits :
      (limit : Text)
      → limit_for row db ≡ some limit
      → exceeds (add_numeric (sum_text (month_claims e row id db)) (amount_text row)) limit ≡ false
  pub no_duplicates : duplicates row id db ≡ []
  pub same_amount : amount ≡ amount_text row
  pub same_chain : chain ≡ chain_for cfg row
  pub someone : chain ≢ []

insert_by-ne-nil :
    (r : Reimbursement) (rs : List Reimbursement)
    → insert_by (λ (x : Reimbursement). x.created_at) r rs ≢ []
insert_by-ne-nil r [] h = cc
insert_by-ne-nil r (x ∷ rs) h = ground arith

first_date-ne-nil :
    (date_text : ℕ → Text) (rs : List Reimbursement)
    → rs ≢ []
    → ((d : ℕ) → is_empty (date_text d) ≡ false)
    → is_empty (first_date date_text rs) ≡ true
    → ⊥
first_date-ne-nil date_text [] some_row printed h = some_row refl
first_date-ne-nil date_text (r ∷ rs) some_row printed h = cc (printed r.expense_date)

-- PostgreSQL prints no date as the empty text, so an empty answer means that no row was found.
first_date-nil :
    (date_text : ℕ → Text) (rs : List Reimbursement)
    → ((d : ℕ) → is_empty (date_text d) ≡ false)
    → is_empty (first_date date_text (sort_by (λ (r : Reimbursement). r.created_at) rs)) ≡ true
    → rs ≡ []
first_date-nil date_text [] printed h = refl
first_date-nil date_text (r ∷ rs) printed h = absurd (
    first_date-ne-nil date_text _
      (insert_by-ne-nil r (sort_by (λ (x : Reimbursement). x.created_at) rs)) printed h)

-- If no date prints as the empty text, a claim that passes Submit's checks is the caller's own
-- and editable, has its receipt, stays in the category limit, repeats no other claim and has an
-- approver.
pub check_submit-ok :
    (cfg : Config) (id : ℕ) (role : Role) (user_id : ℕ) (e : Env) (w w' : World) (amount : Text)
    (chain : List Role)
    → ((d : ℕ) → is_empty (e.date_text d) ≡ false)
    → check_submit cfg id role user_id e w ≡ (ok (amount, chain), w')
    → (w'.db ≡ w.db) × (row : DetailRow) × Checked cfg e id role user_id w.db amount chain row
unfolding check_submit
check_submit-ok cfg id role user_id e w w' amount chain printed h =
    let (row, w1, read, rest) =
      >>=-ok (read_submittable id role user_id)
        (λ r. policy_violations cfg r id >>= choose_chain cfg r) e w (amount, chain) w' h in
    let (violations, w2, ruled, chosen) =
      >>=-ok (policy_violations cfg row id) (choose_chain cfg row) e w1 (amount, chain) w' rest in
    let (none_found, same_world, same_amount, same_chain, someone) =
      choose_chain-ok cfg row violations e w2 w' amount chain chosen in
    let (w3, w4, receipt, limit, duplicate) =
      policy_violations-ok cfg row id e w1 w2 (rw none_found at ruled) in
    let (db1, found, owner, editable) = read_submittable-ok id role user_id e w w1 row read in
    let (db3, receipts) = receipt_rule-ok cfg row id e w1 w3 receipt in
    let (db4, limits) = limit_rule-ok row id e w3 w4 limit in
    let (db2, unprinted) = duplicate_rule-ok row id e w4 w2 duplicate in
    let e3 : w3.db ≡ w.db = db3 ∙ db1 in
    let e4 : w4.db ≡ w.db = db4 ∙ e3 in
    (
      ap (λ (x : World). x.db) same_world ∙ db2 ∙ e4,
      row,
      record {
        found = found;
        owner = owner;
        editable = editable;
        receipts = rw db1 at receipts;
        limits = rw e3 at limits;
        no_duplicates =
            first_date-nil e.date_text (duplicates row id w.db) printed (rw e4 at unprinted);
        same_amount = same_amount;
        same_chain = same_chain;
        someone = someone;
      },
    )

-- The checks change no table and end with a chain that is not empty.
pub check_submit-someone :
    (cfg : Config) (id : ℕ) (role : Role) (user_id : ℕ) (e : Env) (w w' : World) (amount : Text)
    (chain : List Role)
    → check_submit cfg id role user_id e w ≡ (ok (amount, chain), w')
    → chain ≢ []
unfolding check_submit
check_submit-someone cfg id role user_id e w w' amount chain h =
    let (row, w1, read, rest) =
      >>=-ok (read_submittable id role user_id)
        (λ r. policy_violations cfg r id >>= choose_chain cfg r) e w (amount, chain) w' h in
    let (violations, w2, ruled, chosen) =
      >>=-ok (policy_violations cfg row id) (choose_chain cfg row) e w1 (amount, chain) w' rest in
    let (none_found, same_world, same_amount, same_chain, someone) =
      choose_chain-ok cfg row violations e w2 w' amount chain chosen in
    someone
