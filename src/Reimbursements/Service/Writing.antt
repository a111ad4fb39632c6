-- ===== src/Reimbursements/Service/Writing.antt =====
-- What the transactions of Create and Update in service.go write.
use mathlib.Core.List.{append-nil, append_assoc}
use reimbursement_system.Base.{
  ℕ, ◌+◌, ◌≡◌, sym, ap, ◌∙◌, true, none, List, [], ◌∷◌, ◌++◌, ◌==◌, arith, All, find?,
}
use reimbursement_system.Approval.{Role}
use reimbursement_system.Store.{
  Reimbursement, ItemRow, Db, Env, World, ok, M, ◌>>=◌, ◌>>◌, ask, statement, begun, KeepsDb,
  >>=-ok,
}
use reimbursement_system.Reimbursements.Repository.{
  get_detail, items, attachments, approvals_for, ensure_active_category, update_claim,
}
use reimbursement_system.Reimbursements.Repository.Writes.{
  ItemRequest, item_checks, insert_items, claim_total, recalc_amount, new_claim, add_claim,
}
use reimbursement_system.Reimbursements.Repository.Detail.{read_detail}
use reimbursement_system.Reimbursements.Service.{
  CreateRequest, validate_expense_date, service_detail, check_request,
}

-- The rows that the items of a request become, from the statement t on.
abbrev pub new_items : Env → ℕ → ℕ → List ItemRequest → List ItemRow
new_items e t id [] = []
new_items e t id (it ∷ its) =
    record {
      id = e.fresh_id t;
      reimbursement_id = id;
      description = it.description;
      quantity = it.quantity;
      unit_price = it.unit_price;
      created_at = e.now;
    }
    ∷ new_items e (t + 1) id its

abbrev pub with_items : Db → List ItemRow → Db
with_items db rows = record db { items = db.items ++ rows }

insert_items_cons :
    (e : Env) (id : ℕ) (it : ItemRequest) (its : List ItemRequest) (w w' : World)
    → insert_items id (it ∷ its) e w ≡ (ok tt, w')
    → (item_checks it ≡ true)
      × (insert_items id its e
            (record w { db = with_items w.db (new_items e w.tick id (it ∷ [])); tick = w.tick + 1 })
          ≡ (ok tt, w'))
unfolding insert_items statement
insert_items_cons e id it its w w' h = (ground arith, ground arith)

-- The loop of insertItems: every item passed the checks and was appended.
insert_items-ok :
    (e : Env) (id : ℕ) (its : List ItemRequest) (w w' : World)
    → insert_items id its e w ≡ (ok tt, w')
    → All (λ it. item_checks it ≡ true) its × (w'.db ≡ with_items w.db (new_items e w.tick id its))
unfolding insert_items
insert_items-ok e id [] w w' h =
    let same : w'.db ≡ w.db = ground arith in
    (tt, same ∙ ap (λ rows. record w.db { items = rows }) (sym (append-nil w.db.items)))
insert_items-ok e id (it ∷ its) w w' h =
    let (checked, rest) = insert_items_cons e id it its w w' h in
    let row = new_items e w.tick id (it ∷ []) in
    let (others, written) =
      insert_items-ok e id its (record w { db = with_items w.db row; tick = w.tick + 1 }) w' rest in
    (
      (checked, others),
      written
          ∙ ap (λ rows. record w.db { items = rows })
              (append_assoc w.db.items row (new_items e (w.tick + 1) id its)),
    )

abbrev pub set_amount : ℕ → ℕ → Reimbursement → Reimbursement
set_amount now amount r = record r { amount = amount; updated_at = now }

-- The header amount set to the total of the claim's items.
abbrev pub recalculated : ℕ → ℕ → Db → Db
recalculated now id db = update_claim id (set_amount now (claim_total id db)) db

recalc_amount-ok :
    (id : ℕ) (e : Env) (w w' : World)
    → recalc_amount id e w ≡ (ok tt, w')
    → w'.db ≡ recalculated e.now id w.db
unfolding recalc_amount statement
recalc_amount-ok id e w w' h = ground arith

-- The end of both transactions.
pub finish-ok :
    (id : ℕ) (its : List ItemRequest) (e : Env) (w w' : World)
    → (insert_items id its >> recalc_amount id) e w ≡ (ok tt, w')
    → All (λ it. item_checks it ≡ true) its
      × (w'.db ≡ recalculated e.now id (with_items w.db (new_items e w.tick id its)))
finish-ok id its e w w' h =
    let (u, w1, inserted, rest) =
      >>=-ok (insert_items id its) (λ u. recalc_amount id) e w tt w' h in
    let (checked, written) = insert_items-ok e id its w w1 inserted in
    (checked, rw written at (recalc_amount-ok id e w1 w' rest))

-- What a completed Create writes: a draft of the caller, its items, and their total.
pub record Created (e : Env) (t id user_id : ℕ) (req : CreateRequest) (date cat : ℕ) (db db' : Db)
    : Type 0 where
  pub fresh : find? (λ (x : Reimbursement). x.id == id) db.reimbursements ≡ none
  pub checked : All (λ it. item_checks it ≡ true) req.items
  pub written :
      db'
      ≡ recalculated e.now id (
          with_items
            (record db {
              reimbursements =
                  db.reimbursements
                  ++ new_claim e id user_id cat req.title req.description date ∷ [];
            })
            (new_items e t id req.items))

abbrev pub create_body : ℕ → ℕ → ℕ → ℕ → CreateRequest → M (Unit {0})
create_body id user_id cat date req = do
  r ← ask (λ e. new_claim e id user_id cat req.title req.description date)
  statement (add_claim r)
  insert_items id req.items
  recalc_amount id

create_body_split :
    (id user_id cat date : ℕ) (req : CreateRequest) (e : Env) (w w' : World)
    → create_body id user_id cat date req e (begun w) ≡ (ok tt, w')
    → let r = new_claim e id user_id cat req.title req.description date in
      (find? (λ (x : Reimbursement). x.id == id) w.db.reimbursements ≡ none)
      × ((insert_items id req.items >> recalc_amount id) e (record (begun w) {
        db = record w.db { reimbursements = w.db.reimbursements ++ r ∷ [] };
        tick = w.tick + 1 + 1;
      })
          ≡ (ok tt, w'))
unfolding statement
create_body_split id user_id cat date req e w w' h = (ground arith, ground arith)

pub create_body-ok :
    (id user_id cat date : ℕ) (req : CreateRequest) (e : Env) (w w' : World)
    → create_body id user_id cat date req e (begun w) ≡ (ok tt, w')
    → Created e (w.tick + 1 + 1) id user_id req date cat w.db w'.db
create_body-ok id user_id cat date req e w w' h =
    let (fresh, rest) = create_body_split id user_id cat date req e w w' h in
    let r = new_claim e id user_id cat req.title req.description date in
    let (checked, written) =
      finish-ok id req.items e
        (record (begun w) {
          db = record w.db { reimbursements = w.db.reimbursements ++ r ∷ [] };
          tick = w.tick + 1 + 1;
        })
        w' rest in
    record { fresh = fresh; checked = checked; written = written }

pub service_detail-db :
    (id : ℕ) (role : Role) (user_id : ℕ) → KeepsDb (service_detail id role user_id)
unfolding service_detail get_detail read_detail items attachments approvals_for statement
service_detail-db id role user_id e w = ground arith

pub check_request-db : (req : CreateRequest) → KeepsDb (check_request req)
unfolding check_request validate_expense_date ensure_active_category statement
check_request-db req e w = ground arith
