-- ===== src/Reimbursements/Service/Outcomes.antt =====
-- Create, Update and Delete of service.go as a whole.
use reimbursement_system.Base.{
  ℕ, ◌+◌, ◌≡◌, ap, subst, ◌∙◌, inl, inr, ◌⊎◌, true, some, arith, All, find?,
}
use reimbursement_system.Approval.{draft, rejected, Role, admin}
use reimbursement_system.Store.{
  Db, Env, World, ok, M, ◌>>=◌, ◌>>◌, ask, exec, statement, new_uuid, begun, KeepsDb, >>=-cases,
  plain-cases,
}
use reimbursement_system.Reimbursements.Scope.{DetailRow, base_query, scope_filter}
use reimbursement_system.Reimbursements.Repository.{get_detail, has_id, update_claim}
use reimbursement_system.Reimbursements.Repository.Writes.{
  item_checks, insert_items, recalc_amount, create_claim, edit_claim, edit_row, delete_items,
  update_claim_items,
}
use reimbursement_system.Reimbursements.Workflow.Outcomes.{Refused}
use reimbursement_system.Reimbursements.Service.{
  CreateRequest, service_detail, check_request, create, read_editable, update,
}
use reimbursement_system.Reimbursements.Service.Writing.{
  new_items, with_items, recalculated, finish-ok, Created, create_body, create_body-ok,
  service_detail-db, check_request-db,
}

pub write_new-cases :
    (id user_id cat date : ℕ) (req : CreateRequest) (e : Env) (w : World)
    → let out =
        (create_claim id user_id cat req.title req.description date req.items
            >> service_detail id admin user_id)
          e w in
      Refused w.db out ⊎ Created e (w.tick + 1 + 1) id user_id req date cat w.db out.1.db
unfolding create_claim
write_new-cases id user_id cat date req e w =
    elim (plain-cases (create_body id user_id cat date req) (λ u. service_detail id admin user_id)
      (λ u. service_detail-db id admin user_id) e w) [
        | inl refused ↦ inl refused
        | inr (u, w', done, same) ↦
            inr (rw same (create_body-ok id user_id cat date req e w w' done.returned))
      ]

restart :
    (e : Env) (t id user_id : ℕ) (req : CreateRequest) (date cat : ℕ) (db1 db db' : Db)
    → db1 ≡ db
    → Created e t id user_id req date cat db1 db'
    → Created e t id user_id req date cat db db'
restart e t id user_id req date cat db1 db db' same h =
    subst (λ d. Created e t id user_id req date cat d db') same h

-- Create is refused and changes no table, or it adds one draft of the caller under an unused id
-- with the request's checked items and their total.
pub create_outcome :
    (req : CreateRequest) (user_id : ℕ) (e : Env) (w : World)
    → Refused w.db (create req user_id e w)
      ⊎ ((t id date cat : ℕ) × Created e t id user_id req date cat w.db
            (create req user_id e w).1.db)
unfolding create
create_outcome req user_id e w =
    elim (>>=-cases (check_request req)
      (λ p. new_uuid >>= λ id.
        create_claim id user_id p.1 req.title req.description p.0 req.items
        >> service_detail id admin user_id)
      (check_request-db req) e w) [
        | inl refused ↦ inl refused
        | inr ((date, cat), passed, same, goes_on) ↦
            let w1 = (check_request req e w).1 in
            let w2 = (new_uuid e w1).1 in
            let id = e.fresh_id w1.tick in
            rw goes_on (elim (write_new-cases id user_id cat date req e w2) [
              | inl (failed, left) ↦ inl (failed, left ∙ same)
              | inr created ↦ inr (
                w2.tick + 1 + 1,
                id,
                date,
                cat,
                restart e _ id user_id req date cat _ _ _ same created,
              )
            ])
      ]

abbrev update_body : ℕ → ℕ → ℕ → CreateRequest → M (Unit {0})
update_body id cat date req = do
  edit ← ask (λ e. edit_claim e cat req.title req.description date)
  statement (edit_row id cat edit)
  exec (delete_items id)
  insert_items id req.items
  recalc_amount id

-- The tables with the header edited and the items gone.
abbrev pub cleared : Env → ℕ → CreateRequest → ℕ → ℕ → Db → Db
cleared e id req date cat db =
    delete_items id (update_claim id (edit_claim e cat req.title req.description date) db)

update_body_split :
    (id cat date : ℕ) (req : CreateRequest) (e : Env) (w w' : World)
    → update_body id cat date req e (begun w) ≡ (ok tt, w')
    → (insert_items id req.items >> recalc_amount id) e
        (record (begun w) { db = cleared e id req date cat w.db; tick = w.tick + 1 + 1 + 1 })
      ≡ (ok tt, w')
unfolding statement
update_body_split id cat date req e w w' h = ground arith

-- What a completed Update writes on the claim that it read: the header, the items, their total.
pub record Updated (e : Env) (t id : ℕ) (role : Role) (user_id : ℕ) (req : CreateRequest)
    (date cat : ℕ) (row : DetailRow) (db db' : Db) : Type 0 where
  pub found : find? (has_id id) (scope_filter role user_id (base_query db)) ≡ some row
  pub owner : row.claim.employee_id ≡ user_id
  pub editable : (row.claim.status ≡ draft) ⊎ (row.claim.status ≡ rejected)
  pub checked : All (λ it. item_checks it ≡ true) req.items
  pub written :
      db'
      ≡ recalculated e.now id
          (with_items (cleared e id req date cat db) (new_items e t id req.items))

pub read_editable-db :
    (id : ℕ) (role : Role) (user_id : ℕ) → KeepsDb (read_editable id role user_id)
unfolding read_editable get_detail statement
read_editable-db id role user_id e w = ground arith

read_editable-ok :
    (id : ℕ) (role : Role) (user_id : ℕ) (e : Env) (w w' : World) (row : DetailRow)
    → read_editable id role user_id e w ≡ (ok row, w')
    → (find? (has_id id) (scope_filter role user_id (base_query w.db)) ≡ some row)
      × (row.claim.employee_id ≡ user_id)
      × ((row.claim.status ≡ draft) ⊎ (row.claim.status ≡ rejected))
unfolding read_editable get_detail statement
read_editable-ok id role user_id e w w' row h = (ground arith, ground arith, ground arith)

pub rewrite-cases :
    (id user_id cat date : ℕ) (req : CreateRequest) (e : Env) (w : World)
    → let out =
        (update_claim_items id cat req.title req.description date req.items
            >> service_detail id admin user_id)
          e w in
      Refused w.db out
      ⊎ (All (λ it. item_checks it ≡ true) req.items
          × (out.1.db
              ≡ recalculated e.now id (
                  with_items
                    (cleared e id req date cat w.db)
                    (new_items e (w.tick + 1 + 1 + 1) id req.items))))
unfolding update_claim_items
rewrite-cases id user_id cat date req e w =
    elim (plain-cases (update_body id cat date req) (λ u. service_detail id admin user_id)
      (λ u. service_detail-db id admin user_id) e w) [
        | inl refused ↦ inl refused
        | inr (u, w', done, same) ↦
            let (checked, written) =
              finish-ok id req.items e
                (record (begun w) {
                  db = cleared e id req date cat w.db;
                  tick = w.tick + 1 + 1 + 1;
                })
                w' (update_body_split id cat date req e w w' done.returned) in
            inr (checked, same ∙ written)
      ]

edit_tail-cases :
    (id : ℕ) (req : CreateRequest) (user_id : ℕ) (e : Env) (w : World)
    → let out =
        (check_request req >>= λ p.
        update_claim_items id p.1 req.title req.description p.0 req.items
        >> service_detail id admin user_id)
          e w in
      Refused w.db out
      ⊎ ((t date cat : ℕ) × All (λ it. item_checks it ≡ true) req.items
          × (out.1.db
              ≡ recalculated e.now id
                  (with_items (cleared e id req date cat w.db) (new_items e t id req.items))))
edit_tail-cases id req user_id e w =
    elim (>>=-cases (check_request req)
      (λ p.
        update_claim_items id p.1 req.title req.description p.0 req.items
        >> service_detail id admin user_id)
      (check_request-db req) e w) [
        | inl refused ↦ inl refused
        | inr ((date, cat), passed, same, goes_on) ↦
            let w1 = (check_request req e w).1 in
            rw goes_on (elim (rewrite-cases id user_id cat date req e w1) [
              | inl (failed, left) ↦ inl (failed, left ∙ same)
              | inr (checked, written) ↦ inr (
                w1.tick + 1 + 1 + 1,
                date,
                cat,
                checked,
                written
                    ∙ ap
                        (λ db. recalculated e.now id (
                          with_items (cleared e id req date cat db)
                            (new_items e (w1.tick + 1 + 1 + 1) id req.items)))
                        same,
              )
            ])
      ]

-- Update is refused and changes no table, or the claim read was the caller's own and DRAFT or
-- REJECTED, and its header, items and total are replaced.
pub update_outcome :
    (id : ℕ) (req : CreateRequest) (role : Role) (user_id : ℕ) (e : Env) (w : World)
    → Refused w.db (update id req role user_id e w)
      ⊎ ((t date cat : ℕ) × (row : DetailRow) × Updated e t id role user_id req date cat row w.db
            (update id req role user_id e w).1.db)
unfolding update
update_outcome id req role user_id e w =
    elim (>>=-cases (read_editable id role user_id)
      (λ row. check_request req >>= λ p.
        update_claim_items id p.1 req.title req.description p.0 req.items
        >> service_detail id admin user_id)
      (read_editable-db id role user_id) e w) [
        | inl refused ↦ inl refused
        | inr (row, read, same, goes_on) ↦
            let w1 = (read_editable id role user_id e w).1 in
            let (found, owner, editable) = read_editable-ok id role user_id e w w1 row read in
            rw goes_on (elim (edit_tail-cases id req user_id e w1) [
              | inl (failed, left) ↦ inl (failed, left ∙ same)
              | inr (t, date, cat, checked, written) ↦ inr (
                t,
                date,
                cat,
                row,
                record {
                  found = found;
                  owner = owner;
                  editable = editable;
                  checked = checked;
                  written =
                      written
                      ∙ ap
                          (λ db. recalculated e.now id (
                            with_items (cleared e id req date cat db) (new_items e t id req.items)))
                          same;
                },
              )
            ])
      ]
