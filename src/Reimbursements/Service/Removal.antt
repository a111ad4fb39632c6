-- ===== src/Reimbursements/Service/Removal.antt =====
-- Delete of service.go as a whole.
use reimbursement_system.Base.{ℕ, ◌≡◌, ap, ◌∙◌, inl, inr, ◌⊎◌, ◌||◌, some, arith, find?, Bool-cases}
use reimbursement_system.Approval.{draft, Role}
use reimbursement_system.Store.{
  Reimbursement, Env, World, ok, is_aborted, map_err, statement, KeepsDb, >>=-cases,
}
use reimbursement_system.AppErr.{internal_err}
use reimbursement_system.Reimbursements.Scope.{DetailRow, base_query, scope_filter}
use reimbursement_system.Reimbursements.Repository.{get_detail, has_id, update_claim}
use reimbursement_system.Reimbursements.Repository.Writes.{soft_delete}
use reimbursement_system.Reimbursements.Workflow.Outcomes.{Refused}
use reimbursement_system.Reimbursements.Service.{read_deletable, delete}

pub read_deletable-db :
    (id : ℕ) (role : Role) (user_id : ℕ) → KeepsDb (read_deletable id role user_id)
unfolding read_deletable get_detail statement
read_deletable-db id role user_id e w = ground arith

read_deletable-ok :
    (id : ℕ) (role : Role) (user_id : ℕ) (e : Env) (w w' : World) (row : DetailRow)
    → read_deletable id role user_id e w ≡ (ok row, w')
    → (find? (has_id id) (scope_filter role user_id (base_query w.db)) ≡ some row)
      × (row.claim.employee_id ≡ user_id)
      × (row.claim.status ≡ draft)
unfolding read_deletable get_detail statement
read_deletable-ok id role user_id e w w' row h = (ground arith, ground arith, ground arith)

abbrev pub mark_deleted : ℕ → Reimbursement → Reimbursement
mark_deleted now r = record r { deleted_at = some now }

pub soft_delete-cases :
    (id : ℕ) (e : Env) (w : World)
    → Refused w.db (map_err internal_err (soft_delete id) e w)
      ⊎ ((map_err internal_err (soft_delete id) e w).1.db
          ≡ update_claim id (mark_deleted e.now) w.db)
unfolding soft_delete statement
soft_delete-cases id e w = elim (Bool-cases (is_aborted w.tx || e.fails w.tick)) [
  | inl failed ↦ inl (ground arith, ground arith)
  | inr ran ↦ inr (ground arith)
]

-- Delete is refused and changes no table, or the claim read was the caller's own and DRAFT, and
-- it is marked as deleted.
pub delete_outcome :
    (id : ℕ) (role : Role) (user_id : ℕ) (e : Env) (w : World)
    → Refused w.db (delete id role user_id e w)
      ⊎ ((row : DetailRow) × (find? (has_id id) (scope_filter role user_id (base_query w.db))
            ≡ some row)
          × (row.claim.employee_id ≡ user_id)
          × (row.claim.status ≡ draft)
          × ((delete id role user_id e w).1.db ≡ update_claim id (mark_deleted e.now) w.db))
unfolding delete
delete_outcome id role user_id e w =
    elim (>>=-cases (read_deletable id role user_id) (λ row. map_err internal_err (soft_delete id))
      (read_deletable-db id role user_id) e w) [
        | inl refused ↦ inl refused
        | inr (row, read, same, goes_on) ↦
            let w1 = (read_deletable id role user_id e w).1 in
            let (found, owner, is_draft) = read_deletable-ok id role user_id e w w1 row read in
            rw goes_on (elim (soft_delete-cases id e w1) [
              | inl (failed, left) ↦ inl (failed, left ∙ same)
              | inr written ↦ inr (
                row,
                found,
                owner,
                is_draft,
                written ∙ ap (update_claim id (mark_deleted e.now)) same,
              )
            ])
      ]
