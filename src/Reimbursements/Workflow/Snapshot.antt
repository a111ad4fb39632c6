-- ===== src/Reimbursements/Workflow/Snapshot.antt =====
-- The rows that a submission leaves in the approvals table: those of the claim, those of other
-- claims, and the key.
use mathlib.Core.List.{append-nil, append_assoc}
use reimbursement_system.Base.{
  ℕ, suc, ◌+◌, ◌≡◌, refl, ap, ◌∙◌, inl, inr, Bool, false, none, List, [], ◌∷◌, ◌++◌, arith, ◌==◌,
  Bool-cases, ==_refl, not, filter, find?, All, insert_by, sort_by, filter-append,
}
use reimbursement_system.Approval.{Role}
use reimbursement_system.Store.{ApprovalStep, Db, Env}
use reimbursement_system.Reimbursements.Repository.{steps_of}
use reimbursement_system.Reimbursements.Workflow.Steps.{delete_steps, new_step, step_clashes}
use reimbursement_system.Reimbursements.Workflow.Submit.{chain_steps, NoClash, with_steps}
use reimbursement_system.Reimbursements.Workflow.StepRows.{Distinct, of_claim}

All-filter :
    (P : ApprovalStep → Type 0) (p : ApprovalStep → Bool) (xs : List ApprovalStep)
    → All P xs
    → All P (filter p xs)
All-filter P p [] h = tt
All-filter P p (x ∷ xs) h = elim (Bool-cases (p x)) [
  | inl e ↦ rw e (h.0, All-filter P p xs h.1)
  | inr e ↦ rw e (All-filter P p xs h.1)
]

pub filter-Distinct :
    (p : ApprovalStep → Bool) (sts : List ApprovalStep) → Distinct sts → Distinct (filter p sts)
filter-Distinct p [] d = tt
filter-Distinct p (st ∷ sts) d = elim (Bool-cases (p st)) [
  | inl e ↦ rw e (All-filter _ p sts d.0, filter-Distinct p sts d.1)
  | inr e ↦ rw e (filter-Distinct p sts d.1)
]

abbrev by_number : List ApprovalStep → List ApprovalStep
by_number = sort_by (λ (s : ApprovalStep). s.step_number)

filter_deleted :
    (id : ℕ) (xs : List ApprovalStep)
    → filter (of_claim id) (filter (λ (st : ApprovalStep). not (st.reimbursement_id == id)) xs) ≡ []
filter_deleted id [] = refl
filter_deleted id (x ∷ xs) = ground (arith, filter_deleted id xs)

filter_kept :
    (j id : ℕ) (xs : List ApprovalStep)
    → (j == id) ≡ false
    → filter (of_claim j) (filter (λ (st : ApprovalStep). not (st.reimbursement_id == id)) xs)
      ≡ filter (of_claim j) xs
filter_kept j id [] h = refl
filter_kept j id (x ∷ xs) h = ground (arith, filter_kept j id xs h)

filter_new :
    (e : Env) (t id n : ℕ) (chain : List Role)
    → filter (of_claim id) (chain_steps e t id n chain) ≡ chain_steps e t id n chain
filter_new e t id n [] = refl
filter_new e t id n (r ∷ chain) = rw (==_refl id, filter_new e (t + 1) id (suc n) chain)

filter_new_other :
    (e : Env) (t j id n : ℕ) (chain : List Role)
    → (j == id) ≡ false
    → filter (of_claim j) (chain_steps e t id n chain) ≡ []
filter_new_other e t j id n [] h = refl
filter_new_other e t j id n (r ∷ chain) h =
    ground (arith, filter_new_other e (t + 1) j id (suc n) chain h)

insert_first :
    (e : Env) (t t' id n : ℕ) (r : Role) (chain : List Role)
    → insert_by
        (λ (s : ApprovalStep). s.step_number)
        (new_step e t id n r)
        (chain_steps e t' id (suc n) chain)
      ≡ new_step e t id n r ∷ chain_steps e t' id (suc n) chain
insert_first e t t' id n r [] = refl
insert_first e t t' id n r (x ∷ chain) = ground arith

by_number-chain_steps :
    (e : Env) (t id n : ℕ) (chain : List Role)
    → by_number (chain_steps e t id n chain) ≡ chain_steps e t id n chain
by_number-chain_steps e t id n [] = refl
by_number-chain_steps e t id n (r ∷ chain) =
    rw (by_number-chain_steps e (t + 1) id (suc n) chain) (insert_first e t (t + 1) id n r chain)

filter_snapshot :
    (e : Env) (t id : ℕ) (chain : List Role) (db : Db)
    → filter (of_claim id) ((delete_steps id db).approvals ++ chain_steps e t id 1 chain)
      ≡ chain_steps e t id 1 chain
filter_snapshot e t id chain db =
    filter-append (of_claim id) (delete_steps id db).approvals (chain_steps e t id 1 chain)
    ∙ ap (λ sts. sts ++ filter (of_claim id) (chain_steps e t id 1 chain))
        (filter_deleted id db.approvals)
    ∙ filter_new e t id 1 chain

filter_snapshot_other :
    (e : Env) (t j id : ℕ) (chain : List Role) (db : Db)
    → (j == id) ≡ false
    → filter (of_claim j) ((delete_steps id db).approvals ++ chain_steps e t id 1 chain)
      ≡ filter (of_claim j) db.approvals
filter_snapshot_other e t j id chain db h =
    filter-append (of_claim j) (delete_steps id db).approvals (chain_steps e t id 1 chain)
    ∙ ap (λ sts. filter (of_claim j) (delete_steps id db).approvals ++ sts)
        (filter_new_other e t j id 1 chain h)
    ∙ append-nil (filter (of_claim j) (delete_steps id db).approvals)
    ∙ filter_kept j id db.approvals h

-- The steps of the submitted claim are the rows of its chain, in order.
pub steps_of-snapshot :
    (e : Env) (t id : ℕ) (chain : List Role) (db : Db)
    → steps_of id (with_steps (delete_steps id db) (chain_steps e t id 1 chain))
      ≡ chain_steps e t id 1 chain
steps_of-snapshot e t id chain db =
    ap by_number (filter_snapshot e t id chain db) ∙ by_number-chain_steps e t id 1 chain

-- The steps of another claim are as they were.
pub steps_of-snapshot_other :
    (e : Env) (t j id : ℕ) (chain : List Role) (db : Db)
    → (j == id) ≡ false
    → steps_of j (with_steps (delete_steps id db) (chain_steps e t id 1 chain)) ≡ steps_of j db
steps_of-snapshot_other e t j id chain db h =
    ap by_number (filter_snapshot_other e t j id chain db h)

append-Distinct :
    (xs : List ApprovalStep) (st : ApprovalStep)
    → Distinct xs
    → find? (step_clashes st) xs ≡ none
    → Distinct (xs ++ st ∷ [])
append-Distinct [] st d h = (tt, tt)
append-Distinct (x ∷ xs) st d h =
    (go xs d.0 (ground arith), append-Distinct xs st d.1 (ground arith))
  where
    go :
        (ys : List ApprovalStep)
        → All (λ (y : ApprovalStep). (y.id == x.id) ≡ false) ys
        → (st.id == x.id) ≡ false
        → All (λ (y : ApprovalStep). (y.id == x.id) ≡ false) (ys ++ st ∷ [])
    go [] h k = (k, tt)
    go (y ∷ ys) h k = (h.0, go ys h.1 k)

-- An insert that meets no clash keeps the key.
pub chain-Distinct :
    (xs sts : List ApprovalStep) → Distinct xs → NoClash xs sts → Distinct (xs ++ sts)
chain-Distinct xs [] d h = rw (append-nil xs) d
chain-Distinct xs (st ∷ sts) d h =
    rw (← append_assoc xs (st ∷ []) sts)
      (chain-Distinct (xs ++ st ∷ []) sts (append-Distinct xs st d h.0) h.1)
