-- ===== src/Reimbursements/Workflow/Fits.antt =====
-- How a claim and its approval steps belong together, before and after a decision of workflow.go.
use reimbursement_system.Base.{
  ℕ, zero, suc, ◌<◌, ◌≡◌, refl, ◌≢◌, sym, subst, inl, inr, ◌⊎◌, false, some, List, [], ◌∷◌, arith,
  ◌==◌, Bool-cases, ==_iff, ==_refl, map, get_elem?, length, length-map, All, get_elem?-MemIn, Text,
}
use reimbursement_system.Approval.{
  submitted, approved, paid, StepStatus, step_approved, next_pending_index,
}
use reimbursement_system.Approval.Sequence.{IsSequential, next_pending_index-sequential}
use reimbursement_system.Store.{Reimbursement, ApprovalStep}
use reimbursement_system.Reimbursements.Workflow.Steps.{
  Decision, approve_step, reject_step, pending_step,
}
use reimbursement_system.Reimbursements.Workflow.Decide.{mark, advance}
use reimbursement_system.Reimbursements.Workflow.StepRows.{
  Distinct, change, KeepsKeys, fresh_differs,
}

abbrev pub statuses : List ApprovalStep → List StepStatus
statuses steps = map (λ st. st.status) steps

-- A SUBMITTED claim has its first steps approved and waits for the next one, which current_step
-- names; an APPROVED or PAID one has every step approved, and at least one; and no step was ever
-- decided by the owner of the claim.
pub record Fits (steps : List ApprovalStep) (r : Reimbursement) : Type 0 where
  pub waiting :
      r.status ≡ submitted
      → (k : ℕ) × IsSequential k (statuses steps) × (k < length steps) × (r.current_step ≡ suc k)
  pub settled :
      (r.status ≡ approved) ⊎ (r.status ≡ paid)
      → IsSequential (length steps) (statuses steps) × (0 < length steps)
  pub by_others : All (λ (st : ApprovalStep). st.approver_id ≢ some r.employee_id) steps

pub pending_step_parts :
    (steps : List ApprovalStep) (idx : ℕ) (st : ApprovalStep)
    → pending_step steps ≡ some (idx, st)
    → (next_pending_index (statuses steps) ≡ some idx) × (get_elem? steps idx ≡ some st)
pending_step_parts steps idx st h = ground arith

pub mark-KeepsKeys :
    (d : Decision) (user_id : ℕ) (note : Text) (now : ℕ) → KeepsKeys (mark d user_id note now)
mark-KeepsKeys approve_step user_id note now = record {
  same_id = λ st. refl;
  same_claim = λ st. refl;
  same_number = λ st. refl;
}
mark-KeepsKeys reject_step user_id note now = record {
  same_id = λ st. refl;
  same_claim = λ st. refl;
  same_number = λ st. refl;
}

change_others :
    (f : ApprovalStep → ApprovalStep) (x : ApprovalStep) (xs : List ApprovalStep)
    → All (λ (y : ApprovalStep). (y.id == x.id) ≡ false) xs
    → map (change x.id f) xs ≡ xs
change_others f x [] h = refl
change_others f x (y ∷ xs) h = rw (h.0, change_others f x xs h.1)

-- Approving the first pending step makes one more step approved.
pub approve-IsSequential :
    (f : ApprovalStep → ApprovalStep) (k : ℕ) (steps : List ApprovalStep) (st : ApprovalStep)
    → ((s : ApprovalStep) → (f s).status ≡ step_approved)
    → Distinct steps
    → get_elem? steps k ≡ some st
    → IsSequential k (statuses steps)
    → IsSequential (suc k) (statuses (map (change st.id f) steps))
approve-IsSequential f k [] st appr d h s = cc
approve-IsSequential f zero (x ∷ steps) st appr d h s =
    let e : x ≡ st = ground arith in
    subst (λ (y : ApprovalStep). IsSequential 1 (statuses (map (change y.id f) (x ∷ steps)))) e
      (
        rw (==_refl x.id) (appr x),
        subst (λ ys. IsSequential zero (statuses ys)) (sym (change_others f x steps d.0)) s.1,
      )
approve-IsSequential f (suc k) (x ∷ steps) st appr d h s = elim (Bool-cases (x.id == st.id)) [
  | inl same ↦
      absurd
        (fresh_differs steps x st d.0 (get_elem?-MemIn steps k st h) (sym ((==_iff _ _).0 same)))
  | inr other ↦ rw other (s.0, approve-IsSequential f k steps st appr d.1 h s.1)
]

decide-by_others :
    (d : Decision) (user_id : ℕ) (note : Text) (now sid owner : ℕ) (steps : List ApprovalStep)
    → user_id ≢ owner
    → All (λ (st : ApprovalStep). st.approver_id ≢ some owner) steps
    → All
        (λ (st : ApprovalStep). st.approver_id ≢ some owner)
        (map (change sid (mark d user_id note now)) steps)
decide-by_others d user_id note now sid owner [] ne h = tt
decide-by_others approve_step user_id note now sid owner (x ∷ steps) ne h =
    (ground (arith, h.0), decide-by_others approve_step user_id note now sid owner steps ne h.1)
decide-by_others reject_step user_id note now sid owner (x ∷ steps) ne h =
    (ground (arith, h.0), decide-by_others reject_step user_id note now sid owner steps ne h.1)

-- A decision on the waiting step keeps claim and steps together.
pub decide-Fits :
    (d : Decision) (user_id : ℕ) (note : Text) (now idx : ℕ) (st : ApprovalStep)
    (steps : List ApprovalStep) (r : Reimbursement)
    → Distinct steps
    → Fits steps r
    → r.status ≡ submitted
    → pending_step steps ≡ some (idx, st)
    → user_id ≢ r.employee_id
    → Fits (map (change st.id (mark d user_id note now)) steps) (advance d idx (length steps) now r)
decide-Fits approve_step user_id note now idx st steps r d fits sub turn ne =
    let (k, sequential, below, current) = fits.waiting sub in
    let (found, at_idx) = pending_step_parts steps idx st turn in
    let same : idx ≡ k =
      ground (
        arith,
        next_pending_index-sequential k (statuses steps) sequential (rw length-map below),
      ) in
    let f = mark approve_step user_id note now in
    let steps' = map (change st.id f) steps in
    let longer : length steps' ≡ length steps = length-map (change st.id f) steps in
    let next : IsSequential (suc idx) (statuses steps') =
      approve-IsSequential f idx steps st (λ s. refl) d at_idx (rw same sequential) in
    elim (Bool-cases (suc idx == length steps)) [
      | inl last ↦ rw last (record {
        waiting = λ h. cc;
        settled = λ h. (rw longer (rw (← (==_iff _ _).0 last) (next, omega arith)));
        by_others =
            decide-by_others approve_step user_id note now st.id r.employee_id steps ne
              fits.by_others;
      })
      | inr more ↦ rw more (record {
        waiting = λ h. (suc idx, next, rw longer (ground arith), omega arith);
        settled = λ h. ground arith;
        by_others =
            decide-by_others approve_step user_id note now st.id r.employee_id steps ne
              fits.by_others;
      })
    ]
decide-Fits reject_step user_id note now idx st steps r d fits sub turn ne = record {
  waiting = λ h. cc;
  settled = λ h. ground arith;
  by_others =
      decide-by_others reject_step user_id note now st.id r.employee_id steps ne fits.by_others;
}

-- The steps of a settled claim are all approved, and none by the owner.
pub settled-Fits :
    (steps : List ApprovalStep) (r : Reimbursement)
    → Fits steps r
    → (r.status ≡ approved) ⊎ (r.status ≡ paid)
    → (0 < length steps)
      × All
          (λ (st : ApprovalStep).
            (st.status ≡ step_approved) × (st.approver_id ≢ some r.employee_id))
          steps
settled-Fits steps r fits settled =
    let (sequential, some_step) = fits.settled settled in
    (some_step, go steps sequential fits.by_others)
  where
    go :
        (steps : List ApprovalStep)
        → IsSequential (length steps) (statuses steps)
        → All (λ (st : ApprovalStep). st.approver_id ≢ some r.employee_id) steps
        → All
            (λ (st : ApprovalStep).
              (st.status ≡ step_approved) × (st.approver_id ≢ some r.employee_id))
            steps
    go [] s h = tt
    go (st ∷ steps) s h = ((s.0, h.0), go steps s.1 h.1)
