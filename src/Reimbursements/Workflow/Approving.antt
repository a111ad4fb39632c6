-- ===== src/Reimbursements/Workflow/Approving.antt =====
-- The approvers of a SUBMITTED claim, one after another.
use reimbursement_system.Base.{
  ℕ, zero, suc, ◌+◌, ◌<◌, ◌≡◌, ◌≢◌, refl, sym, ap, subst, ◌∙◌, inl, inr, ◌⊎◌, false, true, none,
  some, List, [], ◌∷◌, arith, ◌==◌, Bool-cases, ==_iff, ==_refl, length, length-map, map, All,
  get_elem?,
}
use reimbursement_system.Approval.{submitted, approved, Role, manager, role_eq, next_pending_index}
use reimbursement_system.Approval.Chain.{role_eq_refl}
use reimbursement_system.Approval.Sequence.{IsSequential, next_pending_index-sequential}
use reimbursement_system.Store.{Reimbursement, ApprovalStep, Db, Env, World}
use reimbursement_system.Reimbursements.Repository.{find_claim, steps_of}
use reimbursement_system.Reimbursements.Workflow.Actions.{approve_action, decide}
use reimbursement_system.Reimbursements.Workflow.Steps.{approve_step, pending_step}
use reimbursement_system.Reimbursements.Workflow.Decide.{mark, advance, Decided}
use reimbursement_system.Reimbursements.Workflow.Lifecycle.{find_claim-update, advance_keeps}
use reimbursement_system.Reimbursements.Workflow.StepRows.{change, steps_of-update}
use reimbursement_system.Reimbursements.Workflow.Fits.{statuses, mark-KeepsKeys}
use reimbursement_system.Reimbursements.Workflow.Invariant.{Invariant, Decided-Invariant}
use reimbursement_system.Reimbursements.Workflow.Liveness.{NoFailure, decide-calm}
use reimbursement_system.Reimbursements.Effects.Phases.{count_approved, count_approved-sequential}

-- The role that the pending step asks for.
abbrev pub turn_role : ℕ → Db → Role
turn_role id db = elim (pending_step (steps_of id db)) [
  | none ↦ manager
  | some turn ↦ turn.1.approver_role
]

-- Each user in turn approves, with the role that the claim waits for.
unfoldable pub approve_all : ℕ → List (ℕ × Env) → World → World
approve_all id [] w = w
approve_all id ((user_id, e) ∷ votes) w =
    approve_all id votes (approve_action id (turn_role id w.db) user_id e w).1

some_elem :
    (steps : List ApprovalStep) (k : ℕ)
    → k < length steps
    → (st : ApprovalStep) × (get_elem? steps k ≡ some st)
some_elem [] k h = absurd (omega arith)
some_elem (st ∷ steps) zero h = (st, refl)
some_elem (st ∷ steps) (suc k) h = some_elem steps k (omega arith)

pending-some :
    (steps : List ApprovalStep) (k : ℕ)
    → IsSequential k (statuses steps)
    → k < length steps
    → (st : ApprovalStep) × (pending_step steps ≡ some (k, st))
pending-some steps k sequential below =
    let (st, here) = some_elem steps k below in
    let turn : next_pending_index (statuses steps) ≡ some k =
      next_pending_index-sequential k (statuses steps) sequential
        (subst (λ n. k < n) (sym (length-map (λ (s : ApprovalStep). s.status) steps)) below) in
    (st, ground (arith, turn, here))

-- The claim after one more approval.
record Voted (id k : ℕ) (r : Reimbursement) (db db' : Db) : Type 0 where
  inv : Invariant db'
  after : Reimbursement
  found : find_claim id db' ≡ some after
  same_owner : after.employee_id ≡ r.employee_id
  same_length : length (steps_of id db') ≡ length (steps_of id db)
  progress :
      ((suc k ≡ length (steps_of id db)) × (after.status ≡ approved))
      ⊎ ((after.status ≡ submitted) × (count_approved (statuses (steps_of id db')) ≡ suc k))

Decided-Voted :
    (e : Env) (id : ℕ) (role : Role) (user_id : ℕ) (db db' : Db) (r : Reimbursement) (k : ℕ)
    (st : ApprovalStep)
    → Decided approve_step e id role user_id [] db db' r k st
    → Invariant db
    → Voted id k r db db'
Decided-Voted e id role user_id db db' r k st done inv =
    let steps = steps_of id db in
    let count = length steps in
    let f = mark approve_step user_id [] e.now in
    let inv' = Decided-Invariant approve_step e id role user_id [] db db' r k st done inv in
    let after = advance approve_step k count e.now r in
    let here : find_claim id db' ≡ some after = rw done.written (
      find_claim-update id id (advance approve_step k count e.now) db
        (λ x. (advance_keeps approve_step k count e.now x).0)
        (λ x. (advance_keeps approve_step k count e.now x).1)
      ∙ rw (==_refl id, done.found)) in
    let rows : steps_of id db' ≡ map (change st.id f) steps =
      rw done.written
        (steps_of-update id st.id f db (mark-KeepsKeys approve_step user_id [] e.now)) in
    let fits = inv'.fits id after here in
    record {
      inv = inv';
      after = after;
      found = here;
      same_owner = ground arith;
      same_length =
          ap (λ (ss : List ApprovalStep). length ss) rows ∙ length-map (change st.id f) steps;
      progress = elim (Bool-cases (suc k == count)) [
        | inl last ↦ inl ((==_iff _ _).0 last, rw last refl)
        | inr more ↦
            let sub : after.status ≡ submitted = rw more done.waiting in
            let (k', sequential, below, current) = fits.waiting sub in
            let step : after.current_step ≡ k + 2 = rw more refl in
            inr (
              sub,
              count_approved-sequential k' (statuses (steps_of id db')) sequential
                  ∙ omega (arith, current, step),
            )
      ];
    }

vote_at :
    (id user_id k : ℕ) (e : Env) (w : World) (r : Reimbursement) (st : ApprovalStep)
    → NoFailure e
    → Invariant w.db
    → find_claim id w.db ≡ some r
    → r.status ≡ submitted
    → pending_step (steps_of id w.db) ≡ some (k, st)
    → user_id ≢ r.employee_id
    → Voted id k r w.db (approve_action id (turn_role id w.db) user_id e w).1.db
unfolding approve_action
vote_at id user_id k e w r st calm inv here sub turn ne =
    let role = turn_role id w.db in
    let has_role : role_eq st.approver_role role ≡ true =
      rw (turn_role, turn) (role_eq_refl st.approver_role) in
    let other : (user_id == r.employee_id) ≡ false = ground (arith, ne) in
    let (claim, idx, st', done) =
      decide-calm approve_step id role user_id [] e w r k st calm here sub turn has_role other in
    let same_claim : claim ≡ r = ground (arith, done.found, here) in
    let same_turn : idx ≡ k = ground (arith, done.turn, turn) in
    let done' = rw (same_claim, same_turn) at done in
    Decided-Voted e id role user_id w.db (decide approve_step id role user_id [] e w).1.db r k st'
      done' inv

one_vote :
    (id user_id : ℕ) (e : Env) (w : World) (r : Reimbursement)
    → NoFailure e
    → Invariant w.db
    → find_claim id w.db ≡ some r
    → r.status ≡ submitted
    → user_id ≢ r.employee_id
    → Voted id
        (count_approved (statuses (steps_of id w.db)))
        r
        w.db
        (approve_action id (turn_role id w.db) user_id e w).1.db
one_vote id user_id e w r calm inv here sub ne =
    let steps = steps_of id w.db in
    let (k, sequential, below, current) = (inv.fits id r here).waiting sub in
    let (st, turn) = pending-some steps k sequential below in
    rw (count_approved-sequential k (statuses steps) sequential)
      (vote_at id user_id k e w r st calm inv here sub turn ne)

-- If no statement fails, a SUBMITTED claim in tables that satisfy the invariant becomes APPROVED
-- when as many users as it lacks approvals approve it in turn, each with the role of the pending
-- step and none of them its owner.
pub approve_all_completes :
    (id : ℕ) (votes : List (ℕ × Env)) (w : World) (r : Reimbursement)
    → Invariant w.db
    → find_claim id w.db ≡ some r
    → r.status ≡ submitted
    → count_approved (statuses (steps_of id w.db)) + length votes ≡ length (steps_of id w.db)
    → All (λ (v : ℕ × Env). (v.0 ≢ r.employee_id) × NoFailure v.1) votes
    → (r' : Reimbursement) × (find_claim id (approve_all id votes w).db ≡ some r')
      × (r'.status ≡ approved)
unfolding approve_all
approve_all_completes id [] w r inv here sub enough voters =
    let (k, sequential, below, current) = (inv.fits id r here).waiting sub in
    let counted = count_approved-sequential k (statuses (steps_of id w.db)) sequential in
    absurd (omega (arith, counted, enough, below))
approve_all_completes id ((user_id, e) ∷ votes) w r inv here sub enough voters =
    let w1 = (approve_action id (turn_role id w.db) user_id e w).1 in
    let vote = one_vote id user_id e w r voters.0.1 inv here sub voters.0.0 in
    elim vote.progress [
      | inl (last, done) ↦ no_more votes w1 vote.after (omega (arith, last, enough)) vote.found done
      | inr (more, counted) ↦
          approve_all_completes id votes w1 vote.after vote.inv vote.found more
            (omega (arith, counted, enough, vote.same_length)) (rw vote.same_owner voters.1)
    ]
  where
    no_more :
        (votes : List (ℕ × Env)) (w1 : World) (r1 : Reimbursement)
        → length votes ≡ 0
        → find_claim id w1.db ≡ some r1
        → r1.status ≡ approved
        → (r' : Reimbursement) × (find_claim id (approve_all id votes w1).db ≡ some r')
          × (r'.status ≡ approved)
    no_more [] w1 r1 h found done = (r1, found, done)
    no_more (v ∷ votes) w1 r1 h found done = absurd (omega (arith, h))
