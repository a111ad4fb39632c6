-- ===== src/Reimbursements/Concurrent/Traces.antt =====
-- Whole runs of interleaved requests to workflow.go and service.go: the phases of a claim, the
-- amounts, and the requests served in one piece.
use reimbursement_system.Base.{
  ℕ, ◌+◌, ◌≡◌, refl, sym, ap, ◌∙◌, filter, ◌==◌, inl, inr, ◌⊎◌, some, length, ==_refl, arith,
}
use reimbursement_system.Approval.{Role}
use reimbursement_system.Store.{Reimbursement, cancel_claim, pay_claim, Db, Env, World, ◌>>=◌}
use reimbursement_system.Reimbursements.Repository.{find_claim, steps_of}
use reimbursement_system.Reimbursements.Repository.Writes.{sum_lines}
use reimbursement_system.Reimbursements.Workflow.Policy.{Config}
use reimbursement_system.Reimbursements.Workflow.Steps.{to_submitted, to_cancelled, to_paid}
use reimbursement_system.Reimbursements.Workflow.Actions.{
  check_submit, commit_submit, submit_action,
}
use reimbursement_system.Reimbursements.Workflow.Decide.{advance, decided_db}
use reimbursement_system.Reimbursements.Workflow.Cancel.{closed_db}
use reimbursement_system.Reimbursements.Workflow.Submit.{submitted_db}
use reimbursement_system.Reimbursements.Workflow.Lifecycle.{advance_keeps}
use reimbursement_system.Reimbursements.Workflow.Outcomes.{Refused}
use reimbursement_system.Reimbursements.Service.{
  CreateRequest, check_request, create, read_editable, update,
}
use reimbursement_system.Reimbursements.Service.Amounts.{
  Totals, replaced_items, recalculated-Totals, Created-Totals, total-with_items, cleared-TotalsBut,
  find_claim-mark_deleted,
}
use reimbursement_system.Reimbursements.Service.Kept.{update_claim-Totals, advance-amount}
use reimbursement_system.Reimbursements.Service.Writing.{new_items, with_items}
use reimbursement_system.Reimbursements.Service.Outcomes.{cleared, rewrite-cases}
use reimbursement_system.Reimbursements.Effects.{
  Change, nothing, submits, decides, cancels, pays, creates, edits, deletes, edited_db,
}
use reimbursement_system.Reimbursements.Effects.Origins.{find_claim-edited, edited}
use reimbursement_system.Reimbursements.Effects.Phases.{
  Phase, settled, withdrawn, removed, Move, phase,
}
use reimbursement_system.Reimbursements.Concurrent.{System, Reach, write_new, rewrite}
use reimbursement_system.Reimbursements.Concurrent.Safety.{
  Sound, Step-Change, step_refines, reach-Sound,
}

pub data Moves : Phase → Phase → Type 0 where
  none_made : {p : Phase} → Moves p p
  then : {p q r : Phase} → Moves p q → Move q r → Moves p r

-- Over any run of interleaved requests a claim makes moves of the abstract claim.
pub reach_refines :
    (cfg : Config) (s s' : System) (j : ℕ)
    → Reach cfg s s'
    → Sound s
    → Moves (phase j s.world.db) (phase j s'.world.db)
reach_refines cfg s s' j Reach.start sound = none_made
reach_refines cfg s s' j (Reach.then {t} run st) sound =
    then (reach_refines cfg s t j run sound)
      (step_refines cfg t s' st (reach-Sound cfg s t run sound) j)

-- PAID, CANCELLED and deleted.
abbrev pub IsFinal : Phase → Type 0
IsFinal p = (p ≡ settled) ⊎ (p ≡ withdrawn) ⊎ (p ≡ removed)

Move-final : {p q : Phase} → Move p q → IsFinal p → (q ≡ p) ⊎ (q ≡ removed)
Move-final Move.stay h = inl refl
Move-final Move.file h = ground arith
Move-final (Move.enter n) h = ground arith
Move-final (Move.enter_again n) h = ground arith
Move-final (Move.approve_next n) h = ground arith
Move-final (Move.approve_last n) h = ground arith
Move-final (Move.turn_down n) h = ground arith
Move-final (Move.withdraw n) h = ground arith
Move-final Move.settle h = ground arith
Move-final (Move.remove there) h = inr refl

Moves-final : {p q : Phase} → Moves p q → IsFinal p → (q ≡ p) ⊎ (q ≡ removed)
Moves-final none_made h = inl refl
Moves-final (then ms m) h = elim (Moves-final ms h) [
  | inl same ↦ elim (Move-final m (rw (← same) at h)) [
    | inl k ↦ inl (k ∙ same)
    | inr gone ↦ inr gone
  ]
  | inr gone ↦ elim (Move-final m (inr (inr gone))) [
    | inl k ↦ inr (k ∙ gone)
    | inr again ↦ inr again
  ]
]

-- From a system that satisfies the invariant, however the parts of requests interleave, a PAID
-- or CANCELLED claim stays what it is or is deleted, and a deleted claim stays deleted.
pub concurrent_final :
    (cfg : Config) (s s' : System) (j : ℕ)
    → Reach cfg s s'
    → Sound s
    → IsFinal (phase j s.world.db)
    → (phase j s'.world.db ≡ phase j s.world.db) ⊎ (phase j s'.world.db ≡ removed)
concurrent_final cfg s s' j run sound final = Moves-final (reach_refines cfg s s' j run sound) final

-- The amounts under one change of the tables.
pub Change-Totals : (db db' : Db) → Change db db' → Totals db → Totals db'
Change-Totals db db' (nothing same) totals = rw same totals
Change-Totals db db' (submits e t id user_id amount chain claim someone done) totals =
    rw done.written (
      update_claim-Totals id (to_submitted e.now) db (submitted_db e t id user_id amount chain db)
        (λ r. refl) (λ r. refl) (λ r. refl) (λ j. refl) (λ j. refl) totals)
Change-Totals db db' (decides d e id role user_id note claim idx st done) totals =
    let count = length (steps_of id db) in
    rw done.written (
      update_claim-Totals id (advance d idx count e.now) db
        (decided_db d e id role user_id note idx st db) (λ r. (advance_keeps d idx count e.now r).0)
        (λ r. (advance_keeps d idx count e.now r).1) (advance-amount d idx count e.now) (λ j. refl)
        (λ j. refl) totals)
Change-Totals db db' (cancels e id user_id claim done) totals = rw done.written (
    update_claim-Totals id (to_cancelled e.now) db
      (closed_db cancel_claim to_cancelled e id user_id claim db) (λ r. refl) (λ r. refl)
      (λ r. refl) (λ j. refl) (λ j. refl) totals)
Change-Totals db db' (pays e id user_id claim done) totals = rw done.written (
    update_claim-Totals id (to_paid e.now) db (closed_db pay_claim to_paid e id user_id claim db)
      (λ r. refl) (λ r. refl) (λ r. refl) (λ j. refl) (λ j. refl) totals)
Change-Totals db db' (creates e t id user_id req date cat made) totals =
    Created-Totals e t id user_id req date cat db db' made totals
Change-Totals db db' (edits e t id req date cat written) totals = rw written (
    recalculated-Totals e.now id
      (with_items (cleared e id req date cat db) (new_items e t id req.items))
      (λ j r other here.
        cleared-TotalsBut e id req date cat db totals j r other here
        ∙ sym (total-with_items e t j id req.items (cleared e id req date cat db) other)))
Change-Totals db db' (deletes now id written) totals =
    rw written (λ j r here. ground (arith, totals j r, find_claim-mark_deleted id j now db))

-- From a system that satisfies the invariant, however the parts of requests interleave and
-- whichever statements fail, every claim that is not deleted keeps the total of its items as its
-- amount.
pub concurrent_amounts :
    (cfg : Config) (s s' : System)
    → Reach cfg s s'
    → Sound s
    → Totals s.world.db
    → Totals s'.world.db
concurrent_amounts cfg s s' Reach.start sound totals = totals
concurrent_amounts cfg s s' (Reach.then {t} run st) sound totals =
    Change-Totals t.world.db s'.world.db
      (Step-Change cfg t s' st (reach-Sound cfg s t run sound).ready).0
      (concurrent_amounts cfg s t run sound totals)

-- In tables whose amounts are the totals of the items, an Update that is past its checks is
-- refused and changes no table, or keeps the status of the claim, whatever that has become, and
-- its approval steps, leaves the items of the request as the claim's only items, and sets the
-- amount to their total.
pub late_edit :
    (id user_id cat date : ℕ) (req : CreateRequest) (e : Env) (w : World) (r : Reimbursement)
    → find_claim id w.db ≡ some r
    → Totals w.db
    → let out = rewrite id req user_id (date, cat) e w in
      Refused w.db out
      ⊎ ((r' : Reimbursement) × (find_claim id out.1.db ≡ some r')
          × (r'.status ≡ r.status)
          × (steps_of id out.1.db ≡ steps_of id w.db)
          × (filter (λ it. it.reimbursement_id == id) out.1.db.items
              ≡ new_items e (w.tick + 1 + 1 + 1) id req.items)
          × (r'.amount ≡ sum_lines (new_items e (w.tick + 1 + 1 + 1) id req.items)))
late_edit id user_id cat date req e w r found totals =
    elim (rewrite-cases id user_id cat date req e w) [
      | inl refused ↦ inl refused
      | inr (checked, written) ↦
          let t = w.tick + 1 + 1 + 1 in
          let (total, moved) = find_claim-edited e t id req date cat w.db id in
          let after =
            Change-Totals w.db (edited_db e t id req date cat w.db) (edits e t id req date cat refl)
              totals in
          let r' = edited e total req date cat r in
          let here : find_claim id (edited_db e t id req date cat w.db) ≡ some r' =
            moved ∙ rw (==_refl id, found) in
          let its = replaced_items e t id req.items w.db.items in
          inr (rw written (r', here, refl, refl, its, after id r' here ∙ ap sum_lines its))
    ]

-- Create, Update and Submit are their checks followed by what the waiting request does.
pub requests_split :
    (cfg : Config) (id : ℕ) (req : CreateRequest) (role : Role) (user_id : ℕ) (e : Env) (w : World)
    → (create req user_id e w ≡ (check_request req >>= write_new req user_id) e w)
      × (update id req role user_id e w
          ≡ (read_editable id role user_id >>= λ row. check_request req >>= rewrite id req user_id)
              e w)
      × (submit_action cfg id role user_id e w
          ≡ (check_submit cfg id role user_id >>= commit_submit id user_id) e w)
unfolding create update submit_action
requests_split cfg id req role user_id e w = (refl, refl, refl)
