-- ===== src/Examples/Races.antt =====
-- Requests that interleave, and a claim that is voted through, on the small company.
use reimbursement_system.Base.{
  ℕ, ◌+◌, ◌==◌, filter, ◌≡◌, refl, inl, inr, true, ◌⊎◌, some, List, [], ◌∷◌, ◌<◌, ◌≢◌, length, All,
  arith, lit,
}
use reimbursement_system.Approval.{
  manager, finance, employee, submitted, approved, cancelled, step_approved,
}
use reimbursement_system.Store.{Reimbursement, ApprovalStep, Env, World}
use reimbursement_system.Reimbursements.Repository.{find_claim, steps_of}
use reimbursement_system.Reimbursements.Repository.Writes.{sum_lines}
use reimbursement_system.Reimbursements.Workflow.Outcomes.{Refused}
use reimbursement_system.Reimbursements.Workflow.Actions.{approve_action, pay_action}
use reimbursement_system.Reimbursements.Workflow.Fits.{Fits, statuses}
use reimbursement_system.Reimbursements.Workflow.Approving.{approve_all, approve_all_completes}
use reimbursement_system.Reimbursements.Service.Amounts.{Totals}
use reimbursement_system.Reimbursements.Service.Writing.{new_items}
use reimbursement_system.Reimbursements.Effects.Keeping.{Whole}
use reimbursement_system.Reimbursements.Effects.Phases.{
  Move, phase, withdrawn, removed, count_approved,
}
use reimbursement_system.Reimbursements.Concurrent.{
  submitting, System, first, start, then, begin_submit, begins, writes, approves, pays, Reach, Step,
  go_on, rewrite,
}
use reimbursement_system.Reimbursements.Concurrent.Safety.{
  Sound, Step-Sound, step_refines, concurrent_fully_approved,
}
use reimbursement_system.Reimbursements.Concurrent.Traces.{
  concurrent_final, concurrent_amounts, late_edit,
}
use reimbursement_system.Examples.Tables
use reimbursement_system.Examples.Tables.{
  workflow_runs, service_runs, cfg, calm, draft_claim, submitted_claim, approved_claim,
}
use reimbursement_system.Examples.Flow.{
  start-Invariant, submitted_world, submits, checks_pass, calm-PrintsDates,
}
use reimbursement_system.Reimbursements.Workflow.Invariant.{Invariant}
use reimbursement_system.Reimbursements.Workflow.Safety.{serve-Invariant}
use reimbursement_system.Reimbursements.Workflow.Runs.{submit, serve, serve_all}
use reimbursement_system.Store.{is_ok}
use reimbursement_system.Examples.Parts.{wanted, summer, bare, bare-Totals}

abbrev pub quiet : System
quiet = record { world = Tables.start; threads = [] }

start-Whole : Whole Tables.start.db
start-Whole = record { inv = start-Invariant; linked = λ j h. refl }

pub quiet-Sound : Sound quiet
quiet-Sound = record { whole = start-Whole; ready = tt }

-- A submission that is past its checks.
abbrev about_to_submit : System
about_to_submit = record {
  world = record Tables.start { tick = 5 };
  threads = submitting 1 10 (lit "600000.00", manager ∷ finance ∷ []) ∷ [];
}

checked : Step cfg quiet about_to_submit
checked = begins calm (begin_submit employee checks_pass)

abbrev written : System
written = record {
  world =
      go_on (submitting 1 10 (lit "600000.00", manager ∷ finance ∷ [])) calm about_to_submit.world;
  threads = [];
}

abbrev pub approved_by_all : System
approved_by_all = record {
  world = (approve_action 1 finance 30 calm (approve_action 1 manager 20 calm written.world).1).1;
  threads = [];
}

pub whole_run : Reach cfg quiet approved_by_all
whole_run =
    then (then (then (then start checked) (writes calm first)) (approves 1 manager 20 calm))
      (approves 1 finance 30 calm)

pub becomes_approved : find_claim 1 approved_by_all.world.db ≡ some approved_claim
unfolding workflow_runs approve_action
becomes_approved = refl

Step-Sound_example : Sound about_to_submit
Step-Sound_example = Step-Sound cfg quiet about_to_submit checked quiet-Sound

step_refines_example : Move (phase 1 about_to_submit.world.db) (phase 1 written.world.db)
step_refines_example =
    step_refines cfg about_to_submit written (writes calm first)
      (Step-Sound cfg quiet about_to_submit checked quiet-Sound) 1

concurrent_fully_approved_example :
    (0 < length (steps_of 1 approved_by_all.world.db))
    × All
        (λ (st : ApprovalStep). (st.status ≡ step_approved) × (st.approver_id ≢ some 10))
        (steps_of 1 approved_by_all.world.db)
concurrent_fully_approved_example =
    concurrent_fully_approved cfg quiet approved_by_all 1 approved_claim whole_run quiet-Sound
      becomes_approved (inl refl)

abbrev closed_claim : Reimbursement
closed_claim = record draft_claim { status = cancelled; cancelled_at = some 900 }

abbrev closed : System
closed = record {
  world = record Tables.start {
    db = record Tables.start.db { reimbursements = closed_claim ∷ [] };
  };
  threads = [];
}

closed-Fits : Fits [] closed_claim
closed-Fits = record { waiting = λ h. cc; settled = λ h. ground arith; by_others = tt }

closed-Sound : Sound closed
closed-Sound = record {
  whole = record {
    inv = record {
      keys = tt;
      fits = λ j r here. let e : closed_claim ≡ r = ground arith in rw (← e) closed-Fits;
    };
    linked = λ j h. refl;
  };
  ready = tt;
}

abbrev paying : System
paying = record { world = (pay_action 1 finance 30 calm closed.world).1; threads = [] }

is_closed : phase 1 closed.world.db ≡ withdrawn
unfolding phase
is_closed = refl

concurrent_final_example :
    (phase 1 paying.world.db ≡ phase 1 closed.world.db) ⊎ (phase 1 paying.world.db ≡ removed)
concurrent_final_example =
    concurrent_final cfg closed paying 1 (then start (pays 1 finance 30 calm)) closed-Sound
      (inr (inl is_closed))

-- The draft without items.
abbrev empty_system : System
empty_system = record { world = bare; threads = [] }

abbrev empty_draft : Reimbursement
empty_draft = record draft_claim { amount = 0 }

empty-Fits : Fits [] empty_draft
empty-Fits = record { waiting = λ h. cc; settled = λ h. ground arith; by_others = tt }

empty-Sound : Sound empty_system
empty-Sound = record {
  whole = record {
    inv = record {
      keys = tt;
      fits = λ j r here. let e : empty_draft ≡ r = ground arith in rw (← e) empty-Fits;
    };
    linked = λ j h. refl;
  };
  ready = tt;
}

abbrev refusing : System
refusing = record { world = (approve_action 1 manager 20 calm bare).1; threads = [] }

concurrent_amounts_example : Totals refusing.world.db
concurrent_amounts_example =
    concurrent_amounts cfg empty_system refusing (then start (approves 1 manager 20 calm))
      empty-Sound bare-Totals

abbrev waiting_claim : Reimbursement
waiting_claim = record submitted_claim { amount = 0 }

-- The claim was submitted after an Update had checked it.
abbrev overtaken : World
overtaken = record bare { db = record bare.db { reimbursements = waiting_claim ∷ [] } }

overtaken-Totals : Totals overtaken.db
overtaken-Totals j r here = ground arith

late_edit_example :
    Refused overtaken.db (rewrite 1 wanted 10 (40, 5) summer overtaken)
    ⊎ ((r' : Reimbursement) × (find_claim 1 (rewrite 1 wanted 10 (40, 5) summer overtaken).1.db
          ≡ some r')
        × (r'.status ≡ submitted)
        × (steps_of 1 (rewrite 1 wanted 10 (40, 5) summer overtaken).1.db ≡ steps_of 1 overtaken.db)
        × (filter
              (λ it. it.reimbursement_id == 1)
              (rewrite 1 wanted 10 (40, 5) summer overtaken).1.db.items
            ≡ new_items summer (overtaken.tick + 1 + 1 + 1) 1 wanted.items)
        × (r'.amount ≡ sum_lines (new_items summer (overtaken.tick + 1 + 1 + 1) 1 wanted.items)))
late_edit_example = late_edit 1 10 5 40 wanted summer overtaken waiting_claim refl overtaken-Totals

late_edit_written : is_ok (rewrite 1 wanted 10 (40, 5) summer overtaken).0 ≡ true
unfolding service_runs
late_edit_written = refl

abbrev votes : List (ℕ × Env)
votes = (20, calm) ∷ (30, calm) ∷ []

submitted_world-Invariant : Invariant submitted_world.db
unfolding serve serve_all
submitted_world-Invariant =
    serve-Invariant cfg (submit 1 employee 10) calm Tables.start calm-PrintsDates start-Invariant

enough :
    count_approved (statuses (steps_of 1 submitted_world.db)) + 2
    ≡ length (steps_of 1 submitted_world.db)
unfolding workflow_runs
enough = refl

approve_all_completes_example :
    (r' : Reimbursement) × (find_claim 1 (approve_all 1 votes submitted_world).db ≡ some r')
    × (r'.status ≡ approved)
approve_all_completes_example =
    approve_all_completes 1 votes submitted_world submitted_claim submitted_world-Invariant submits
      refl enough (((λ h. ground arith), λ t. refl), (((λ h. ground arith), λ t. refl), tt))
