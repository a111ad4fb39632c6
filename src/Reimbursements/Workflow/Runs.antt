-- ===== src/Reimbursements/Workflow/Runs.antt =====
-- Sequences of workflow requests: each request is served with its own environment, and the tables
-- that it leaves are those that the next one finds.
use reimbursement_system.Base.{
  ℕ, ◌≡◌, refl, ◌∙◌, inl, inr, ◌⊎◌, false, some, List, [], ◌∷◌, arith, Bool-cases, is_empty, Text,
}
use reimbursement_system.Approval.{Status, paid, cancelled, Role}
use reimbursement_system.Store.{Reimbursement, Env, World}
use reimbursement_system.Reimbursements.Repository.{find_claim}
use reimbursement_system.Reimbursements.Workflow.Policy.{Config}
use reimbursement_system.Reimbursements.Workflow.Steps.{approve_step, reject_step}
use reimbursement_system.Reimbursements.Workflow.Actions.{
  submit_action, approve_action, reject_action, cancel_action, pay_action,
}
use reimbursement_system.Reimbursements.Workflow.Lifecycle.{
  LegalMove, stay, first_submit, resubmit, complete, turn_down, withdraw, settle_claim, Evolves,
  submit_action-Evolves, decide-Evolves, cancel_action-Evolves, pay_action-Evolves,
}

-- The five actions of WorkflowService, with the claim and the caller.
pub data Request : Type 0 where
  submit : ℕ → Role → ℕ → Request
  approve : ℕ → Role → ℕ → Request
  reject : ℕ → Role → ℕ → Text → Request
  cancel : ℕ → ℕ → Request
  pay : ℕ → Role → ℕ → Request

unfoldable pub serve : Config → Request → Env → World → World
serve cfg (submit id role user_id) e w = (submit_action cfg id role user_id e w).1
serve cfg (approve id role user_id) e w = (approve_action id role user_id e w).1
serve cfg (reject id role user_id note) e w = (reject_action id role user_id note e w).1
serve cfg (cancel id user_id) e w = (cancel_action id user_id e w).1
serve cfg (pay id role user_id) e w = (pay_action id role user_id e w).1

unfoldable pub serve_all : Config → List (Request × Env) → World → World
serve_all cfg [] w = w
serve_all cfg ((q, e) ∷ qs) w = serve_all cfg qs (serve cfg q e w)

-- PostgreSQL prints every date as a text that is not empty.
abbrev pub PrintsDates : Env → Type 0
PrintsDates e = (d : ℕ) → is_empty (e.date_text d) ≡ false

abbrev pub AllPrint : List (Request × Env) → Type 0
AllPrint [] = Unit
AllPrint ((q, e) ∷ qs) = PrintsDates e × AllPrint qs

reject_action-Evolves :
    (id : ℕ) (role : Role) (user_id : ℕ) (note : Text) (e : Env) (w : World)
    → Evolves w.db (reject_action id role user_id note e w).1.db
unfolding reject_action
reject_action-Evolves id role user_id note e w = elim (Bool-cases (is_empty note)) [
  | inl empty ↦
      rw empty
        (λ j r here. (r, here, record { move = stay; same_owner = refl; same_amount = refl }))
  | inr given ↦ rw given (decide-Evolves reject_step id role user_id note e w)
]

-- One request moves every claim by at most one edge of the lifecycle, and keeps owner and amount.
pub serve-Evolves :
    (cfg : Config) (q : Request) (e : Env) (w : World)
    → PrintsDates e
    → Evolves w.db (serve cfg q e w).db
unfolding serve approve_action
serve-Evolves cfg (submit id role user_id) e w p = submit_action-Evolves cfg id role user_id e w p
serve-Evolves cfg (approve id role user_id) e w p =
    decide-Evolves approve_step id role user_id [] e w
serve-Evolves cfg (reject id role user_id note) e w p =
    reject_action-Evolves id role user_id note e w
serve-Evolves cfg (cancel id user_id) e w p = cancel_action-Evolves id user_id e w
serve-Evolves cfg (pay id role user_id) e w p = pay_action-Evolves id role user_id e w

pub data LegalMoves : Status → Status → Type 0 where
  here : {s : Status} → LegalMoves s s
  then : {s t u : Status} → LegalMove s t → LegalMoves t u → LegalMoves s u

-- Over any requests to submit, approve, reject, cancel and pay, whose environments print no date
-- as the empty text, a claim that is not deleted keeps its owner and amount and its status
-- follows the lifecycle diagram.
pub serve_all_lifecycle :
    (cfg : Config) (qs : List (Request × Env)) (w : World)
    → AllPrint qs
    → (j : ℕ) (r : Reimbursement) → find_claim j w.db ≡ some r
    → (r' : Reimbursement) × (find_claim j (serve_all cfg qs w).db ≡ some r')
      × LegalMoves r.status r'.status
      × (r'.employee_id ≡ r.employee_id)
      × (r'.amount ≡ r.amount)
unfolding serve_all
serve_all_lifecycle cfg [] w p j r h = (r, h, here, refl, refl)
serve_all_lifecycle cfg ((q, e) ∷ qs) w p j r h =
    let (r1, h1, moved) = serve-Evolves cfg q e w p.0 j r h in
    let (r', h', moves, owner, amount) = serve_all_lifecycle cfg qs (serve cfg q e w) p.1 j r1 h1 in
    (r', h', then moved.move moves, owner ∙ moved.same_owner, amount ∙ moved.same_amount)

-- PAID and CANCELLED are final, and from APPROVED a claim can only be paid.
LegalMove-final : {s t : Status} → LegalMove s t → (s ≡ paid) ⊎ (s ≡ cancelled) → t ≡ s
LegalMove-final stay h = refl
LegalMove-final first_submit h = ground arith
LegalMove-final resubmit h = ground arith
LegalMove-final complete h = ground arith
LegalMove-final turn_down h = ground arith
LegalMove-final withdraw h = ground arith
LegalMove-final settle_claim h = ground arith

LegalMoves-final : {s t : Status} → LegalMoves s t → (s ≡ paid) ⊎ (s ≡ cancelled) → t ≡ s
LegalMoves-final here h = refl
LegalMoves-final (then m ms) h = let e = LegalMove-final m h in LegalMoves-final ms (rw e h) ∙ e

-- If no date prints as the empty text, a PAID or CANCELLED claim keeps its status whatever is
-- requested afterwards.
pub final_stays :
    (cfg : Config) (qs : List (Request × Env)) (w : World) (j : ℕ) (r : Reimbursement)
    → AllPrint qs
    → find_claim j w.db ≡ some r
    → (r.status ≡ paid) ⊎ (r.status ≡ cancelled)
    → (r' : Reimbursement) × (find_claim j (serve_all cfg qs w).db ≡ some r')
      × (r'.status ≡ r.status)
final_stays cfg qs w j r p h final =
    let (r', h', moves, owner, amount) = serve_all_lifecycle cfg qs w p j r h in
    (r', h', LegalMoves-final moves final)
