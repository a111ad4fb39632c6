-- ===== src/Reimbursements/Concurrent.antt =====
-- Requests to workflow.go and service.go whose parts interleave. A request first checks what it
-- has read and then writes, in a transaction or a statement of its own; other requests may write
-- in between. Approve, reject, cancel and pay check under the lock of their transaction.
pub mod Safety
pub mod Traces
use reimbursement_system.Base.{ℕ, ◌≡◌, List, [], ◌∷◌, Text}
use reimbursement_system.Approval.{Role, admin}
use reimbursement_system.AppErr.{internal_err}
use reimbursement_system.Store.{Env, World, M, ok, ◌>>=◌, ◌>>◌, map_err, new_uuid}
use reimbursement_system.Reimbursements.Scope.{DetailRow}
use reimbursement_system.Reimbursements.Repository.Writes.{
  create_claim, update_claim_items, soft_delete,
}
use reimbursement_system.Reimbursements.Repository.Detail.{DetailResponse}
use reimbursement_system.Reimbursements.Workflow.Policy.{Config}
use reimbursement_system.Reimbursements.Workflow.Actions.{
  check_submit, commit_submit, approve_action, reject_action, cancel_action, pay_action,
}
use reimbursement_system.Reimbursements.Service.{
  CreateRequest, check_request, read_editable, read_deletable, service_detail,
}

-- What Create does behind its checks.
abbrev pub write_new : CreateRequest → ℕ → ℕ × ℕ → M DetailResponse
write_new req user_id (expense_date, category_id) = do
  id ← new_uuid
  create_claim id user_id category_id req.title req.description expense_date req.items
  service_detail id admin user_id

-- What Update does behind its checks.
abbrev pub rewrite : ℕ → CreateRequest → ℕ → ℕ × ℕ → M DetailResponse
rewrite id req user_id (expense_date, category_id) = do
  update_claim_items id category_id req.title req.description expense_date req.items
  service_detail id admin user_id

-- A request between its checks and its writes, with what the checks gave. An editing request has
-- read the claim and not yet checked the new values.
pub data Thread : Type 0 where
  submitting : ℕ → ℕ → Text × List Role → Thread
  creating : CreateRequest → ℕ → ℕ × ℕ → Thread
  editing : ℕ → CreateRequest → ℕ → Thread
  updating : ℕ → CreateRequest → ℕ → ℕ × ℕ → Thread
  deleting : ℕ → Thread

-- A request whose checks pass.
pub data Begins (cfg : Config) (e : Env) (w : World) : Thread → World → Type 0 where
  begin_submit :
      (role : Role) {id user_id : ℕ} {amount : Text} {chain : List Role} {w' : World}
      → check_submit cfg id role user_id e w ≡ (ok (amount, chain), w')
      → Begins cfg e w (submitting id user_id (amount, chain)) w'
  begin_create :
      {req : CreateRequest} {user_id : ℕ} {values : ℕ × ℕ} {w' : World}
      → check_request req e w ≡ (ok values, w')
      → Begins cfg e w (creating req user_id values) w'
  begin_update :
      (role : Role) (row : DetailRow) {id : ℕ} {req : CreateRequest} {user_id : ℕ} {w' : World}
      → read_editable id role user_id e w ≡ (ok row, w')
      → Begins cfg e w (editing id req user_id) w'
  begin_delete :
      (role : Role) (user_id : ℕ) (row : DetailRow) {id : ℕ} {w' : World}
      → read_deletable id role user_id e w ≡ (ok row, w')
      → Begins cfg e w (deleting id) w'

-- What a thread does when it goes on; an editing one only checks.
abbrev pub go_on : Thread → Env → World → World
go_on (submitting id user_id checked) e w = (commit_submit id user_id checked e w).1
go_on (creating req user_id values) e w = (write_new req user_id values e w).1
go_on (editing id req user_id) e w = (check_request req e w).1
go_on (updating id req user_id values) e w = (rewrite id req user_id values e w).1
go_on (deleting id) e w = (map_err internal_err (soft_delete id) e w).1

pub record System : Type 0 where
  pub world : World
  pub threads : List Thread

-- The list with one thread taken out.
pub data Picks (t : Thread) : List Thread → List Thread → Type 0 where
  first : {ts : List Thread} → Picks t (t ∷ ts) ts
  later : {u : Thread} {ts rest : List Thread} → Picks t ts rest → Picks t (u ∷ ts) (u ∷ rest)

pub data Step (cfg : Config) (s : System) : System → Type 0 where
  begins :
      {t : Thread} {w' : World} (e : Env)
      → Begins cfg e s.world t w'
      → Step cfg s (record { world = w'; threads = t ∷ s.threads })
  writes :
      {t : Thread} {rest : List Thread} (e : Env)
      → Picks t s.threads rest
      → Step cfg s (record { world = go_on t e s.world; threads = rest })
  validates :
      {id : ℕ} {req : CreateRequest} {user_id : ℕ} {values : ℕ × ℕ} {w' : World}
      {rest : List Thread} (e : Env)
      → Picks (editing id req user_id) s.threads rest
      → check_request req e s.world ≡ (ok values, w')
      → Step cfg s (record { world = w'; threads = updating id req user_id values ∷ rest })
  approves :
      (id : ℕ) (role : Role) (user_id : ℕ) (e : Env)
      → Step cfg s (record s { world = (approve_action id role user_id e s.world).1 })
  rejects :
      (id : ℕ) (role : Role) (user_id : ℕ) (note : Text) (e : Env)
      → Step cfg s (record s { world = (reject_action id role user_id note e s.world).1 })
  cancels :
      (id user_id : ℕ) (e : Env)
      → Step cfg s (record s { world = (cancel_action id user_id e s.world).1 })
  pays :
      (id : ℕ) (role : Role) (user_id : ℕ) (e : Env)
      → Step cfg s (record s { world = (pay_action id role user_id e s.world).1 })

pub data Reach (cfg : Config) (s : System) : System → Type 0 where
  start : Reach cfg s s
  then : {t u : System} → Reach cfg s t → Step cfg t u → Reach cfg s u
