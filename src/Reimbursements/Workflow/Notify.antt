-- ===== src/Reimbursements/Workflow/Notify.antt =====
-- notifyEmployee of workflow.go and Write of backend/internal/modules/audit/audit.go, whose own
-- errors are dropped.
use reimbursement_system.Base.{
  ℕ, ◌+◌, Option, none, some, [], ◌∷◌, ◌++◌, ◌==◌, if◌then◌else◌, find?, Text, lit,
}
use reimbursement_system.Decimal.{numeric_text}
use reimbursement_system.Approval.{Status, draft, submitted, approved, rejected, paid, cancelled}
use reimbursement_system.Store.{
  Reimbursement, AuditAction, Metadata, Log, Db, Email, M, ok, done, ◌>>=◌, ignore_err, first, exec,
}
use reimbursement_system.Reimbursements.Scope.{find_user}

-- The status constants as the texts of the notifications, and strings.ToLower of them.
abbrev pub status_text : Status → Text
status_text draft = lit "DRAFT"
status_text submitted = lit "SUBMITTED"
status_text approved = lit "APPROVED"
status_text rejected = lit "REJECTED"
status_text paid = lit "PAID"
status_text cancelled = lit "CANCELLED"

abbrev pub lower_text : Status → Text
lower_text draft = lit "draft"
lower_text submitted = lit "submitted"
lower_text approved = lit "approved"
lower_text rejected = lit "rejected"
lower_text paid = lit "paid"
lower_text cancelled = lit "cancelled"

-- The recipient, the title and the amount of a claim, deleted or not.
abbrev pub notice_of : ℕ → Db → Option (Text × Text × Text)
notice_of id db = elim (find? (λ (r : Reimbursement). r.id == id) db.reimbursements) [
  | none ↦ none
  | some r ↦ elim (find_user r.employee_id db.users) [
    | none ↦ none
    | some u ↦ some (u.email, r.title, numeric_text r.amount)
  ]
]

-- EnqueueContext: the queue may refuse the task.
abbrev pub enqueue : Email → M (Unit {0})
enqueue mail e w =
    if e.fails w.tick
    then (ok tt, record w { tick = w.tick + 1 })
    else (ok tt, record w { queue = w.queue ++ mail ∷ []; tick = w.tick + 1 })

abbrev pub send_notice : Status → Option (Text × Text × Text) → M (Unit {0})
send_notice action none = done
send_notice action (some (to, title, amount)) = enqueue (record {
  to = to;
  subject = lit "[" ++ (status_text action ++ (lit "] Reimbursement claim: " ++ title));
  body =
      lit "Your claim \""
      ++ (title ++ (lit "\" (Rp " ++ (amount ++ (lit ") was " ++ (lower_text action ++ lit ".")))));
})

abbrev pub look_up : ℕ → M (Option (Text × Text × Text))
look_up id =
    ignore_err none (first (λ db. elim (notice_of id db) [ none ↦ none | some n ↦ some (some n) ]))

-- notifyEmployee
unfoldable pub notify_employee : ℕ → Status → M (Unit {0})
notify_employee id action = do notice ← look_up id; send_notice action notice

abbrev pub add_log : Log → Db → Db
add_log l db = record db { audit_logs = db.audit_logs ++ l ∷ [] }

-- audit.Write: the error of the insert is dropped.
unfoldable pub audit_write : ℕ → AuditAction → ℕ → Metadata → M (Unit {0})
audit_write actor_id action entity_id meta = ignore_err tt (
    exec (
      add_log
        (record { actor_id = actor_id; action = action; entity_id = entity_id; metadata = meta })))
