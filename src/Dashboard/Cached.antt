-- ===== src/Dashboard/Cached.antt =====
-- The cache of backend/internal/modules/dashboard/service.go, and whose summary it answers with.
use reimbursement_system.Base.{ℕ, ◌≡◌, true, some, [], ◌∷◌, Text, if◌then◌else◌, ◌==◌}
use reimbursement_system.Approval.{Role, employee, manager, finance, admin}
use reimbursement_system.Store.{Db, Env, Redis, World, Result, ok}
use reimbursement_system.Directory.Users.{is_listed}
use reimbursement_system.Dashboard.{
  Library, SummaryResponse, pending_count, monthly_total, approval_counts, this_month, rate_of,
  summary_key, summary,
}

-- The summary of a caller's claims in some tables.
abbrev pub summary_of : Library → Env → Role → ℕ → Db → SummaryResponse
summary_of lib e role user_id db = record {
  pending_count = pending_count role user_id db;
  monthly_total = monthly_total e.month_of role user_id (this_month e) db;
  approval_rate = rate_of lib (approval_counts role user_id db);
}

-- Different uuids print differently.
abbrev pub PrintsApart : Env → Type 0
PrintsApart e = (i j : ℕ) → e.id_text i ≡ e.id_text j → i ≡ j

-- The listed roles have different initials.
abbrev role_with : Text → Role
role_with [] = employee
role_with (c ∷ s) =
    if c == b'e'
    then employee
    else if c == b'm'
    then manager
    else if c == b'f'
    then finance
    else admin

-- What the cache holds under the key of a listed role and a user is a summary of that role and
-- user, in tables that were seen.
abbrev pub CacheHolds : Library → (Env → Db → Type 0) → Env → Redis → Type 0
CacheHolds lib seen e r =
    (role : Role) (user_id : ℕ) (raw : Text)
    → is_listed role ≡ true
    → r.values (summary_key e role user_id) ≡ some raw
    → (e' : Env) × (db : Db) × seen e' db
      × (lib.summary.unmarshal raw ≡ some (summary_of lib e' role user_id db))

-- What is marshalled is read back.
abbrev pub ReadsBack : Library → Type 0
ReadsBack lib = (s : SummaryResponse) → lib.summary.unmarshal (lib.summary.marshal s) ≡ some s

-- The answer is a summary of that role and user, and the cache holds what it should.
record Own (lib : Library) (seen : Env → Db → Type 0) (e : Env) (role : Role) (user_id : ℕ)
    (out : Result SummaryResponse × World) : Type 0 where
  holds : CacheHolds lib seen e out.1.redis
  own :
      (s : SummaryResponse)
      → out.0 ≡ ok s
      → (e' : Env) × (db : Db) × seen e' db × (s ≡ summary_of lib e' role user_id db)
