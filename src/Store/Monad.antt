-- ===== src/Store/Monad.antt =====
-- Database calls. Every statement may fail, as the environment decides, and a statement that
-- fails inside a transaction makes the later ones fail and the commit roll back. A transaction
-- that does not commit leaves the tables as they were.
use reimbursement_system.Base.{
  ℕ, ◌+◌, Bool, true, false, ◌||◌, Option, none, some, List, Text, if◌then◌else◌,
}
use reimbursement_system.AppErr.{Err, fault, record_not_found, driver}
use reimbursement_system.Store.Rows.{Db, Redis, User}

pub data Result {ℓ} (A : Type ℓ) : Type ℓ where
  ok : A → Result A
  err : Err → Result A

-- What the program does not decide: which statement fails, what uuid and time it is given, and
-- how PostgreSQL and the libraries print a date, a time and a uuid, find a date's month, read a
-- uuid and sign the address of a stored object; what crypto/rand gives, in hex, and the functions
-- of the cryptographic libraries and of the Unicode tables (strings.ToLower).
pub record Env : Type 0 where
  pub fails : ℕ → Bool
  pub fresh_id : ℕ → ℕ
  pub now : ℕ
  pub month_of : ℕ → ℕ
  pub date_text : ℕ → Text
  pub time_text : ℕ → Text
  pub id_text : ℕ → Text
  pub parse_uuid : Text → Option ℕ
  pub presign : Text → Text
  pub random_hex : ℕ → Text
  pub hash_secret : Text → Text
  pub hash_password : Text → Text
  pub compare_password : Text → Text → Bool
  pub sign : User → ℕ → Text
  pub to_lower : Text → Text

pub data Transaction : Type 0 where
  idle in_progress aborted : Transaction

-- A notification that was queued: the recipient, the subject and the body.
pub record Email : Type 0 where
  pub to : Text
  pub subject : Text
  pub body : Text

-- The payload of a task report:generate.
pub record ReportTask : Type 0 where
  pub job_id : Text
  pub month : Text
  pub status : Text
  pub requested_by : Text

-- `objects` is the bucket of the exports.
pub record World : Type 0 where
  pub db : Db
  pub queue : List Email
  pub reports : List ReportTask
  pub objects : Text → Option Text
  pub redis : Redis
  pub tick : ℕ
  pub tx : Transaction

abbrev pub M : Type 0 → Type 0
M A = Env → World → Result A × World

module _ {A : Type 0} where
  abbrev pub pure : A → M A
  pure a e w = (ok a, w)

  abbrev pub throw : Err → M A
  throw x e w = (err x, w)

infixl 5 ◌>>=◌ ◌>>◌
abbrev pub ◌>>=◌ : {A B : Type 0} → M A → (A → M B) → M B
◌>>=◌ m f e w = let (r, w') = m e w in elim r [ ok a ↦ f a e w' | err x ↦ (err x, w') ]

abbrev pub ◌>>◌ : {B : Type 0} → M (Unit {0}) → M B → M B
m >> k = m >>= λ _. k

abbrev pub done : M (Unit {0})
done = pure tt

-- `if test { return err }`
abbrev pub throw_if : Bool → Err → M (Unit {0})
throw_if true x = throw x
throw_if false x = done

-- `if err != nil { return f(err) }`
abbrev pub map_err : {A : Type 0} → (Err → Err) → M A → M A
map_err f m e w = let (r, w') = m e w in elim r [ ok a ↦ (ok a, w') | err x ↦ (err (f x), w') ]

-- A call whose error is ignored; the default stands for what it would have read.
abbrev pub ignore_err : {A : Type 0} → A → M A → M A
ignore_err d m e w = let (r, w') = m e w in elim r [ ok a ↦ (ok a, w') | err x ↦ (ok d, w') ]

abbrev pub ask : {A : Type 0} → (Env → A) → M A
ask f e w = (ok (f e), w)

abbrev pub is_aborted : Transaction → Bool
is_aborted aborted = true
is_aborted _ = false

abbrev pub abort : Transaction → Transaction
abort idle = idle
abort _ = aborted

-- A statement that PostgreSQL refuses aborts the transaction; finding no row does not.
abbrev pub settle : {A : Type 0} → Result A → Transaction → Transaction
settle (ok a) t = t
settle (err (fault record_not_found)) t = t
settle (err _) t = abort t

-- One statement: it fails, or it maps the tables to a value and to new tables.
unfoldable pub statement : {A : Type 0} → (ℕ → Db → Result A × Db) → M A
statement f e w =
    if is_aborted w.tx || e.fails w.tick
    then (err (fault driver), record w { tick = w.tick + 1; tx = abort w.tx })
    else (let (r, db') = f w.tick w.db in
        (r, record w { db = db'; tick = w.tick + 1; tx = settle r w.tx }))

abbrev pub query : {A : Type 0} → (Db → A) → M A
query f = statement (λ t db. (ok (f db), db))

-- uuid.New of the program itself.
abbrev pub new_uuid : M ℕ
new_uuid e w = (ok (e.fresh_id w.tick), record w { tick = w.tick + 1 })

-- A call of another service, which may fail and touches no table.
unfoldable pub call : {A : Type 0} → A → M A
call a e w =
    if e.fails w.tick
    then (err (fault driver), record w { tick = w.tick + 1 })
    else (ok a, record w { tick = w.tick + 1 })

-- A command or an atomic pipeline of Redis, which fails and does nothing, or runs.
unfoldable pub command : {A : Type 0} → (Redis → A × Redis) → M A
command f e w =
    if e.fails w.tick
    then (err (fault driver), record w { tick = w.tick + 1 })
    else (ok (f w.redis).0, record w { redis = (f w.redis).1; tick = w.tick + 1 })

-- randomHex
abbrev pub random : M Text
random e w = (ok (e.random_hex w.tick), record w { tick = w.tick + 1 })

-- gorm's First: no row is ErrRecordNotFound.
abbrev pub first : {A : Type 0} → (Db → Option A) → M A
first f =
    statement (λ t db. (elim (f db) [ none ↦ err (fault record_not_found) | some a ↦ ok a ], db))

abbrev pub exec : (Db → Db) → M (Unit {0})
exec f = statement (λ t db. (ok tt, f db))

abbrev pub end_tx : {A : Type 0} → Db → Bool → Result A × World → Result A × World
end_tx before fails (err x, w) = (err x, record w { db = before; tx = idle })
end_tx before fails (ok a, w) =
    if is_aborted w.tx || fails
    then (err (fault driver), record w { db = before; tick = w.tick + 1; tx = idle })
    else (ok a, record w { tick = w.tick + 1; tx = idle })

-- gorm's Transaction: commit if the body returns no error, else roll back.
unfoldable pub transaction : {A : Type 0} → M A → M A
transaction body e w =
    if e.fails w.tick
    then (err (fault driver), record w { tick = w.tick + 1 })
    else (let (r, w') = body e (record w { tick = w.tick + 1; tx = in_progress }) in
        end_tx w.db (e.fails w'.tick) (r, w'))
