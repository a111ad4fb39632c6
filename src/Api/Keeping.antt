-- ===== src/Api/Keeping.antt =====
-- The effect of a request on the tables of claims and approval steps: a write of workflow.go or
-- service.go, or the same rows.
pub mod Services
pub mod Views
pub mod Files
pub mod Writes
pub mod Steps
pub mod Claims
pub mod Handlers
pub mod Routes
use reimbursement_system.Base.{
  ℕ, ◌≡◌, refl, sym, ap, ◌∙◌, inl, inr, ◌⊎◌, ◌||◌, Bool, true, false, arith, Bool-cases,
}
use reimbursement_system.AppErr.{Err}
use reimbursement_system.Store.{
  Db, Redis, Env, World, M, Result, ◌>>=◌, map_err, ignore_err, throw_if, statement, command, call,
  is_aborted, Result-cases,
}
use reimbursement_system.Reimbursements.Repository.{find_claim, steps_of}
use reimbursement_system.Reimbursements.Effects.{Change}
use reimbursement_system.Reimbursements.Effects.Origins.{rows-Linked}
use reimbursement_system.Reimbursements.Effects.Keeping.{Whole, Change-Whole}
use reimbursement_system.Reimbursements.Effects.Phases.{Move, phase, has_row, same-Move}
use reimbursement_system.Reimbursements.Effects.Refinement.{change-Move}

-- The same claims and approval steps.
abbrev pub SameRows : Db → Db → Type 0
SameRows db db' = (db'.reimbursements ≡ db.reimbursements) × (db'.approvals ≡ db.approvals)

abbrev pub Effect : Db → Db → Type 0
Effect db db' = Change db db' ⊎ SameRows db db'

-- An action that leaves claims and approval steps as they are.
abbrev pub Spares : {A : Type 0} → M A → Type 0
Spares m = (e : Env) (w : World) → SameRows w.db (m e w).1.db

pub >>=-Spares :
    {A B : Type 0} (m : M A) (f : A → M B) → Spares m → ((a : A) → Spares (f a)) → Spares (m >>= f)
>>=-Spares m f h k e w = elim (Result-cases (m e w).0) [
  | inl (a, returned) ↦
      let (claims, steps) = h e w in
      let (claims', steps') = k a e (m e w).1 in
      (ground (arith, claims, claims'), ground (arith, steps, steps'))
  | inr (x, thrown) ↦ let (claims, steps) = h e w in (ground (arith, claims), ground (arith, steps))
]

pub map_err-Spares : {A : Type 0} (f : Err → Err) (m : M A) → Spares m → Spares (map_err f m)
map_err-Spares f m h e w =
    let (claims, steps) = h e w in
    elim (Result-cases (m e w).0) [
      | inl (a, returned) ↦ (ground (arith, claims), ground (arith, steps))
      | inr (x, thrown) ↦ (ground (arith, claims), ground (arith, steps))
    ]

pub ignore_err-Spares : {A : Type 0} (d : A) (m : M A) → Spares m → Spares (ignore_err d m)
ignore_err-Spares d m h e w =
    let (claims, steps) = h e w in
    elim (Result-cases (m e w).0) [
      | inl (a, returned) ↦ (ground (arith, claims), ground (arith, steps))
      | inr (x, thrown) ↦ (ground (arith, claims), ground (arith, steps))
    ]

pub throw_if-Spares : (b : Bool) (x : Err) → Spares (throw_if b x)
throw_if-Spares true x e w = (refl, refl)
throw_if-Spares false x e w = (refl, refl)

pub call-Spares : {A : Type 0} (a : A) → Spares (call a)
unfolding call
call-Spares a e w = elim (Bool-cases (e.fails w.tick)) [
  | inl failed ↦ rw failed (refl, refl)
  | inr ran ↦ rw ran (refl, refl)
]

pub command-Spares : {A : Type 0} (f : Redis → A × Redis) → Spares (command f)
unfolding command
command-Spares f e w = elim (Bool-cases (e.fails w.tick)) [
  | inl failed ↦ rw failed (refl, refl)
  | inr ran ↦ rw ran (refl, refl)
]

pub statement-Spares :
    {A : Type 0} (f : ℕ → Db → Result A × Db)
    → ((t : ℕ) (db : Db) → SameRows db (f t db).1)
    → Spares (statement f)
unfolding statement
statement-Spares f h e w = elim (Bool-cases (is_aborted w.tx || e.fails w.tick)) [
  | inl failed ↦ rw failed (refl, refl)
  | inr ran ↦ rw ran (h w.tick w.db)
]

-- Where the rows are the same, the invariant is kept and no claim moves.
SameRows-Whole : (db db' : Db) → SameRows db db' → Whole db → Whole db'
SameRows-Whole db db' (claims, steps) whole = record {
  inv = record {
    keys = rw steps whole.inv.keys;
    fits = λ j r here. rw steps (whole.inv.fits j r (rw claims at here));
  };
  linked = rows-Linked db db' steps (λ j none_there. rw claims at none_there) whole.linked;
}

SameRows-Move : (db db' : Db) → SameRows db db' → (j : ℕ) → Move (phase j db) (phase j db')
SameRows-Move db db' (claims, steps) j =
    same-Move j db db' (ap (λ rs. find_claim j (record db { reimbursements = rs })) claims)
      (ap (λ ss. steps_of j (record db { approvals = ss })) steps)
      (ap (λ rs. has_row j (record db { reimbursements = rs })) claims)

-- An effect keeps the invariant and makes at most one move of each abstract claim.
pub keeps_and_moves :
    (db db' : Db)
    → Effect db db'
    → Whole db
    → Whole db' × ((j : ℕ) → Move (phase j db) (phase j db'))
keeps_and_moves db db' (inl change) whole =
    (Change-Whole db db' change whole, change-Move db db' change whole)
keeps_and_moves db db' (inr same) whole =
    (SameRows-Whole db db' same whole, SameRows-Move db db' same)
