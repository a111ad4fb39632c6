-- ===== src/Reimbursements/Workflow/Submit.antt =====
-- The transaction of Submit in workflow.go: the snapshot of the approval chain.
use mathlib.Core.List.{append-nil, append_assoc}
use reimbursement_system.Base.{
  ℕ, suc, ◌+◌, ◌≡◌, sym, ap, ◌∙◌, inl, inr, ◌⊎◌, false, none, some, List, [], ◌∷◌, ◌++◌, arith,
  Option-cases, find?, Text,
}
use reimbursement_system.Approval.{draft, rejected, Role, can_transition}
use reimbursement_system.Store.{
  Reimbursement, ApprovalStep, submit_claim, of_amount, Db, Env, World, in_progress, is_aborted,
  Result, ok, statement, Completes, begun,
}
use reimbursement_system.Reimbursements.Repository.{find_claim, lock_claim, update_claim}
use reimbursement_system.Reimbursements.Workflow.Notify.{add_log, audit_write}
use reimbursement_system.Reimbursements.Workflow.Steps.{
  delete_steps, new_step, step_clashes, insert_steps, to_submitted, close_submit, submit_body,
}

-- The rows of a chain, numbered from n; `t` counts the statements, which give the ids.
abbrev pub chain_steps : Env → ℕ → ℕ → ℕ → List Role → List ApprovalStep
chain_steps e t id n [] = []
chain_steps e t id n (role ∷ chain) =
    new_step e t id n role ∷ chain_steps e (t + 1) id (suc n) chain

-- No row clashes with the ones before it.
abbrev pub NoClash : List ApprovalStep → List ApprovalStep → Type 0
NoClash old [] = Unit
NoClash old (st ∷ sts) = (find? (step_clashes st) old ≡ none) × NoClash (old ++ st ∷ []) sts

abbrev pub with_steps : Db → List ApprovalStep → Db
with_steps db sts = record db { approvals = db.approvals ++ sts }

pub record Inserted (e : Env) (id n : ℕ) (chain : List Role) (w w' : World) : Type 0 where
  pub no_clash : NoClash w.db.approvals (chain_steps e w.tick id n chain)
  pub written : w'.db ≡ with_steps w.db (chain_steps e w.tick id n chain)
  pub same_tx : w'.tx ≡ w.tx

insert_steps_cons :
    (e : Env) (id n : ℕ) (role : Role) (chain : List Role) (w w' : World)
    → insert_steps id n (role ∷ chain) e w ≡ (ok tt, w')
    → let st = new_step e w.tick id n role in
      (find? (step_clashes st) w.db.approvals ≡ none)
      × (insert_steps id
            (suc n)
            chain
            e
            (record w { db = with_steps w.db (st ∷ []); tick = w.tick + 1 })
          ≡ (ok tt, w'))
unfolding insert_steps statement
insert_steps_cons e id n role chain w w' h = (ground arith, ground arith)

pub insert_steps-ok :
    (e : Env) (id n : ℕ) (chain : List Role) (w w' : World)
    → insert_steps id n chain e w ≡ (ok tt, w')
    → Inserted e id n chain w w'
unfolding insert_steps
insert_steps-ok e id n [] w w' h =
    let same : w'.db ≡ w.db = ground arith in
    record {
      no_clash = tt;
      written =
          same ∙ ap (λ sts. record w.db { approvals = sts }) (sym (append-nil w.db.approvals));
      same_tx = ground arith;
    }
insert_steps-ok e id n (role ∷ chain) w w' h =
    let (free, rest) = insert_steps_cons e id n role chain w w' h in
    let st = new_step e w.tick id n role in
    let ih =
      insert_steps-ok e id (suc n) chain
        (record w { db = with_steps w.db (st ∷ []); tick = w.tick + 1 }) w' rest in
    record {
      no_clash = (free, ih.no_clash);
      written =
          ih.written
          ∙ ap (λ sts. record w.db { approvals = sts })
              (append_assoc w.db.approvals (st ∷ []) (chain_steps e (w.tick + 1) id (suc n) chain));
      same_tx = ih.same_tx;
    }

-- The world in which the loop starts.
abbrev pub locked_world : ℕ → World → World
locked_world id w = record (begun w) { db = delete_steps id w.db; tick = w.tick + 1 + 1 + 1 }

abbrev pub submitted_db : Env → ℕ → ℕ → ℕ → Text → List Role → Db → Db
submitted_db e t id user_id amount chain db =
    add_log
      (record {
        actor_id = user_id;
        action = submit_claim;
        entity_id = id;
        metadata = of_amount amount;
      })
      (update_claim id (to_submitted e.now)
        (with_steps (delete_steps id db) (chain_steps e t id 1 chain)))

pub record Submitted (e : Env) (t id user_id : ℕ) (amount : Text) (chain : List Role) (db db' : Db)
    (claim : Reimbursement) : Type 0 where
  pub found : find_claim id db ≡ some claim
  pub editable : (claim.status ≡ draft) ⊎ (claim.status ≡ rejected)
  pub no_clash : NoClash (delete_steps id db).approvals (chain_steps e t id 1 chain)
  pub written : db' ≡ submitted_db e t id user_id amount chain db

close_submit-ok :
    (id user_id : ℕ) (amount : Text) (e : Env) (w : World)
    → w.tx ≡ in_progress
    → is_aborted (close_submit id user_id amount e w).1.tx ≡ false
    → (close_submit id user_id amount e w).0 ≡ ok tt
    → (close_submit id user_id amount e w).1.db
      ≡ add_log
          (record {
            actor_id = user_id;
            action = submit_claim;
            entity_id = id;
            metadata = of_amount amount;
          })
          (update_claim id (to_submitted e.now) w.db)
unfolding close_submit audit_write statement
close_submit-ok id user_id amount e w open_tx live done = ground arith

-- The guards of the transaction, up to the loop.
submit_body_split :
    (id user_id : ℕ) (amount : Text) (chain : List Role) (e : Env) (w w' : World)
    → Completes (submit_body id user_id amount chain) e (begun w) tt w'
    → (claim : Reimbursement) × (find_claim id w.db ≡ some claim)
      × ((claim.status ≡ draft) ⊎ (claim.status ≡ rejected))
      × let run = insert_steps id 1 chain e (locked_world id w) in
        (run.0 ≡ ok tt) × (close_submit id user_id amount e run.1 ≡ (ok tt, w'))
unfolding submit_body lock_claim statement can_transition
submit_body_split id user_id amount chain e w w' done = elim (Option-cases (find_claim id w.db)) [
  | inl missing ↦ absurd (ground arith)
  | inr (claim, found) ↦ (claim, found, ground arith, (ground arith, ground arith))
]

pub submit_body-Completes :
    (id user_id : ℕ) (amount : Text) (chain : List Role) (e : Env) (w w' : World)
    → Completes (submit_body id user_id amount chain) e (begun w) tt w'
    → (claim : Reimbursement) × Submitted e
        (w.tick + 1 + 1 + 1)
        id
        user_id
        amount
        chain
        w.db
        w'.db
        claim
submit_body-Completes id user_id amount chain e w w' done =
    let (claim, found, editable, (inserted, closed)) =
      submit_body_split id user_id amount chain e w w' done in
    let run = insert_steps id 1 chain e (locked_world id w) in
    let rows = insert_steps-ok e id 1 chain (locked_world id w) run.1 (λ i. (inserted i, run.1)) in
    let live : is_aborted (close_submit id user_id amount e run.1).1.tx ≡ false =
      rw closed done.live in
    let written =
      close_submit-ok id user_id amount e run.1 rows.same_tx live (ap (λ p. p.0) closed) in
    (
      claim,
      record {
        found = found;
        editable = editable;
        no_clash = rows.no_clash;
        written =
            sym (ap (λ (p : Result (Unit {0}) × World). p.1.db) closed)
            ∙ written
            ∙ ap
                (λ db.
                  add_log
                    (record {
                      actor_id = user_id;
                      action = submit_claim;
                      entity_id = id;
                      metadata = of_amount amount;
                    })
                    (update_claim id (to_submitted e.now) db))
                rows.written;
      },
    )
