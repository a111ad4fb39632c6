-- ===== src/Api/Keeping/Steps.antt =====
-- The effects of the steps that the handlers share.
use reimbursement_system.Base.{ℕ, ◌≡◌, refl, sym, subst, inl, inr, Option-cases}
use reimbursement_system.Approval.{Role}
use reimbursement_system.AppErr.{Err}
use reimbursement_system.Store.{Env, World, M, Result-cases}
use reimbursement_system.Reimbursements.Workflow.Runs.{PrintsDates}
use reimbursement_system.Reimbursements.Effects.{nothing}
use reimbursement_system.Api.{
  Ctx, Handler, Response, Bound, bound, invalid, malformed, respond, refuse, serving, answer,
  with_body, with_identity, with_id,
}
use reimbursement_system.Api.ViewHandlers.{with_viewer}
use reimbursement_system.Api.Keeping.{Effect, Spares}

-- What an action does to claims and approval steps is one effect.
abbrev pub Acts : {A : Type 0} → M A → Type 0
Acts m = (e : Env) (w : World) → PrintsDates e → Effect w.db (m e w).1.db

abbrev pub Makes : Handler → Type 0
Makes h = (e : Env) (w : World) → PrintsDates e → Effect w.db (h e w).1.db

-- The handler only answers.
abbrev pub Answers : Handler → Type 0
Answers h = (e : Env) (w : World) → (h e w).1.db ≡ w.db

pub spares : {A : Type 0} (m : M A) → Spares m → Acts m
spares m h e w printed = inr (h e w)

pub answers : (f : Handler) → Answers f → Makes f
answers f h e w printed = inl (nothing (h e w))

pub refuse-Makes : (x : Err) → Makes (refuse x)
unfolding refuse
refuse-Makes x e w printed = inl (nothing refl)

pub serving-Makes :
    {A : Type 0} (m : M A) (next : A → Handler)
    → Acts m
    → ((a : A) → Answers (next a))
    → Makes (serving m next)
unfolding serving refuse
serving-Makes m next acts still e w printed = elim (Result-cases (m e w).0) [
  | inl (a, returned) ↦
      rw (serving, returned) (subst (Effect w.db) (sym (still a e (m e w).1)) (acts e w printed))
  | inr (x, thrown) ↦ rw (serving, thrown) (acts e w printed)
]

pub answer-Makes : {A : Type 0} (m : M A) (show : A → Response) → Acts m → Makes (answer m show)
answer-Makes m show acts = serving-Makes m (λ a. respond (show a)) acts (λ a e w. refl)

pub with_body-Makes :
    {A : Type 0} (b : Bound A) (next : A → Handler)
    → ((a : A) → Makes (next a))
    → Makes (with_body b next)
unfolding with_body
with_body-Makes (bound a) next h = h a
with_body-Makes (invalid fields) next h = refuse-Makes _
with_body-Makes malformed next h = refuse-Makes _

pub with_identity-Makes :
    (ctx : Ctx) (next : Role → ℕ → Handler)
    → ((role : Role) (user_id : ℕ) → Makes (next role user_id))
    → Makes (with_identity ctx next)
unfolding with_identity
with_identity-Makes ctx next h = elim (Option-cases ctx.claims) [
  | inl absent ↦ rw absent (refuse-Makes _)
  | inr (c, there) ↦ rw there (h c.role c.user_id)
]

pub with_viewer-Makes :
    (ctx : Ctx) (next : Role → ℕ → Handler)
    → ((role : Role) (user_id : ℕ) → Makes (next role user_id))
    → Makes (with_viewer ctx next)
with_viewer-Makes ctx next h = elim (Option-cases ctx.claims) [
  | inl absent ↦ rw absent (refuse-Makes _)
  | inr (c, there) ↦ rw there (h c.role c.user_id)
]

pub with_id-Makes :
    (ctx : Ctx) (missing : Err) (next : ℕ → Handler)
    → ((id : ℕ) → Makes (next id))
    → Makes (with_id ctx missing next)
unfolding with_id
with_id-Makes ctx missing next h e w printed = elim (Option-cases (e.parse_uuid ctx.param)) [
  | inl bad ↦ rw (with_id, bad) (refuse-Makes missing e w printed)
  | inr (id, good) ↦ rw (with_id, good) (h id e w printed)
]
