-- ===== src/Reimbursements/Workflow/StepRows.antt =====
-- The rows of the approvals table under the writes of workflow.go: which steps a claim has after
-- one of them is decided, and after a submission replaced them.
use reimbursement_system.Base.{
  ℕ, ◌≡◌, sym, ap, ◌∙◌, inl, inr, ◌⊎◌, Bool, false, List, [], ◌∷◌, arith, ◌==◌, if◌then◌else◌, leb,
  Bool-cases, ==_iff, map, filter, All, MemIn, insert_by, sort_by, filter-MemIn, sort_by-MemIn,
  All-MemIn, MemIn-All, insert_by-MemIn, filter-map, sort_by-map, map-id_of_All,
}
use reimbursement_system.Store.{ApprovalStep, Db}
use reimbursement_system.Reimbursements.Repository.{steps_of, update_step}

-- The primary key of approvals.
abbrev pub Distinct : List ApprovalStep → Type 0
Distinct [] = Unit
Distinct (st ∷ sts) = All (λ x. (x.id == st.id) ≡ false) sts × Distinct sts

abbrev pub of_claim : ℕ → ApprovalStep → Bool
of_claim id st = st.reimbursement_id == id

abbrev pub change : ℕ → (ApprovalStep → ApprovalStep) → ApprovalStep → ApprovalStep
change sid f st = if st.id == sid then f st else st

-- A decision changes neither the id of a step, nor its claim, nor its number.
pub record KeepsKeys (f : ApprovalStep → ApprovalStep) : Type 0 where
  pub same_id : (st : ApprovalStep) → (f st).id ≡ st.id
  pub same_claim : (st : ApprovalStep) → (f st).reimbursement_id ≡ st.reimbursement_id
  pub same_number : (st : ApprovalStep) → (f st).step_number ≡ st.step_number

pub steps_of-update :
    (j sid : ℕ) (f : ApprovalStep → ApprovalStep) (db : Db)
    → KeepsKeys f
    → steps_of j (update_step sid f db) ≡ map (change sid f) (steps_of j db)
steps_of-update j sid f db keeps =
    ap (sort_by (λ (st : ApprovalStep). st.step_number)) (
      filter-map (of_claim j) (change sid f) db.approvals (λ a. ground (arith, keeps.same_claim a)))
    ∙ sort_by-map (λ (st : ApprovalStep). st.step_number) (change sid f)
        (filter (of_claim j) db.approvals) (λ a. ground (arith, keeps.same_number a))

pub fresh_differs :
    (sts : List ApprovalStep) (x b : ApprovalStep)
    → All (λ (y : ApprovalStep). (y.id == x.id) ≡ false) sts
    → MemIn b sts
    → b.id ≡ x.id
    → ⊥
fresh_differs sts x b h m e =
    let k = MemIn-All (λ (y : ApprovalStep). (y.id == x.id) ≡ false) sts b h m in ground arith

Distinct-MemIn :
    (sts : List ApprovalStep) (a b : ApprovalStep)
    → Distinct sts
    → MemIn a sts
    → MemIn b sts
    → a.id ≡ b.id
    → a ≡ b
Distinct-MemIn [] a b d m n e = absurd m
Distinct-MemIn (x ∷ sts) a b d (inl p) (inl q) e = sym p ∙ q
Distinct-MemIn (x ∷ sts) a b d (inl p) (inr n) e =
    absurd (fresh_differs sts x b d.0 n (sym e ∙ ap (λ (s : ApprovalStep). s.id) (sym p)))
Distinct-MemIn (x ∷ sts) a b d (inr m) (inl q) e =
    absurd (fresh_differs sts x a d.0 m (e ∙ ap (λ (s : ApprovalStep). s.id) (sym q)))
Distinct-MemIn (x ∷ sts) a b d (inr m) (inr n) e = Distinct-MemIn sts a b d.1 m n e

-- The steps of a claim are rows of the table that name the claim.
pub steps_of-MemIn :
    (j : ℕ) (db : Db) (st : ApprovalStep)
    → MemIn st (steps_of j db)
    → MemIn st db.approvals × (st.reimbursement_id ≡ j)
steps_of-MemIn j db st m =
    let (n, e) = filter-MemIn (of_claim j) db.approvals st (
      sort_by-MemIn (λ (s : ApprovalStep). s.step_number) (filter (of_claim j) db.approvals) st
        m) in
    (n, (==_iff _ _).0 e)

-- Deciding a step of one claim leaves the steps of every other claim alone.
pub steps_of-update_other :
    (j id : ℕ) (st : ApprovalStep) (f : ApprovalStep → ApprovalStep) (db : Db)
    → KeepsKeys f
    → Distinct db.approvals
    → MemIn st (steps_of id db)
    → (j == id) ≡ false
    → steps_of j (update_step st.id f db) ≡ steps_of j db
steps_of-update_other j id st f db keeps d m other =
    steps_of-update j st.id f db keeps
    ∙ map-id_of_All (change st.id f) (steps_of j db)
        (All-MemIn _ (steps_of j db) (λ a n. unchanged a n))
  where
    unchanged : (a : ApprovalStep) → MemIn a (steps_of j db) → change st.id f a ≡ a
    unchanged a n = elim (Bool-cases (a.id == st.id)) [
      | inr differs ↦ rw differs
      | inl same ↦
          let (ma, ja) = steps_of-MemIn j db a n in
          let (ms, is) = steps_of-MemIn id db st m in
          let e : a.reimbursement_id ≡ st.reimbursement_id =
            ap (λ (s : ApprovalStep). s.reimbursement_id)
              (Distinct-MemIn db.approvals a st d ma ms ((==_iff _ _).0 same)) in
          ground arith
    ]

-- The key stays one under the writes.
pub update_step-Distinct :
    (sid : ℕ) (f : ApprovalStep → ApprovalStep) (sts : List ApprovalStep)
    → KeepsKeys f
    → Distinct sts
    → Distinct (map (change sid f) sts)
update_step-Distinct sid f [] keeps d = tt
update_step-Distinct sid f (st ∷ sts) keeps d =
    (go sts d.0, update_step-Distinct sid f sts keeps d.1)
  where
    go :
        (xs : List ApprovalStep)
        → All (λ (x : ApprovalStep). (x.id == st.id) ≡ false) xs
        → All (λ (x : ApprovalStep). (x.id == (change sid f st).id) ≡ false) (map (change sid f) xs)
    go [] h = tt
    go (x ∷ xs) h = (ground (arith, keeps.same_id x, keeps.same_id st), go xs h.1)

insert_by-Distinct :
    (st : ApprovalStep) (sts : List ApprovalStep)
    → All (λ (x : ApprovalStep). (x.id == st.id) ≡ false) sts
    → Distinct sts
    → Distinct (insert_by (λ (s : ApprovalStep). s.step_number) st sts)
insert_by-Distinct st [] h d = (tt, tt)
insert_by-Distinct st (x ∷ sts) h d = elim (Bool-cases (leb st.step_number x.step_number)) [
  | inl e ↦ rw e (h, d)
  | inr e ↦ rw e (
    All-MemIn _ _
        (λ a m. still a (insert_by-MemIn (λ (s : ApprovalStep). s.step_number) st sts a m)),
    insert_by-Distinct st sts h.1 d.1,
  )
]
  where
    still : (a : ApprovalStep) → (st ≡ a) ⊎ MemIn a sts → (a.id == x.id) ≡ false
    still a (inl e) = let k = ap (λ (s : ApprovalStep). s.id) e in ground arith
    still a (inr m) = MemIn-All (λ (y : ApprovalStep). (y.id == x.id) ≡ false) sts a d.0 m

pub sort_by-Distinct :
    (sts : List ApprovalStep)
    → Distinct sts
    → Distinct (sort_by (λ (s : ApprovalStep). s.step_number) sts)
sort_by-Distinct [] d = tt
sort_by-Distinct (st ∷ sts) d =
    insert_by-Distinct st (sort_by (λ (s : ApprovalStep). s.step_number) sts)
      (All-MemIn _ _ (λ a m.
        MemIn-All (λ (y : ApprovalStep). (y.id == st.id) ≡ false) sts a d.0
          (sort_by-MemIn (λ (s : ApprovalStep). s.step_number) sts a m)))
      (sort_by-Distinct sts d.1)
