-- ===== src/Approval/Sequence.antt =====
-- nextPendingIndex of statemachine.go and the order of the decisions.
use reimbursement_system.Base.{
  ℕ, zero, suc, ◌+◌, ◌<◌, ◌≡◌, refl, subst, ap, ◌∙◌, ◌≢◌, none, some, List, [], ◌∷◌, arith, All,
  length, get_elem?, take,
}
use reimbursement_system.Approval.{
  StepStatus, pending, step_approved, step_rejected, next_pending_from, next_pending_index,
}

next_pending_from-some :
    (i : ℕ) (ss : List StepStatus) {k : ℕ}
    → next_pending_from i ss ≡ some k
    → (n : ℕ) × (k ≡ i + n) × (get_elem? ss n ≡ some pending) × All (λ s. s ≢ pending) (take n ss)
unfolding next_pending_from
next_pending_from-some i [] h = cc
next_pending_from-some i (pending ∷ ss) h = (0, ground arith, refl, tt)
next_pending_from-some i (step_approved ∷ ss) h =
    let (n, e, here, before) = next_pending_from-some (suc i) ss h in
    (suc n, omega arith, here, (λ p. cc, before))
next_pending_from-some i (step_rejected ∷ ss) h =
    let (n, e, here, before) = next_pending_from-some (suc i) ss h in
    (suc n, omega arith, here, (λ p. cc, before))

next_pending_from-none :
    (i : ℕ) (ss : List StepStatus) → next_pending_from i ss ≡ none → All (λ s. s ≢ pending) ss
unfolding next_pending_from
next_pending_from-none i [] h = tt
next_pending_from-none i (pending ∷ ss) h = cc
next_pending_from-none i (step_approved ∷ ss) h = (λ p. cc, next_pending_from-none (suc i) ss h)
next_pending_from-none i (step_rejected ∷ ss) h = (λ p. cc, next_pending_from-none (suc i) ss h)

-- nextPendingIndex gives the first pending step, or none if no step is pending.
pub next_pending_index_lem :
    (ss : List StepStatus)
    → ((k : ℕ)
        → next_pending_index ss ≡ some k
        → (get_elem? ss k ≡ some pending) × All (λ s. s ≢ pending) (take k ss))
      × (next_pending_index ss ≡ none → All (λ s. s ≢ pending) ss)
unfolding next_pending_index
next_pending_index_lem ss = (
  λ k h.
      let (n, e, here, before) = next_pending_from-some 0 ss h in
      let same : n ≡ k = omega arith in
      subst (λ m. (get_elem? ss m ≡ some pending) × All (λ s. s ≢ pending) (take m ss)) same
        (here, before),
  next_pending_from-none 0 ss,
)

-- The first k steps are approved, and the others wait.
abbrev pub IsSequential : ℕ → List StepStatus → Type 0
IsSequential zero ss = All (λ s. s ≡ pending) ss
IsSequential (suc k) [] = ⊥
IsSequential (suc k) (s ∷ ss) = (s ≡ step_approved) × IsSequential k ss

next_pending_from-sequential :
    (i k : ℕ) (ss : List StepStatus)
    → IsSequential k ss
    → k < length ss
    → next_pending_from i ss ≡ some (i + k)
unfolding next_pending_from
next_pending_from-sequential i zero [] h l = elim l [ ]
next_pending_from-sequential i zero (s ∷ ss) h l = ground arith
next_pending_from-sequential i (suc k) [] h l = absurd h
next_pending_from-sequential i (suc k) (s ∷ ss) h l =
    ground (arith, next_pending_from-sequential (suc i) k ss h.1 (omega arith))

-- With k approved steps followed by pending ones, step k waits.
pub next_pending_index-sequential :
    (k : ℕ) (ss : List StepStatus)
    → IsSequential k ss
    → k < length ss
    → next_pending_index ss ≡ some k
unfolding next_pending_index
next_pending_index-sequential k ss h l =
    next_pending_from-sequential 0 k ss h l ∙ ap some (omega arith)
