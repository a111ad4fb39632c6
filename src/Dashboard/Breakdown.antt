-- ===== src/Dashboard/Breakdown.antt =====
-- The breakdown by category of backend/internal/modules/dashboard.
use reimbursement_system.Base.{
  ℕ, ◌+◌, ◌≡◌, refl, sym, ◌∙◌, inl, inr, true, false, List, [], ◌∷◌, arith, find?, ◌==◌, Bool-cases,
  ==_iff, All, if◌then◌else◌, is_some, ap₂,
}
use reimbursement_system.Store.{Category, Reimbursement}
use reimbursement_system.Reimbursements.Repository.Policy.{sum_amounts}
use reimbursement_system.Dashboard.{in_category}

abbrev pub sum_over : (Category → ℕ) → List Category → ℕ
sum_over f [] = 0
sum_over f (c ∷ cs) = f c + sum_over f cs

-- Each id belongs to one category.
abbrev pub OneEach : List Category → Type 0
OneEach [] = Unit
OneEach (c ∷ cs) = All (λ (d : Category). (d.id == c.id) ≡ false) cs × OneEach cs

-- The claim's category is listed.
abbrev pub HasCategory : List Category → Reimbursement → Type 0
HasCategory cs r = is_some (find? (λ (c : Category). c.id == r.category_id) cs) ≡ true

share : Reimbursement → Category → ℕ
share r c = if r.category_id == c.id then r.amount else 0

sum_over-absent :
    (r : Reimbursement) (c : Category) (cs : List Category)
    → r.category_id ≡ c.id
    → All (λ (d : Category). (d.id == c.id) ≡ false) cs
    → sum_over (share r) cs ≡ 0
unfolding share
sum_over-absent r c [] h others = refl
sum_over-absent r c (d ∷ cs) h others = ground (arith, others.0, sum_over-absent r c cs h others.1)

sum_over-share :
    (r : Reimbursement) (cs : List Category)
    → OneEach cs
    → HasCategory cs r
    → sum_over (share r) cs ≡ r.amount
unfolding share
sum_over-share r [] one there = ground arith
sum_over-share r (c ∷ cs) one there = elim (Bool-cases (c.id == r.category_id)) [
  | inl same ↦ ground (arith, sum_over-absent r c cs (sym ((==_iff _ _).0 same)) one.0)
  | inr other ↦ ground (arith, sum_over-share r cs one.1)
]

sum_over-cons :
    (r : Reimbursement) (rs : List Reimbursement) (cs : List Category)
    → sum_over (λ c. sum_amounts (in_category (r ∷ rs) c)) cs
      ≡ sum_over (share r) cs + sum_over (λ c. sum_amounts (in_category rs c)) cs
unfolding share
sum_over-cons r rs [] = refl
sum_over-cons r rs (c ∷ cs) = elim (Bool-cases (r.category_id == c.id)) [
  | inl same ↦ ground (arith, sum_over-cons r rs cs)
  | inr other ↦ ground (arith, sum_over-cons r rs cs)
]

sum_over-nil : (cs : List Category) → sum_over (λ c. sum_amounts (in_category [] c)) cs ≡ 0
sum_over-nil [] = refl
sum_over-nil (c ∷ cs) = ground (arith, sum_over-nil cs)

-- If the categories have distinct ids and every claim has its category, the amounts behind the
-- rows of a breakdown add up to the amounts behind the total of all of its claims.
pub breakdown_adds_up :
    (claims : List Reimbursement) (cs : List Category)
    → OneEach cs
    → All (HasCategory cs) claims
    → sum_over (λ c. sum_amounts (in_category claims c)) cs ≡ sum_amounts claims
breakdown_adds_up [] cs one there = sum_over-nil cs
breakdown_adds_up (r ∷ claims) cs one there =
    sum_over-cons r claims cs
    ∙ ap₂ ◌+◌ (sum_over-share r cs one there.0) (breakdown_adds_up claims cs one there.1)
