-- ===== src/Approval/Chain.antt =====
-- The approval matrix of statemachine.go: which roles stand in a chain.
use text.Mathlib.TextEquality.{eq_iff}
use reimbursement_system.Base.{
  ℕ, ◌/◌, ◌%◌, pos, sym, ap, ◌∙◌, ◌*◌, ◌^◌, ◌≤◌, ◌<◌, ◌≡◌, refl, ◌↔◌, inl, inr, Bool, true, false,
  List, [], ◌∷◌, ◌++◌, ◌&&◌, ◌||◌, not, arith, Bool-cases, Text,
}
use reimbursement_system.Decimal.{numeric_text, split_decimal, compare_pairs, compare_numeric}
use reimbursement_system.Decimal.Exact.{compare_numeric_exact, split_decimal-numeric_text}
use reimbursement_system.Decimal.Order.{AtMost, AtMost-trans}
use reimbursement_system.Approval.{
  Role, employee, manager, finance, admin, unlisted, role_eq, at_most, approval_chain,
  exclude_submitter,
}

-- A threshold that reads as n cents compares like the amount of n cents.
compare_threshold :
    (a t : Text) (n : ℕ)
    → n < 100 * 2 ^ 63
    → split_decimal t ≡ (pos (n / 100), pos (n % 100))
    → compare_numeric a t ≡ compare_numeric a (numeric_text n)
unfolding compare_numeric
compare_threshold a t n small h =
    ap (compare_pairs (split_decimal a)) (h ∙ sym (split_decimal-numeric_text n small))

-- For amounts below 100 * 2 ^ 63 cents as PostgreSQL prints them, and thresholds in order that
-- read as such amounts, with or without decimals, the approval chain is the documented matrix of
-- three tiers.
pub approval_chain_tiers :
    (amount t1 t2 : ℕ) (low high : Text)
    → split_decimal low ≡ (pos (t1 / 100), pos (t1 % 100))
    → split_decimal high ≡ (pos (t2 / 100), pos (t2 % 100))
    → amount < 100 * 2 ^ 63
    → t1 ≤ t2
    → t2 < 100 * 2 ^ 63
    → (amount ≤ t1 → approval_chain (numeric_text amount) low high ≡ manager ∷ [])
      × (t1 < amount
          → amount ≤ t2
          → approval_chain (numeric_text amount) low high ≡ manager ∷ finance ∷ [])
      × (t2 < amount
          → approval_chain (numeric_text amount) low high ≡ manager ∷ finance ∷ admin ∷ [])
unfolding approval_chain
approval_chain_tiers amount t1 t2 low high l h small ordered bound =
    let a = numeric_text amount in
    let first = compare_threshold a low t1 (omega arith) l in
    let second = compare_threshold a high t2 bound h in
    rw (first, second)
      (ground (arith, compare_numeric_exact amount t1, compare_numeric_exact amount t2))

-- If one text is at most another in the order of compareNumeric, the chain of the first begins
-- the chain of the second.
pub approval_chain_mono :
    (a b t1 t2 : Text)
    → AtMost a b
    → (rest : List Role) × (approval_chain b t1 t2 ≡ approval_chain a t1 t2 ++ rest)
unfolding approval_chain
approval_chain_mono a b t1 t2 h = elim (Bool-cases (at_most a t1)) [
  | inl a1 ↦ elim (Bool-cases (at_most b t1)) [
    | inl b1 ↦ ([], ground arith)
    | inr b1 ↦ elim (Bool-cases (at_most b t2)) [
      | inl b2 ↦ (finance ∷ [], ground arith)
      | inr b2 ↦ (finance ∷ admin ∷ [], ground arith)
    ]
  ]
  | inr a1 ↦ elim (Bool-cases (at_most a t2)) [
    | inl a2 ↦ elim (Bool-cases (at_most b t2)) [
      | inl b2 ↦ ([], ground (arith, AtMost-trans a b t1 h))
      | inr b2 ↦ (admin ∷ [], ground (arith, AtMost-trans a b t1 h))
    ]
    | inr a2 ↦ ([], ground (arith, AtMost-trans a b t1 h, AtMost-trans a b t2 h))
  ]
]

pub role_eq_sound : (r s : Role) → role_eq r s ≡ true → r ≡ s
role_eq_sound employee s h = ground arith
role_eq_sound manager s h = ground arith
role_eq_sound finance s h = ground arith
role_eq_sound admin s h = ground arith
role_eq_sound (unlisted r) (unlisted s) h = ground (arith, eq_iff r s)
role_eq_sound (unlisted r) _ h = cc

pub role_eq_refl : (r : Role) → role_eq r r ≡ true
role_eq_refl employee = refl
role_eq_refl manager = refl
role_eq_refl finance = refl
role_eq_refl admin = refl
role_eq_refl (unlisted s) = ground (arith, eq_iff s s)

-- Whether a role stands in a chain.
abbrev pub elem : Role → List Role → Bool
elem r [] = false
elem r (x ∷ chain) = role_eq x r || elem r chain

-- The submitter's role is dropped from the chain, wherever it stands, and no other role is.
pub elem-exclude_submitter :
    (r s : Role) (chain : List Role)
    → elem r (exclude_submitter chain s) ≡ (elem r chain && not (role_eq r s))
unfolding exclude_submitter
elem-exclude_submitter r s [] = refl
elem-exclude_submitter r s (x ∷ chain) =
    ground (
      arith,
      elem-exclude_submitter r s chain,
      role_eq_sound x r,
      role_eq_sound x s,
      role_eq_refl x,
    )

-- No approver is left exactly when a manager submits an amount of the first tier.
pub no_approver_iff :
    (amount t1 t2 : Text) (s : Role)
    → (exclude_submitter (approval_chain amount t1 t2) s ≡ [])
      ↔ ((at_most amount t1 ≡ true) × (s ≡ manager))
unfolding approval_chain exclude_submitter
no_approver_iff amount t1 t2 s = (λ h. ground arith, λ h. ground arith)
