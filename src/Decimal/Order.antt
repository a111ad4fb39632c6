-- ===== src/Decimal/Order.antt =====
-- compareNumeric of statemachine.go on any two strings, well formed or not.
use reimbursement_system.Base.{
  ◌+◌, ◌≤◌, ◌<◌, ◌≡◌, ◌⊎◌, false, arith, ℤ, pos, negsuc, ltb_ℤ, Text, pos_part, neg_part,
}
use reimbursement_system.Decimal.{split_decimal, compare_pairs, compare_numeric}

-- `compareNumeric(a, b) <= 0`.
abbrev pub AtMost : Text → Text → Type 0
AtMost a b = ltb_ℤ (pos 0) (compare_numeric a b) ≡ false

pairs_flip :
    (aw ac bw bc : ℤ)
    → (compare_pairs (aw, ac) (bw, bc) ≡ pos 1 → compare_pairs (bw, bc) (aw, ac) ≡ negsuc 0)
      × (compare_pairs (aw, ac) (bw, bc) ≡ negsuc 0 → compare_pairs (bw, bc) (aw, ac) ≡ pos 1)
      × (compare_pairs (aw, ac) (bw, bc) ≡ pos 0 → compare_pairs (bw, bc) (aw, ac) ≡ pos 0)
unfolding compare_pairs
pairs_flip aw ac bw bc = (λ h. ground arith, λ h. ground arith, λ h. ground arith)

-- Exchanging the arguments of the comparison turns its sign, on any two strings.
pub compare_numeric_flip :
    (a b : Text)
    → (compare_numeric a b ≡ pos 1 → compare_numeric b a ≡ negsuc 0)
      × (compare_numeric a b ≡ negsuc 0 → compare_numeric b a ≡ pos 1)
      × (compare_numeric a b ≡ pos 0 → compare_numeric b a ≡ pos 0)
unfolding compare_numeric
compare_numeric_flip a b =
    pairs_flip (split_decimal a).0 (split_decimal a).1 (split_decimal b).0 (split_decimal b).1

-- The order of the pairs, in whole parts first.
abbrev PairsAtMost : ℤ → ℤ → ℤ → ℤ → Type 0
PairsAtMost aw ac bw bc =
    (pos_part aw + neg_part bw < pos_part bw + neg_part aw)
    ⊎ ((pos_part aw + neg_part bw ≡ pos_part bw + neg_part aw)
        × (pos_part ac + neg_part bc ≤ pos_part bc + neg_part ac))

pairs_sound :
    (aw ac bw bc : ℤ)
    → ltb_ℤ (pos 0) (compare_pairs (aw, ac) (bw, bc)) ≡ false
    → PairsAtMost aw ac bw bc
unfolding compare_pairs
pairs_sound aw ac bw bc h = ground arith

pairs_complete :
    (aw ac bw bc : ℤ)
    → PairsAtMost aw ac bw bc
    → ltb_ℤ (pos 0) (compare_pairs (aw, ac) (bw, bc)) ≡ false
unfolding compare_pairs
pairs_complete aw ac bw bc h = ground arith

PairsAtMost-trans :
    (aw ac bw bc cw cc' : ℤ)
    → PairsAtMost aw ac bw bc
    → PairsAtMost bw bc cw cc'
    → PairsAtMost aw ac cw cc'
PairsAtMost-trans aw ac bw bc cw cc' h k = grind arith

-- The comparison is transitive on any three strings.
pub AtMost-trans : (a b c : Text) → AtMost a b → AtMost b c → AtMost a c
unfolding compare_numeric
AtMost-trans a b c h k =
    let (aw, ac) = split_decimal a in
    let (bw, bc) = split_decimal b in
    let (cw, cc') = split_decimal c in
    pairs_complete aw ac cw cc' (
      PairsAtMost-trans aw ac bw bc cw cc' (pairs_sound aw ac bw bc h) (pairs_sound bw bc cw cc' k))
