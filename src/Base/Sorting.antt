-- ===== src/Base/Sorting.antt =====
-- Membership by recursion, and how filters, maps and the sort by a key act on the elements.
use Prim.Native.Nat.{ℕ, zero, suc}
use mathlib.Core.Path.{◌≡◌, refl, ap, sym, subst, ◌∙◌}
use mathlib.Core.Logic.{◌⊎◌, inl, inr}
use mathlib.Core.Bool.{Bool, true}
use mathlib.Core.Option.{some}
use mathlib.Core.List.{List, [], ◌∷◌, ◌++◌, map}
use native.Mathlib.Omega.{arith}
use reimbursement_system.Base.Tests.{leb, Bool-cases}
use reimbursement_system.Base.Lists.{filter, get_elem?, All, insert_by, sort_by}

module _ {A : Type 0} where
  abbrev pub MemIn : A → List A → Type 0
  MemIn a [] = ⊥
  MemIn a (x ∷ xs) = (x ≡ a) ⊎ MemIn a xs

  pub get_elem?-MemIn : (xs : List A) (i : ℕ) (a : A) → get_elem? xs i ≡ some a → MemIn a xs
  get_elem?-MemIn [] i a h = cc
  get_elem?-MemIn (x ∷ xs) zero a h = inl (ground arith)
  get_elem?-MemIn (x ∷ xs) (suc i) a h = inr (get_elem?-MemIn xs i a h)

  pub filter-MemIn :
      (p : A → Bool) (xs : List A) (a : A) → MemIn a (filter p xs) → MemIn a xs × (p a ≡ true)
  filter-MemIn p [] a h = absurd h
  filter-MemIn p (x ∷ xs) a h = elim (Bool-cases (p x)) [
    | inl e ↦ elim (rw e at h) [
      | inl same ↦ (inl same, ap p (sym same) ∙ e)
      | inr rest ↦ let (m, q) = filter-MemIn p xs a rest in (inr m, q)
    ]
    | inr e ↦ let (m, q) = filter-MemIn p xs a (rw e at h) in (inr m, q)
  ]

  pub insert_by-MemIn :
      (key : A → ℕ) (b : A) (xs : List A) (a : A)
      → MemIn a (insert_by key b xs)
      → (b ≡ a) ⊎ MemIn a xs
  insert_by-MemIn key b [] a h = h
  insert_by-MemIn key b (x ∷ xs) a h = elim (Bool-cases (leb (key b) (key x))) [
    | inl e ↦ rw e at h
    | inr e ↦ elim (rw e at h) [
      | inl same ↦ inr (inl same)
      | inr rest ↦ elim (insert_by-MemIn key b xs a rest) [
        | inl same ↦ inl same
        | inr m ↦ inr (inr m)
      ]
    ]
  ]

  pub sort_by-MemIn : (key : A → ℕ) (xs : List A) (a : A) → MemIn a (sort_by key xs) → MemIn a xs
  sort_by-MemIn key [] a h = h
  sort_by-MemIn key (x ∷ xs) a h = elim (insert_by-MemIn key x (sort_by key xs) a h) [
    | inl same ↦ inl same
    | inr m ↦ inr (sort_by-MemIn key xs a m)
  ]

  pub All-MemIn {κ} : (P : A → Type κ) (xs : List A) → ((a : A) → MemIn a xs → P a) → All P xs
  All-MemIn P [] h = tt
  All-MemIn P (x ∷ xs) h = (h x (inl refl), All-MemIn P xs (λ a m. h a (inr m)))

  pub MemIn-All {κ} : (P : A → Type κ) (xs : List A) (a : A) → All P xs → MemIn a xs → P a
  MemIn-All P [] a h m = absurd m
  MemIn-All P (x ∷ xs) a h (inl same) = subst P same h.0
  MemIn-All P (x ∷ xs) a h (inr m) = MemIn-All P xs a h.1 m

  pub filter-append :
      (p : A → Bool) (xs ys : List A) → filter p (xs ++ ys) ≡ filter p xs ++ filter p ys
  filter-append p [] ys = refl
  filter-append p (x ∷ xs) ys = elim (Bool-cases (p x)) [
    | inl e ↦ rw (e, filter-append p xs ys)
    | inr e ↦ rw (e, filter-append p xs ys)
  ]

  -- A change that keeps the test and the key goes through the filter and the sort.
  pub filter-map :
      (p : A → Bool) (g : A → A) (xs : List A)
      → ((a : A) → p (g a) ≡ p a)
      → filter p (map g xs) ≡ map g (filter p xs)
  filter-map p g [] h = refl
  filter-map p g (x ∷ xs) h = elim (Bool-cases (p x)) [
    | inl e ↦ rw (h x, e, filter-map p g xs h)
    | inr e ↦ rw (h x, e, filter-map p g xs h)
  ]

  insert_by-map :
      (key : A → ℕ) (g : A → A) (a : A) (xs : List A)
      → ((b : A) → key (g b) ≡ key b)
      → insert_by key (g a) (map g xs) ≡ map g (insert_by key a xs)
  insert_by-map key g a [] h = refl
  insert_by-map key g a (x ∷ xs) h = elim (Bool-cases (leb (key a) (key x))) [
    | inl e ↦ rw (h a, h x, e)
    | inr e ↦ rw (h a, h x, e, insert_by-map key g a xs h)
  ]

  pub sort_by-map :
      (key : A → ℕ) (g : A → A) (xs : List A)
      → ((b : A) → key (g b) ≡ key b)
      → sort_by key (map g xs) ≡ map g (sort_by key xs)
  sort_by-map key g [] h = refl
  sort_by-map key g (x ∷ xs) h =
      rw (sort_by-map key g xs h) (insert_by-map key g x (sort_by key xs) h)

  -- A change that leaves every element alone.
  pub map-id_of_All : (g : A → A) (xs : List A) → All (λ a. g a ≡ a) xs → map g xs ≡ xs
  map-id_of_All g [] h = refl
  map-id_of_All g (x ∷ xs) h = rw (h.0, map-id_of_All g xs h.1)
