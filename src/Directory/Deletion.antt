-- ===== src/Directory/Deletion.antt =====
-- What backend/internal/modules/categories deletes.
use reimbursement_system.Base.{
  ℕ, ◌+◌, ◌≡◌, refl, inl, inr, ◌⊎◌, true, not, none, List, [], ◌∷◌, arith, ltb, ◌==◌, ◌<◌,
  Bool-cases, Option-cases, is_some, filter, find?, length, lit,
}
use reimbursement_system.AppErr.{fault, driver, conflict, not_found}
use reimbursement_system.Store.{Category, Reimbursement, Env, World, ok, err, idle, statement}
use reimbursement_system.Reimbursements.Scope.{find_category}
use reimbursement_system.Directory.Categories.{refers, delete_category}

-- Nothing, or some row, refers to the category.
unused_or :
    (id : ℕ) (rs : List Reimbursement)
    → ((length (filter (refers id) rs) ≡ 0) × (find? (refers id) rs ≡ none))
      ⊎ (ltb 0 (length (filter (refers id) rs)) ≡ true)
unused_or id [] = inl (refl, refl)
unused_or id (r ∷ rs) = elim (Bool-cases (r.category_id == id)) [
  | inl used ↦ inr (ground arith)
  | inr other ↦ rw other (unused_or id rs)
]

remove_absent :
    (id : ℕ) (cs : List Category)
    → find_category id cs ≡ none
    → filter (λ (c : Category). not (c.id == id)) cs ≡ cs
remove_absent id [] h = refl
remove_absent id (c ∷ cs) h = ground (arith, remove_absent id cs)

-- Outside a transaction, Delete of a category changes no table and answers a failed statement,
-- that claims use the category when there are any that name it, or that the category is not
-- found when it is not there; or no claim names it, it was there, and it alone is removed.
pub delete_category_outcome :
    (id : ℕ) (e : Env) (w : World)
    → w.tx ≡ idle
    → let out = delete_category id e w in
      let used = length (filter (refers id) w.db.reimbursements) in
      ((out.0 ≡ err (fault driver))
        × (out.1.db ≡ w.db)
        × ((e.fails w.tick ≡ true) ⊎ (e.fails (w.tick + 1) ≡ true)))
      ⊎ ((out.0 ≡ err (conflict (lit "Cannot delete: category is used by reimbursement claims")))
          × (out.1.db ≡ w.db)
          × (0 < used))
      ⊎ ((out.0 ≡ err (not_found (lit "Category not found")))
          × (out.1.db ≡ w.db)
          × (find_category id w.db.categories ≡ none))
      ⊎ ((out.0 ≡ ok tt)
          × (used ≡ 0)
          × (is_some (find_category id w.db.categories) ≡ true)
          × (out.1.db ≡ record w.db {
            categories = filter (λ (c : Category). not (c.id == id)) w.db.categories;
          }))
unfolding delete_category statement
delete_category_outcome id e w free = elim (Bool-cases (e.fails w.tick)) [
  | inl lost ↦ inl (ground arith, ground arith, inl lost)
  | inr counted ↦ elim (unused_or id w.db.reimbursements) [
    | inr used ↦ inr (inl (ground arith, ground arith, ground arith))
    | inl (none_left, absent) ↦ elim (Bool-cases (e.fails (w.tick + 1))) [
      | inl lost ↦ inl (ground arith, ground arith, inr lost)
      | inr ran ↦ elim (Option-cases (find_category id w.db.categories)) [
        | inl missing ↦
            let same = remove_absent id w.db.categories missing in
            inr (inr (inl (ground arith, ground (arith, same), missing)))
        | inr (c, there) ↦ inr (inr (inr (ground arith, none_left, ground arith, ground arith)))
      ]
    ]
  ]
]
