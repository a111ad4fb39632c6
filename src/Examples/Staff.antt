-- ===== src/Examples/Staff.antt =====
-- The theorems on users and categories, applied to the tables of the small company.
use reimbursement_system.Base.{
  ◌≡◌, ◌<◌, ◌⊎◌, ◌==◌, ◌++◌, refl, true, false, not, none, [], ◌∷◌, lit, trim_space, is_some, find?,
  filter, length,
}
use reimbursement_system.Approval.{manager}
use reimbursement_system.AppErr.{fault, driver, conflict, not_found}
use reimbursement_system.Reimbursements.Scope.{find_category}
use reimbursement_system.Directory.Users.{UserCreate, user_response, email_taken, create_user}
use reimbursement_system.Directory.Categories.{refers, delete_category}
use reimbursement_system.Directory.Registration.{create_user_outcome}
use reimbursement_system.Directory.Deletion.{delete_category_outcome}
use reimbursement_system.Examples.Tables.{calm, start}
use reimbursement_system.Store.{World, User, Category, ok, err, is_ok}

abbrev one_user : User
one_user = record {
  id = 10;
  name = lit "Ani";
  email = b'a' ∷ [];
  password_hash = [];
  role = manager;
  is_active = true;
  created_at = 0;
  updated_at = 0;
}

abbrev two_users : World
two_users = record start {
  db = record start.db { users = one_user ∷ record one_user { id = 11; email = b'b' ∷ [] } ∷ [] };
}

abbrev hired : UserCreate
hired = record { name = lit "Eka"; email = b'c' ∷ []; password = lit "secret12"; role = manager }

abbrev eka : User
eka = record {
  id = 101;
  name = lit "Eka";
  email = calm.to_lower (trim_space (b'c' ∷ []));
  password_hash = lit "secret12";
  role = manager;
  is_active = true;
  created_at = 1000;
  updated_at = 1000;
}

create_user_outcome_example :
    let out = create_user hired calm two_users in
    ((is_ok out.0 ≡ false)
      × (out.1.db ≡ two_users.db)
      × ((false ≡ true) ⊎ (false ≡ true) ⊎ (true ≡ false)))
    ⊎ ((out.0 ≡ err (conflict (lit "Email already registered")))
        × (out.1.db ≡ two_users.db)
        × (is_some (find? (email_taken calm eka) two_users.db.users) ≡ true))
    ⊎ ((out.0 ≡ ok (user_response calm eka))
        × (true ≡ true)
        × (find? (email_taken calm eka) two_users.db.users ≡ none)
        × (out.1.db ≡ record two_users.db { users = two_users.db.users ++ eka ∷ [] }))
create_user_outcome_example = create_user_outcome hired calm two_users refl

-- The category that the draft claim refers to.
delete_category_outcome_example :
    let out = delete_category 5 calm start in
    let used = length (filter (refers 5) start.db.reimbursements) in
    ((out.0 ≡ err (fault driver)) × (out.1.db ≡ start.db) × ((false ≡ true) ⊎ (false ≡ true)))
    ⊎ ((out.0 ≡ err (conflict (lit "Cannot delete: category is used by reimbursement claims")))
        × (out.1.db ≡ start.db)
        × (0 < used))
    ⊎ ((out.0 ≡ err (not_found (lit "Category not found")))
        × (out.1.db ≡ start.db)
        × (find_category 5 start.db.categories ≡ none))
    ⊎ ((out.0 ≡ ok tt)
        × (used ≡ 0)
        × (is_some (find_category 5 start.db.categories) ≡ true)
        × (out.1.db ≡ record start.db {
          categories = filter (λ (c : Category). not (c.id == 5)) start.db.categories;
        }))
delete_category_outcome_example = delete_category_outcome 5 calm start refl
