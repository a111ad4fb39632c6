-- ===== src/Directory/Registration.antt =====
-- What backend/internal/modules/users registers.
use reimbursement_system.Base.{
  ◌+◌, ◌≡◌, refl, ap, ◌∙◌, inl, inr, ◌⊎◌, true, false, none, [], ◌∷◌, ◌++◌, arith, Bool-cases,
  Option-cases, is_some, find?, trim_space, lit,
}
use reimbursement_system.AppErr.{Err, fault, driver, unique_violation, conflict, internal_err}
use reimbursement_system.Store.{
  User, Env, World, Result, ok, err, idle, call, statement, is_ok, map_err, new_uuid, ask, ◌>>=◌,
  ◌>>◌, >>=-step, >>=-stop, map_err-of,
}
use reimbursement_system.Directory.Users.{
  UserCreate, user_response, email_taken, is_listed, new_user, insert_user, create_user, add_user,
  email_err,
}

call-cases :
    (e : Env) (w : World)
    → ((e.fails w.tick ≡ true)
        × (call tt e w ≡ (err (fault driver), record w { tick = w.tick + 1 })))
      ⊎ ((e.fails w.tick ≡ false) × (call tt e w ≡ (ok tt, record w { tick = w.tick + 1 })))
unfolding call
call-cases e w = elim (Bool-cases (e.fails w.tick)) [
  | inl lost ↦ inl (lost, rw lost refl)
  | inr ran ↦ inr (ran, rw ran refl)
]

added-cases :
    (u : User) (e : Env) (w : World)
    → w.tx ≡ idle
    → let out = statement (add_user e u) e w in
      ((out.0 ≡ err (fault driver))
        × (out.1.db ≡ w.db)
        × ((e.fails w.tick ≡ true) ⊎ (is_listed u.role ≡ false)))
      ⊎ ((out.0 ≡ err (fault unique_violation))
          × (out.1.db ≡ w.db)
          × (is_some (find? (email_taken e u) w.db.users) ≡ true))
      ⊎ ((out.0 ≡ ok tt)
          × (is_listed u.role ≡ true)
          × (find? (email_taken e u) w.db.users ≡ none)
          × (out.1.db ≡ record w.db { users = w.db.users ++ u ∷ [] }))
unfolding statement
added-cases u e w free = elim (Bool-cases (e.fails w.tick)) [
  | inl lost ↦ inl (ground arith, ground arith, inl lost)
  | inr ran ↦ elim (Bool-cases (is_listed u.role)) [
    | inr other ↦ inl (ground arith, ground arith, inr other)
    | inl listed ↦ elim (Option-cases (find? (email_taken e u) w.db.users)) [
      | inl new ↦ inr (inr (ground arith, listed, new, ground arith))
      | inr (x, taken) ↦ inr (inl (ground arith, ground arith, ap is_some taken))
    ]
  ]
]

-- The INSERT fails, or meets a user with the id or the email, or adds the user.
insert_user-cases :
    (u : User) (e : Env) (w : World)
    → w.tx ≡ idle
    → let out = insert_user u e w in
      ((x : Err) × (out.0 ≡ err x)
        × (out.1.db ≡ w.db)
        × ((e.fails w.tick ≡ true) ⊎ (is_listed u.role ≡ false)))
      ⊎ ((out.0 ≡ err (conflict (lit "Email already registered")))
          × (out.1.db ≡ w.db)
          × (is_some (find? (email_taken e u) w.db.users) ≡ true))
      ⊎ ((out.0 ≡ ok tt)
          × (is_listed u.role ≡ true)
          × (find? (email_taken e u) w.db.users ≡ none)
          × (out.1.db ≡ record w.db { users = w.db.users ++ u ∷ [] }))
unfolding insert_user
insert_user-cases u e w free =
    let w' = (statement (add_user e u) e w).1 in
    let here = λ (r : Result (Unit {0})) (h : (statement (add_user e u) e w).0 ≡ r).
      map_err-of email_err (λ e. statement (add_user e u) e) e w (r, w') (ap (λ r. (r, w')) h) in
    elim (added-cases u e w free) [
      | inl (ran, same, why) ↦
          let out = here (err (fault driver)) ran in rw out (inl (fault driver, refl, same, why))
      | inr (inl (ran, same, taken)) ↦
          let out = here (err (fault unique_violation)) ran in
          rw out (inr (inl (refl, same, taken)))
      | inr (inr (ran, listed, new, added)) ↦
          let out = here (ok tt) ran in rw out (inr (inr (refl, listed, new, added)))
    ]

-- Outside a transaction, a registration is refused because bcrypt or the INSERT failed or
-- because the role is not one of the four, or it is answered that the email is registered and a
-- user has its email, in lower case, or its id, and in these cases no table changes; or it adds
-- one active user behind the others, with the trimmed email in lower case, the hash of the
-- password and the role of the request, whose id and, in lower case, email no user had.
pub create_user_outcome :
    (req : UserCreate) (e : Env) (w : World)
    → w.tx ≡ idle
    → let out = create_user req e w in
      let u : User = record {
        id = e.fresh_id (w.tick + 1);
        name = req.name;
        email = e.to_lower (trim_space req.email);
        password_hash = e.hash_password req.password;
        role = req.role;
        is_active = true;
        created_at = e.now;
        updated_at = e.now;
      } in
      ((is_ok out.0 ≡ false)
        × (out.1.db ≡ w.db)
        × ((e.fails w.tick ≡ true)
            ⊎ (e.fails (w.tick + 1 + 1) ≡ true)
            ⊎ (is_listed req.role ≡ false)))
      ⊎ ((out.0 ≡ err (conflict (lit "Email already registered")))
          × (out.1.db ≡ w.db)
          × (is_some (find? (email_taken e u) w.db.users) ≡ true))
      ⊎ ((out.0 ≡ ok (user_response e u))
          × (is_listed req.role ≡ true)
          × (find? (email_taken e u) w.db.users ≡ none)
          × (out.1.db ≡ record w.db { users = w.db.users ++ u ∷ [] }))
unfolding create_user
create_user_outcome req e w free =
    let hash = map_err internal_err (call tt) in
    let u = new_user e req (e.fresh_id (w.tick + 1)) in
    let later = λ (v : Unit {0}). new_uuid >>= λ id.
    ask (λ e. new_user e req id) >>= λ u. insert_user u >> ask (λ e. user_response e u) in
    let w1 = record w { tick = w.tick + 1 } in
    let w2 = record w1 { tick = w.tick + 1 + 1 } in
    elim (call-cases e w) [
      | inl (lost, stopped) ↦
          let out =
            >>=-stop hash later e w (internal_err (fault driver)) w1
              (map_err-of internal_err (call tt) e w _ stopped) in
          rw out (inl (refl, refl, inl lost))
      | inr (hashed, ran) ↦
          let on = >>=-step hash later e w tt w1 (map_err-of internal_err (call tt) e w _ ran) in
          let w3 = (insert_user u e w2).1 in
          let show = λ (v : Unit {0}). ask (λ e. user_response e u) in
          elim (insert_user-cases u e w2 free) [
            | inl (x, ran, same, why) ↦
                let out = on ∙ >>=-stop (insert_user u) show e w2 x w3 (ap (λ r. (r, w3)) ran) in
                rw out (inl (refl, same, inr why))
            | inr (inl (ran, same, taken)) ↦
                let out =
                  on
                  ∙ >>=-stop (insert_user u) show e w2 (conflict (lit "Email already registered"))
                      w3 (ap (λ r. (r, w3)) ran) in
                rw out (inr (inl (refl, same, taken)))
            | inr (inr (ran, listed, new, added)) ↦
                let out = on ∙ >>=-step (insert_user u) show e w2 tt w3 (ap (λ r. (r, w3)) ran) in
                rw out (inr (inr (refl, listed, new, added)))
          ]
    ]
