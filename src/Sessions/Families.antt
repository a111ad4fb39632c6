-- ===== src/Sessions/Families.antt =====
-- What rotation and revocation leave of a family of refresh tokens.
use reimbursement_system.Base.{
  ℕ, ◌+◌, ◌≡◌, refl, sym, ap, subst, ◌∙◌, inl, inr, true, false, Option, none, some, List, [], ◌∷◌,
  arith, Bool-cases, All, Text, text_eq, text_eq_refl,
}
use reimbursement_system.Store.{
  SessionEntry, Redis, Env, World, ok, pure, ignore_err, command, is_ok, >>=-step, ignore_err-step,
  command-step, command-err,
}
use reimbursement_system.Sessions.{
  set, set_jti, add_member, remove_member, delete_all, consume, token, revoke_family, issue_sibling,
  rotate,
}

-- No token of these is live.
abbrev pub AllDead : List Text → Redis → Type 0
AllDead js r = All (λ j. r.jtis j ≡ none) js

delete_all-none :
    (js : List Text) (r : Redis) (j : Text) → r.jtis j ≡ none → (delete_all js r).jtis j ≡ none
delete_all-none [] r j h = h
delete_all-none (k ∷ js) r j h = delete_all-none js (set_jti k none r) j (ground arith)

pub delete_all-AllDead : (js : List Text) (r : Redis) → AllDead js (delete_all js r)
delete_all-AllDead [] r = tt
delete_all-AllDead (j ∷ js) r = (
  delete_all-none js (set_jti j none r) j (rw (text_eq_refl j) refl),
  delete_all-AllDead js (set_jti j none r),
)

-- The store without a family and its tokens.
abbrev pub emptied : Text → List Text → Redis → Redis
emptied fam js r = let r' = delete_all js r in record r' { fams = set fam [] r'.fams }

-- Once Redis has listed the members, one pipeline deletes them and the family.
pub revoke_family-step :
    (fam : Text) (e : Env) (w : World)
    → e.fails w.tick ≡ false
    → revoke_family fam e w
      ≡ command (λ r. (tt, emptied fam (w.redis.fams fam) r)) e (record w { tick = w.tick + 1 })
unfolding revoke_family
revoke_family-step fam e w listed =
    >>=-step (ignore_err [] (command (λ r. (r.fams fam, r))))
      (λ jtis. command (λ r. (tt, emptied fam jtis r))) e w (w.redis.fams fam)
      (record w { tick = w.tick + 1 })
      (ignore_err-step [] (command (λ r. (r.fams fam, r))) e w (w.redis.fams fam)
        (record w { tick = w.tick + 1 }) (command-step (λ r. (r.fams fam, r)) e w listed))

-- A revocation whose members Redis could list, and which it confirms, leaves no token of the
-- family live.
pub revoke_family-AllDead :
    (fam : Text) (e : Env) (w : World)
    → e.fails w.tick ≡ false
    → is_ok (revoke_family fam e w).0 ≡ true
    → AllDead (w.redis.fams fam) (revoke_family fam e w).1.redis
revoke_family-AllDead fam e w listed h =
    let empty_it : Redis → Unit {0} × Redis = λ r. (tt, emptied fam (w.redis.fams fam) r) in
    let step = revoke_family-step fam e w listed in
    elim (Bool-cases (e.fails (w.tick + 1))) [
      | inl failed ↦ absurd (
          bool_clash (
            sym h
            ∙ ap (λ p. is_ok p.0) step
            ∙ command-err empty_it e (record w { tick = w.tick + 1 }) failed))
      | inr ran ↦
          subst (λ p. AllDead (w.redis.fams fam) p.1.redis)
            (sym (step ∙ command-step empty_it e (record w { tick = w.tick + 1 }) ran))
            (delete_all-AllDead (w.redis.fams fam) w.redis)
    ]
  where
    bool_clash : true ≡ false → ⊥
    bool_clash k = cc

-- The world in which the sibling is written.
abbrev taken : Text → World → World
taken jti w = record w { redis = set_jti jti none w.redis; tick = w.tick + 1 }

issue_sibling-step :
    (fam jti : Text) (user_id : ℕ) (e : Env) (w : World)
    → ((t : ℕ) → e.fails t ≡ false)
    → let new_jti = e.random_hex w.tick in
      let new_secret = e.random_hex (w.tick + 1) in
      issue_sibling fam jti user_id e w ≡ (
        ok (some (token fam new_jti new_secret, user_id)),
        record w {
          redis = add_member fam new_jti (
              remove_member fam jti (
                set_jti new_jti
                  (some (record { user_id = user_id; hash = e.hash_secret new_secret }))
                  w.redis));
          tick = w.tick + 1 + 1 + 1;
        },
      )
unfolding issue_sibling
issue_sibling-step fam jti user_id e w calm =
    let new_jti = e.random_hex w.tick in
    let new_secret = e.random_hex (w.tick + 1) in
    let f : Redis → Unit {0} × Redis = λ r. (
      tt,
      add_member fam new_jti (
          remove_member fam jti (
            set_jti new_jti (some (record { user_id = user_id; hash = e.hash_secret new_secret }))
              r)),
    ) in
    let w2 = record w { tick = w.tick + 1 + 1 } in
    >>=-step (command f) (λ u. pure (some (token fam new_jti new_secret, user_id))) e w2 tt
      (record w { redis = (f w.redis).1; tick = w.tick + 1 + 1 + 1 })
      (command-step f e w2 (calm (w.tick + 1 + 1)))

consume-step :
    (fam jti secret : Text) (user_id : ℕ) (o : Option SessionEntry) (e : Env) (w : World)
    → o ≡ some (record { user_id = user_id; hash = e.hash_secret secret })
    → consume fam jti secret o e w ≡ issue_sibling fam jti user_id e w
consume-step fam jti secret user_id o e w h = rw h (rw (text_eq_refl (e.hash_secret secret)) refl)

-- Unless a command fails, a live token with its secret rotates under whatever family the client
-- names, and the old family is not looked at.
pub rotate_any_family :
    (fam jti secret : Text) (user_id : ℕ) (e : Env) (w : World)
    → ((t : ℕ) → e.fails t ≡ false)
    → w.redis.jtis jti ≡ some (record { user_id = user_id; hash = e.hash_secret secret })
    → let new_jti = e.random_hex (w.tick + 1) in
      let new_secret = e.random_hex (w.tick + 1 + 1) in
      rotate fam jti secret e w ≡ (
        ok (some (token fam new_jti new_secret, user_id)),
        record w {
          redis = add_member fam new_jti (
              remove_member fam jti (
                set_jti new_jti
                  (some (record { user_id = user_id; hash = e.hash_secret new_secret }))
                  (set_jti jti none w.redis)));
          tick = w.tick + 1 + 1 + 1 + 1;
        },
      )
unfolding rotate
rotate_any_family fam jti secret user_id e w calm holds =
    let take : Redis → Option SessionEntry × Redis = λ r. (r.jtis jti, set_jti jti none r) in
    >>=-step (ignore_err none (command take)) (consume fam jti secret) e w (w.redis.jtis jti)
      (taken jti w)
      (ignore_err-step none (command take) e w (w.redis.jtis jti) (taken jti w)
        (command-step take e w (calm w.tick)))
    ∙ consume-step fam jti secret user_id (w.redis.jtis jti) e (taken jti w) holds
    ∙ issue_sibling-step fam jti user_id e (taken jti w) calm

delete_all-keeps :
    (js : List Text) (r : Redis) (j : Text)
    → All (λ k. text_eq j k ≡ false) js
    → (delete_all js r).jtis j ≡ r.jtis j
delete_all-keeps [] r j h = refl
delete_all-keeps (k ∷ js) r j h = delete_all-keeps js (set_jti k none r) j h.1 ∙ rw h.0 refl

-- Unless a command fails, a token rotated under the name of another family stays live when its
-- own family is revoked, if the fresh id is none of that family's.
pub family_escape :
    (own foreign jti secret : Text) (user_id : ℕ) (e : Env) (w : World)
    → ((t : ℕ) → e.fails t ≡ false)
    → w.redis.jtis jti ≡ some (record { user_id = user_id; hash = e.hash_secret secret })
    → text_eq own foreign ≡ false
    → All (λ k. text_eq (e.random_hex (w.tick + 1)) k ≡ false) (w.redis.fams own)
    → (revoke_family own e (rotate foreign jti secret e w).1).1.redis.jtis
        (e.random_hex (w.tick + 1))
      ≡ some (record { user_id = user_id; hash = e.hash_secret (e.random_hex (w.tick + 1 + 1)) })
family_escape own foreign jti secret user_id e w calm holds differ fresh =
    let new_jti = e.random_hex (w.tick + 1) in
    let entry : SessionEntry = record {
      user_id = user_id;
      hash = e.hash_secret (e.random_hex (w.tick + 1 + 1));
    } in
    let r1 =
      add_member foreign new_jti
        (remove_member foreign jti (set_jti new_jti (some entry) (set_jti jti none w.redis))) in
    let w1 = record w { redis = r1; tick = w.tick + 1 + 1 + 1 + 1 } in
    let turned = rotate_any_family foreign jti secret user_id e w calm holds in
    let same_members : r1.fams own ≡ w.redis.fams own = rw differ refl in
    let empty_it : Redis → Unit {0} × Redis = λ r. (tt, emptied own (r1.fams own) r) in
    let revoked =
      revoke_family-step own e w1 (calm (w.tick + 1 + 1 + 1 + 1))
      ∙ command-step empty_it e (record w1 { tick = w.tick + 1 + 1 + 1 + 1 + 1 })
          (calm (w.tick + 1 + 1 + 1 + 1 + 1)) in
    ap (λ p. (revoke_family own e p.1).1.redis.jtis new_jti) turned
    ∙ ap (λ p. p.1.redis.jtis new_jti) revoked
    ∙ delete_all-keeps (r1.fams own) r1 new_jti
        (subst (λ js. All (λ k. text_eq new_jti k ≡ false) js) (sym same_members) fresh)
    ∙ rw (text_eq_refl new_jti) refl
