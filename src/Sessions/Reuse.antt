-- ===== src/Sessions/Reuse.antt =====
-- Refresh with a token that was rotated before, or expired.
use reimbursement_system.Base.{ℕ, ◌+◌, ◌≡◌, sym, ap, subst, ◌∙◌, false, Option, none, some, Text}
use reimbursement_system.AppErr.{internal_err}
use reimbursement_system.Store.{
  SessionEntry, Redis, Env, World, ok, err, throw, map_err, ignore_err, command, is_ok, >>=-step,
  ignore_err-step, map_err-step, command-step,
}
use reimbursement_system.Sessions.{
  set_jti, consume, revoke_family, rotate, expired, renew, parse_refresh_token, refresh_parsed,
  refresh,
}
use reimbursement_system.Sessions.Families.{
  AllDead, emptied, revoke_family-step, delete_all-AllDead,
}

rotate-dead :
    (fam jti secret : Text) (e : Env) (w : World)
    → e.fails w.tick ≡ false
    → w.redis.jtis jti ≡ none
    → rotate fam jti secret e w
      ≡ (ok none, record w { redis = set_jti jti none w.redis; tick = w.tick + 1 })
unfolding rotate
rotate-dead fam jti secret e w listed dead =
    let take : Redis → Option SessionEntry × Redis = λ r. (r.jtis jti, set_jti jti none r) in
    let w1 = record w { redis = set_jti jti none w.redis; tick = w.tick + 1 } in
    >>=-step (ignore_err none (command take)) (consume fam jti secret) e w (w.redis.jtis jti) w1
      (ignore_err-step none (command take) e w (w.redis.jtis jti) w1 (command-step take e w listed))
    ∙ ap (λ o. consume fam jti secret o e w1) dead

-- The store behind the refused refresh.
abbrev closed : Text → Text → World → World
closed fam jti w =
    let r = set_jti jti none w.redis in
    record w { redis = emptied fam (r.fams fam) r; tick = w.tick + 1 + 1 + 1 }

refresh-dead :
    (fam jti secret : Text) (e : Env) (w : World)
    → ((t : ℕ) → e.fails t ≡ false)
    → w.redis.jtis jti ≡ none
    → refresh_parsed (some (fam, jti, secret)) e w ≡ (err expired, closed fam jti w)
refresh-dead fam jti secret e w calm dead =
    let r = set_jti jti none w.redis in
    let w1 = record w { redis = r; tick = w.tick + 1 } in
    let empty_it : Redis → Unit {0} × Redis = λ r'. (tt, emptied fam (r.fams fam) r') in
    let revoked : revoke_family fam e w1 ≡ (ok tt, closed fam jti w) =
      revoke_family-step fam e w1 (calm (w.tick + 1))
      ∙ command-step empty_it e (record w1 { tick = w.tick + 1 + 1 }) (calm (w.tick + 1 + 1)) in
    >>=-step (map_err internal_err (rotate fam jti secret)) (renew fam) e w none w1 (
      map_err-step internal_err (rotate fam jti secret) e w none w1
        (rotate-dead fam jti secret e w (calm w.tick) dead))
    ∙ >>=-step (ignore_err tt (revoke_family fam)) (λ u. throw expired) e w1 tt (closed fam jti w)
        (ignore_err-step tt (revoke_family fam) e w1 tt (closed fam jti w) revoked)

-- If no command fails, a refresh with a token that is no longer live is refused, and no token of
-- the family that it names stays live.
pub refresh_reuse :
    (tok fam jti secret : Text) (e : Env) (w : World)
    → ((t : ℕ) → e.fails t ≡ false)
    → parse_refresh_token tok ≡ some (fam, jti, secret)
    → w.redis.jtis jti ≡ none
    → (is_ok (refresh tok e w).0 ≡ false) × AllDead (w.redis.fams fam) (refresh tok e w).1.redis
unfolding refresh
refresh_reuse tok fam jti secret e w calm parsed dead =
    let ended : refresh tok e w ≡ (err expired, closed fam jti w) =
      ap (λ o. refresh_parsed o e w) parsed ∙ refresh-dead fam jti secret e w calm dead in
    (
      ap (λ p. is_ok p.0) ended,
      subst (λ p. AllDead (w.redis.fams fam) p.1.redis) (sym ended)
          (delete_all-AllDead (w.redis.fams fam) (set_jti jti none w.redis)),
    )
