-- ===== src/Examples/Tokens.antt =====
-- One session in Redis, and the theorems on its tokens.
use reimbursement_system.Base.{
  ◌≡◌, refl, false, true, none, some, [], ◌∷◌, if◌then◌else◌, Text, text_eq,
}
use reimbursement_system.Store.{SessionEntry, World, is_ok, command}
use reimbursement_system.Requests.Csrf.{split}
use reimbursement_system.Sessions.{
  token, set_jti, revoke_family, rotate, parse_refresh_token, refresh,
}
use reimbursement_system.Sessions.Families.{AllDead, family_escape}
use reimbursement_system.Sessions.Reuse.{refresh_reuse}
use reimbursement_system.Examples.Tables.{calm, start}

abbrev own : Text
own = b'f' ∷ []

abbrev foreign : Text
foreign = b'g' ∷ []

abbrev jti : Text
jti = b'j' ∷ []

abbrev secret : Text
secret = b's' ∷ []

abbrev held : SessionEntry
held = record { user_id = 10; hash = b'h' ∷ secret }

abbrev signed_in : World
signed_in = record start {
  redis = record start.redis {
    jtis = λ x. if text_eq x jti then some held else none;
    fams = λ x. if text_eq x own then jti ∷ [] else [];
  };
}

-- The same after the token was used.
abbrev used : World
used = record signed_in { redis = set_jti jti none signed_in.redis }

revokes : is_ok (revoke_family own calm signed_in).0 ≡ true
unfolding revoke_family command
revokes = refl

family_escape_example :
    (revoke_family own calm (rotate foreign jti secret calm signed_in).1).1.redis.jtis (b'b' ∷ [])
    ≡ some (record { user_id = 10; hash = b'h' ∷ b'c' ∷ [] })
family_escape_example =
    family_escape own foreign jti secret 10 calm signed_in (λ t. refl) refl refl (refl, tt)

parses : parse_refresh_token (token own jti secret) ≡ some (own, jti, secret)
unfolding parse_refresh_token split
parses = refl

refresh_reuse_example :
    (is_ok (refresh (token own jti secret) calm used).0 ≡ false)
    × AllDead (jti ∷ []) (refresh (token own jti secret) calm used).1.redis
refresh_reuse_example =
    refresh_reuse (token own jti secret) own jti secret calm used (λ t. refl) parses refl
