-- ===== src/Api/Router/Admission.antt =====
-- Which requests the middleware lets through to a handler.
use reimbursement_system.Base.{
  subst, Bool, not, ◌||◌, if◌then◌else◌, ◌≡◌, refl, sym, ap, inl, inr, ◌⊎◌, true, Option, none,
  some, Bool-cases, Text,
}
use reimbursement_system.Approval.Chain.{elem}
use reimbursement_system.AppErr.{Err}
use reimbursement_system.Store.{Env, World}
use reimbursement_system.Requests.Gates.{
  Claims, Gate, passes, stops, require_role, require_role_iff, error_envelope,
}
use reimbursement_system.Api.{
  Request, Server, Handler, Reply, Response, failure, rate_limited, no_route, refuse, respond,
}
use reimbursement_system.Api.Router.{
  Route, Access, anyone, signed_in, only, through, signed, admit, dispatch, csrf_of, context,
  serve_found, serve_http, find_route, routes,
}

-- The answers of the middleware and of a path without a route.
pub data IsRefusal : Response → Type 0 where
  refused : (x : Err) → IsRefusal (failure (error_envelope x))
  limited : IsRefusal rate_limited
  unknown : IsRefusal no_route

-- The identity with which a handler runs is one that the route accepts.
abbrev pub Accepts : Server → Request → Access → Option Claims → Type 0
Accepts srv req anyone claims = claims ≡ none
Accepts srv req signed_in claims = (c : Claims) × (claims ≡ some c) × (signed srv req ≡ passes c)
Accepts srv req (only roles) claims =
    (c : Claims) × (claims ≡ some c) × (signed srv req ≡ passes c) × (elem c.role roles ≡ true)

gate-cases : {A : Type 0} (g : Gate A) → ((a : A) × (g ≡ passes a)) ⊎ ((x : Err) × (g ≡ stops x))
gate-cases (passes a) = inl (a, refl)
gate-cases (stops x) = inr (x, refl)

-- A refusal that changes nothing, or the next handler with an identity that the route accepts.
abbrev pub Admits :
    Server → Request → Access → (Option Claims → Handler) → Env → World → Reply × World → Type 0
Admits srv req a next e w out =
    (IsRefusal out.0.response × (out.1 ≡ w))
    ⊎ ((claims : Option Claims) × Accepts srv req a claims × (out ≡ next claims e w))

admit_outcome :
    (srv : Server) (req : Request) (a : Access) (next : Option Claims → Handler) (e : Env)
    (w : World)
    → Admits srv req a next e w (admit srv req a next e w)
unfolding admit through refuse
admit_outcome srv req anyone next e w = inr (none, refl, refl)
admit_outcome srv req signed_in next e w = elim (gate-cases (signed srv req)) [
  | inr (x, stopped) ↦ rw stopped (inl (refused x, refl))
  | inl (c, passed) ↦ inr (some c, (c, refl, passed), rw passed refl)
]
admit_outcome srv req (only roles) next e w = elim (gate-cases (signed srv req)) [
  | inr (x, stopped) ↦ rw stopped (inl (refused x, refl))
  | inl (c, passed) ↦ elim (gate-cases (require_role roles c.role)) [
    | inr (x, stopped) ↦ rw (passed, stopped) (inl (refused x, refl))
    | inl (u, listed) ↦ inr (
      some c,
      (c, refl, passed, (require_role_iff roles c.role).0 listed),
      rw (passed, listed) refl,
    )
  ]
]

abbrev pub Answered : Server → Request → Env → World → Reply × World → Type 0
Answered srv req e w out =
    (IsRefusal out.0.response × (out.1 ≡ w))
    ⊎ ((r : Route) × (value : Text) × (claims : Option Claims) × (find_route req.method req.path
            routes
          ≡ some (r, value))
        × (csrf_of srv req (some (r, value)) ≡ passes tt)
        × Accepts srv req r.access claims
        × (out ≡ r.handler srv (context srv req claims value) e w))

-- The handler of a test that is known.
if_step :
    {b c : Bool} (h k : Handler) (e : Env) (w : World)
    → b ≡ c
    → (if b then h else k) e w ≡ (if c then h else k) e w
if_step h k e w s = ap (λ x. (if x then h else k) e w) s

dispatch_outcome :
    (srv : Server) (req : Request) (r : Route) (value : Text) (e : Env) (w : World)
    → find_route req.method req.path routes ≡ some (r, value)
    → csrf_of srv req (some (r, value)) ≡ passes tt
    → Answered srv req e w (dispatch srv req (some (r, value)) e w)
unfolding dispatch
dispatch_outcome srv req r value e w found passed =
    let next : Option Claims → Handler = λ claims. r.handler srv (context srv req claims value) in
    elim (Bool-cases (not r.guarded || req.within_budget)) [
      | inr over ↦
          subst (Answered srv req e w)
            (sym (if_step (admit srv req r.access next) (respond rate_limited) e w over))
            (inl (limited, refl))
      | inl within ↦
          subst (Answered srv req e w)
            (sym (if_step (admit srv req r.access next) (respond rate_limited) e w within))
            (elim (admit_outcome srv req r.access next e w) [
              | inl stopped ↦ inl stopped
              | inr (claims, accepts, same) ↦ inr (r, value, claims, found, passed, accepts, same)
            ])
    ]

-- Every request is refused by the middleware or the routing, and then nothing changes, or its
-- CSRF check passes and it is answered by the handler of its route, with an identity that the
-- route accepts.
pub serve_http_outcome :
    (srv : Server) (req : Request) (e : Env) (w : World)
    → Answered srv req e w (serve_http srv req e w)
unfolding serve_http through refuse dispatch
serve_http_outcome srv req e w = go (find_route req.method req.path routes) refl
  where
    go :
        (found : Option (Route × Text))
        → find_route req.method req.path routes ≡ found
        → Answered srv req e w (serve_found srv req found e w)
    go none h = elim (gate-cases (csrf_of srv req none)) [
      | inr (x, stopped) ↦ rw stopped (inl (refused x, refl))
      | inl (u, passed) ↦ rw passed (inl (unknown, refl))
    ]
    go (some (r, value)) h = elim (gate-cases (csrf_of srv req (some (r, value)))) [
      | inr (x, stopped) ↦ rw stopped (inl (refused x, refl))
      | inl (u, passed) ↦ rw passed (dispatch_outcome srv req r value e w h passed)
    ]
