-- ===== src/Store/Rules.antt =====
-- What holds of every transaction, whatever its body does, and of an action that is one
-- transaction followed by reads.
use reimbursement_system.Base.{
  ◌+◌, ◌≡◌, refl, ap, ◌⊎◌, inl, inr, Bool, true, false, ◌||◌, arith, Bool-cases,
}
use reimbursement_system.AppErr.{Err, fault, driver}
use reimbursement_system.Store.Rows.{Redis}
use reimbursement_system.Store.Monad.{
  ignore_err, command, Env, World, in_progress, is_aborted, M, Result, ok, err, map_err, ◌>>=◌,
  ◌>>◌, transaction,
}

-- The world in which the body of a transaction starts.
abbrev pub begun : World → World
begun w = record w { tick = w.tick + 1; tx = in_progress }

abbrev pub is_ok : {A : Type 0} → Result A → Bool
is_ok (ok a) = true
is_ok (err x) = false

-- The body ended without an error, and its transaction can still be committed.
pub record Completes {A : Type 0} (body : M A) (e : Env) (w : World) (a : A) (w' : World)
    : Type 0 where
  pub returned : body e w ≡ (ok a, w')
  pub live : is_aborted w'.tx ≡ false

pub Result-cases : {A : Type 0} (r : Result A) → ((a : A) × (r ≡ ok a)) ⊎ ((x : Err) × (r ≡ err x))
Result-cases (ok a) = inl (a, refl)
Result-cases (err x) = inr (x, refl)

module _ {A : Type 0} (body : M A) (e : Env) (w : World) where
  -- Either nothing was changed and the answer is an error, or the body ran to its end.
  pub transaction-cases :
      ((is_ok (transaction body e w).0 ≡ false) × ((transaction body e w).1.db ≡ w.db))
      ⊎ ((a : A) × (w' : World) × Completes body e (begun w) a w'
          × ((transaction body e w).0 ≡ ok a)
          × ((transaction body e w).1.db ≡ w'.db))
  unfolding transaction
  transaction-cases = elim (Bool-cases (e.fails w.tick)) [
    | inl failed ↦ inl (ground arith, ground arith)
    | inr started ↦ elim (Result-cases (body e (begun w)).0) [
      | inr (x, thrown) ↦ inl (ground arith, ground arith)
      | inl (a, returned) ↦
          elim (Bool-cases
            (is_aborted (body e (begun w)).1.tx || e.fails (body e (begun w)).1.tick)) [
              | inl refused ↦ inl (ground arith, ground arith)
              | inr committed ↦ inr (
                a,
                (body e (begun w)).1,
                record { returned = ground arith; live = ground arith },
                ground arith,
                ground arith,
              )
            ]
    ]
  ]

module _ {A : Type 0} (body : M (Unit {0})) (f : Err → Err) (tail : M A) where
  abbrev pub action : M A
  action = map_err f (transaction body) >> tail

  -- An action that reads after its transaction changes the tables by its body, or not at all.
  pub action-cases :
      ((e : Env) (w : World) → (tail e w).1.db ≡ w.db)
      → (e : Env) (w : World)
      → ((is_ok (action e w).0 ≡ false) × ((action e w).1.db ≡ w.db))
        ⊎ ((w' : World) × Completes body e (begun w) tt w' × ((action e w).1.db ≡ w'.db))
  action-cases keeps e w = elim (transaction-cases body e w) [
    | inl (failed, same) ↦ inl (ground arith, ground arith)
    | inr (a, w', completes, answered, left) ↦
        inr (w', completes, ground (arith, keeps e (transaction body e w).1))
  ]

module _ {A B : Type 0} (body : M A) (tail : A → M B) where
  -- The same of a transaction whose error is passed on as it is.
  pub plain-cases :
      ((a : A) (e : Env) (w : World) → (tail a e w).1.db ≡ w.db)
      → (e : Env) (w : World)
      → ((is_ok ((transaction body >>= tail) e w).0 ≡ false)
          × (((transaction body >>= tail) e w).1.db ≡ w.db))
        ⊎ ((a : A) × (w' : World) × Completes body e (begun w) a w'
            × (((transaction body >>= tail) e w).1.db ≡ w'.db))
  plain-cases keeps e w = elim (transaction-cases body e w) [
    | inl (failed, same) ↦ inl (ground arith, ground arith)
    | inr (a, w', completes, answered, left) ↦
        inr (a, w', completes, ground (arith, keeps a e (transaction body e w).1))
  ]

-- A sequence that ends well passed through both of its parts.
pub >>=-ok :
    {A B : Type 0} (m : M A) (f : A → M B) (e : Env) (w : World) (b : B) (w' : World)
    → (m >>= f) e w ≡ (ok b, w')
    → (a : A) × (w1 : World) × (m e w ≡ (ok a, w1)) × (f a e w1 ≡ (ok b, w'))
>>=-ok {A} {B} m f e w b w' h = go (m e w) refl h
  where
    go :
        (p : Result A × World)
        → m e w ≡ p
        → (let (r, w1) = p in elim r [ ok a ↦ f a e w1 | err x ↦ (err x, w1) ]) ≡ (ok b, w')
        → (a : A) × (w1 : World) × (m e w ≡ (ok a, w1)) × (f a e w1 ≡ (ok b, w'))
    go (ok a, w1) same k = (a, w1, same, k)
    go (err x, w1) same k = cc

-- The action only reads.
abbrev pub KeepsDb : {A : Type 0} → M A → Type 0
KeepsDb m = (e : Env) (w : World) → (m e w).1.db ≡ w.db

pub >>=-db :
    {A B : Type 0} (m : M A) (f : A → M B)
    → KeepsDb m
    → ((a : A) → KeepsDb (f a))
    → KeepsDb (m >>= f)
>>=-db m f h k e w = elim (Result-cases (m e w).0) [
  | inl (a, returned) ↦ ground (arith, h e w, k a e (m e w).1)
  | inr (x, thrown) ↦ ground (arith, h e w)
]

-- After reads, a sequence ends in their error or goes on from the same tables.
pub >>=-cases :
    {A B : Type 0} (m : M A) (f : A → M B)
    → KeepsDb m
    → (e : Env) (w : World)
    → ((is_ok ((m >>= f) e w).0 ≡ false) × (((m >>= f) e w).1.db ≡ w.db))
      ⊎ ((a : A) × (m e w ≡ (ok a, (m e w).1))
          × ((m e w).1.db ≡ w.db)
          × ((m >>= f) e w ≡ f a e (m e w).1))
>>=-cases m f h e w = elim (Result-cases (m e w).0) [
  | inl (a, returned) ↦ inr (a, ground arith, h e w, ground arith)
  | inr (x, thrown) ↦ inl (ground arith, ground (arith, h e w))
]

-- One step of a run whose commands do not fail.
pub >>=-step :
    {A B : Type 0} (m : M A) (f : A → M B) (e : Env) (w : World) (a : A) (w' : World)
    → m e w ≡ (ok a, w')
    → (m >>= f) e w ≡ f a e w'
>>=-step m f e w a w' h =
    ap (λ p. let (r, w1) = p in elim r [ ok x ↦ f x e w1 | err x ↦ (err x, w1) ]) h

pub ignore_err-step :
    {A : Type 0} (d : A) (m : M A) (e : Env) (w : World) (a : A) (w' : World)
    → m e w ≡ (ok a, w')
    → ignore_err d m e w ≡ (ok a, w')
ignore_err-step d m e w a w' h =
    ap (λ p. let (r, w1) = p in elim r [ ok x ↦ (ok x, w1) | err x ↦ (ok d, w1) ]) h

pub map_err-step :
    {A : Type 0} (f : Err → Err) (m : M A) (e : Env) (w : World) (a : A) (w' : World)
    → m e w ≡ (ok a, w')
    → map_err f m e w ≡ (ok a, w')
map_err-step f m e w a w' h =
    ap (λ p. let (r, w1) = p in elim r [ ok x ↦ (ok x, w1) | err x ↦ (err (f x), w1) ]) h

pub command-step :
    {A : Type 0} (f : Redis → A × Redis) (e : Env) (w : World)
    → e.fails w.tick ≡ false
    → command f e w ≡ (ok (f w.redis).0, record w { redis = (f w.redis).1; tick = w.tick + 1 })
unfolding command
command-step f e w h = rw h refl

pub command-err :
    {A : Type 0} (f : Redis → A × Redis) (e : Env) (w : World)
    → e.fails w.tick ≡ true
    → is_ok (command f e w).0 ≡ false
unfolding command
command-err f e w h = rw (is_ok, h) refl

-- A command that is lost, and a call whose error is dropped.
pub command-lost :
    {A : Type 0} (f : Redis → A × Redis) (e : Env) (w : World)
    → e.fails w.tick ≡ true
    → command f e w ≡ (err (fault driver), record w { tick = w.tick + 1 })
unfolding command
command-lost f e w h = rw h refl

pub ignore_err-lost :
    {A : Type 0} (d : A) (m : M A) (e : Env) (w : World) (x : Err) (w' : World)
    → m e w ≡ (err x, w')
    → ignore_err d m e w ≡ (ok d, w')
ignore_err-lost d m e w x w' h =
    ap (λ p. let (r, w1) = p in elim r [ ok a ↦ (ok a, w1) | err y ↦ (ok d, w1) ]) h

pub >>=-stop :
    {A B : Type 0} (m : M A) (f : A → M B) (e : Env) (w : World) (x : Err) (w' : World)
    → m e w ≡ (err x, w')
    → (m >>= f) e w ≡ (err x, w')
>>=-stop m f e w x w' h =
    ap (λ p. let (r, w1) = p in elim r [ ok x ↦ f x e w1 | err x ↦ (err x, w1) ]) h

pub map_err-of :
    {A : Type 0} (f : Err → Err) (m : M A) (e : Env) (w : World) (p : Result A × World)
    → m e w ≡ p
    → map_err f m e w ≡ (let (r, w') = p in elim r [ ok a ↦ (ok a, w') | err x ↦ (err (f x), w') ])
map_err-of f m e w p h =
    ap (λ p. let (r, w') = p in elim r [ ok a ↦ (ok a, w') | err x ↦ (err (f x), w') ]) h
