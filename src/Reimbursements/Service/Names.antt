-- ===== src/Reimbursements/Service/Names.antt =====
-- The names under which receipts are stored: sanitizeFilename of
-- backend/internal/modules/reimbursements/attachments.go, on any bytes.
use reimbursement_system.Base.{
  ℕ, zero, suc, ◌-◌, ◌≤◌, ◌<◌, ◌≡◌, ◌≢◌, refl, inl, inr, true, false, ◌&&◌, Option, none, some, [],
  ◌∷◌, arith, ltb, leb, if◌then◌else◌, length, take, drop, All, Bool-cases, Text, lit,
}
use reimbursement_system.Reimbursements.Service.Files.{
  is_separator, has_separator, base_name, second, third, fourth, three_bytes, four_bytes, rune_rest,
  drop_controls, or_receipt, last_255, sanitize_filename,
}

-- A byte that no file name of the table has.
abbrev pub IsPlain : ℕ → Type 0
IsPlain c = (is_separator c ≡ false) × (32 ≤ c)

base_name-All : (s : Text) → All (λ c. is_separator c ≡ false) (base_name s)
base_name-All [] = tt
base_name-All (c ∷ s) = elim (Bool-cases (has_separator s)) [
  | inl more ↦ rw more (base_name-All s)
  | inr last ↦ elim (Bool-cases (is_separator c)) [
    | inl sep ↦ rw (last, sep) (go s last)
    | inr plain ↦ rw (last, plain) (plain, go s last)
  ]
]
  where
    go : (t : Text) → has_separator t ≡ false → All (λ c. is_separator c ≡ false) t
    go [] h = tt
    go (c ∷ t) h = (ground arith, go t (ground arith))

abbrev Printable : Text → Type 0
Printable s = All (λ b. 32 ≤ b) s

second_lem : (lo hi : ℕ) (s : Text) → second lo hi s ≡ true → 32 ≤ lo → Printable (take 1 s)
unfolding second
second_lem lo hi [] h k = tt
second_lem lo hi (x ∷ s) h k = (ground arith, tt)

third_lem : (lo hi : ℕ) (s : Text) → third lo hi s ≡ true → 32 ≤ lo → Printable (take 2 s)
unfolding third
third_lem lo hi [] h k = tt
third_lem lo hi (x ∷ []) h k = ground arith
third_lem lo hi (x ∷ y ∷ s) h k = (ground arith, (ground arith, tt))

fourth_lem : (lo hi : ℕ) (s : Text) → fourth lo hi s ≡ true → 32 ≤ lo → Printable (take 3 s)
unfolding fourth
fourth_lem lo hi [] h k = tt
fourth_lem lo hi (x ∷ []) h k = ground arith
fourth_lem lo hi (x ∷ y ∷ []) h k = ground arith
fourth_lem lo hi (x ∷ y ∷ z ∷ s) h k = (ground arith, (ground arith, (ground arith, tt)))

three_bytes_lem : (c : ℕ) (s : Text) → three_bytes c s ≡ true → Printable (take 2 s)
three_bytes_lem c s h = elim (Bool-cases (third 0xA0 0xBF s)) [
  | inl a ↦ third_lem 0xA0 0xBF s a (omega arith)
  | inr a ↦ elim (Bool-cases (third 0x80 0x9F s)) [
    | inl b ↦ third_lem 0x80 0x9F s b (omega arith)
    | inr b ↦ third_lem 0x80 0xBF s (ground arith) (omega arith)
  ]
]

four_bytes_lem : (c : ℕ) (s : Text) → four_bytes c s ≡ true → Printable (take 3 s)
four_bytes_lem c s h = elim (Bool-cases (fourth 0x90 0xBF s)) [
  | inl a ↦ fourth_lem 0x90 0xBF s a (omega arith)
  | inr a ↦ elim (Bool-cases (fourth 0x80 0x8F s)) [
    | inl b ↦ fourth_lem 0x80 0x8F s b (omega arith)
    | inr b ↦ fourth_lem 0x80 0xBF s (ground arith) (omega arith)
  ]
]

rune_rest_lem : (c : ℕ) (s : Text) (k : ℕ) → rune_rest c s ≡ some k → Printable (take k s)
unfolding rune_rest
rune_rest_lem c s k h = elim (Bool-cases (ltb c 0x80)) [
  | inl one ↦ let e : 0 ≡ k = ground arith in rw (← e) tt
  | inr more ↦ elim (Bool-cases (leb 0xC2 c && (leb c 0xDF && second 0x80 0xBF s))) [
    | inl b ↦
        let e : 1 ≡ k = ground arith in
        rw (← e) ((second_lem 0x80 0xBF s (ground arith) (omega arith)))
    | inr b ↦ elim (Bool-cases (three_bytes c s)) [
      | inl d ↦ let e : 2 ≡ k = ground arith in rw (← e) ((three_bytes_lem c s d))
      | inr d ↦ elim (Bool-cases (four_bytes c s)) [
        | inl g ↦ let e : 3 ≡ k = ground arith in rw (← e) ((four_bytes_lem c s g))
        | inr g ↦ absurd (ground arith)
      ]
    ]
  ]
]

-- One rune of the text, if what follows it is plain.
rune-All :
    (c : ℕ) (s : Text)
    → is_separator c ≡ false
    → ((n : ℕ) → Printable (take n s) → All IsPlain (drop_controls n s))
    → (o : Option ℕ) → rune_rest c s ≡ o
    → All IsPlain (elim o [
      | none ↦ 0xEF ∷ 0xBF ∷ 0xBD ∷ drop_controls 0 s
      | some n ↦ if ltb c 32 then drop_controls 0 s else c ∷ drop_controls n s
    ])
rune-All c s plain rest none invalid =
    ((refl, omega arith), ((refl, omega arith), ((refl, omega arith), rest 0 tt)))
rune-All c s plain rest (some n) valid = elim (Bool-cases (ltb c 32)) [
  | inl control ↦ rw control (rest 0 tt)
  | inr shown ↦ rw shown ((plain, ground arith), rest n (rune_rest_lem c s n valid))
]

drop_controls-All :
    (n : ℕ) (s : Text)
    → Printable (take n s)
    → All (λ c. is_separator c ≡ false) s
    → All IsPlain (drop_controls n s)
unfolding drop_controls
drop_controls-All n [] h k = tt
drop_controls-All (suc n) (c ∷ s) h k = ((k.0, h.0), drop_controls-All n s h.1 k.1)
drop_controls-All zero (c ∷ s) h k =
    rune-All c s k.0 (λ n shown. drop_controls-All n s shown k.1) (rune_rest c s) refl

or_receipt_lem : (s : Text) → All IsPlain s → All IsPlain (or_receipt s) × (or_receipt s ≢ [])
unfolding lit
or_receipt_lem [] h = (
  (
    (refl, omega arith),
    (
      (refl, omega arith),
      (
        (refl, omega arith),
        (
          (refl, omega arith),
          ((refl, omega arith), ((refl, omega arith), ((refl, omega arith), tt))),
        ),
      ),
    ),
  ),
  λ e. cc,
)
or_receipt_lem (c ∷ s) h = (h, λ e. cc)

drop-All : (n : ℕ) (s : Text) → All IsPlain s → All IsPlain (drop n s)
drop-All zero s h = h
drop-All (suc n) [] h = tt
drop-All (suc n) (c ∷ s) h = drop-All n s h.1

length-drop : (n : ℕ) (s : Text) → length (drop n s) ≡ length s - n
length-drop zero s = omega arith
length-drop (suc n) [] = omega arith
length-drop (suc n) (c ∷ s) = omega (arith, length-drop n s)

drop-ne-nil : (n : ℕ) (s : Text) → n < length s → drop n s ≢ []
drop-ne-nil zero [] h e = ground arith
drop-ne-nil zero (c ∷ s) h e = cc
drop-ne-nil (suc n) [] h e = ground arith
drop-ne-nil (suc n) (c ∷ s) h e = drop-ne-nil n s (omega arith) e

last_255_lem :
    (s : Text)
    → All IsPlain s
    → s ≢ []
    → All IsPlain (last_255 s) × (length (last_255 s) ≤ 255) × (last_255 s ≢ [])
last_255_lem s h some_byte = elim (Bool-cases (ltb 255 (length s))) [
  | inl long ↦ rw long (
    drop-All (length s - 255) s h,
    ground (arith, length-drop (length s - 255) s),
    drop-ne-nil (length s - 255) s (ground arith),
  )
  | inr short ↦ rw short (h, ground arith, some_byte)
]

-- The stored name of any bytes is not empty, has at most 255 bytes, no separator and no byte
-- below 32.
pub sanitize_filename_lem :
    (name : Text)
    → All IsPlain (sanitize_filename name)
      × (length (sanitize_filename name) ≤ 255)
      × (sanitize_filename name ≢ [])
unfolding sanitize_filename
sanitize_filename_lem name =
    let clean = drop_controls-All 0 (base_name name) tt (base_name-All name) in
    let (plain, some_byte) = or_receipt_lem (drop_controls 0 (base_name name)) clean in
    last_255_lem (or_receipt (drop_controls 0 (base_name name))) plain some_byte
