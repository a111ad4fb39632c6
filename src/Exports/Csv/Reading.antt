-- ===== src/Exports/Csv/Reading.antt =====
-- The reader of a CSV file on what the writer wrote.
use reimbursement_system.Base.{
  ℕ, ◌≡◌, refl, sym, ap, ◌∙◌, inl, inr, Bool, true, false, ◌||◌, List, [], ◌∷◌, ◌++◌, arith, ltb,
  ◌==◌, Bool-cases, ==_iff, Text, text_eq, lit, front_space, map,
}
use mathlib.Core.List.{append-nil, append_assoc}
use reimbursement_system.Exports.Csv.{
  is_special, has_special, needs_quotes, double_quotes, write_field, write_record, write_all, Mode,
  start, plain, quoted, closing, read_csv,
}

-- Single steps of the reader.
quoted-quote :
    (field : Text) (fields : List Text) (s : Text)
    → read_csv quoted field fields (b'"' ∷ s) ≡ read_csv closing field fields s
unfolding read_csv
quoted-quote field fields s = refl

quoted-other :
    (c : ℕ) (field : Text) (fields : List Text) (s : Text)
    → (c == b'"') ≡ false
    → read_csv quoted field fields (c ∷ s) ≡ read_csv quoted (field ++ c ∷ []) fields s
unfolding read_csv
quoted-other c field fields s h = rw h refl

closing-quote :
    (field : Text) (fields : List Text) (s : Text)
    → read_csv closing field fields (b'"' ∷ s) ≡ read_csv quoted (field ++ b'"' ∷ []) fields s
unfolding read_csv
closing-quote field fields s = refl

plain-other :
    (c : ℕ) (field : Text) (fields : List Text) (s : Text)
    → is_special c ≡ false
    → read_csv plain field fields (c ∷ s) ≡ read_csv plain (field ++ c ∷ []) fields s
unfolding read_csv
plain-other c field fields s h =
    let comma : (c == b',') ≡ false = ground arith in
    let feed : (c == 10) ≡ false = ground arith in rw (comma, feed) refl

start-other :
    (c : ℕ) (fields : List Text) (s : Text)
    → is_special c ≡ false
    → read_csv start [] fields (c ∷ s) ≡ read_csv plain (c ∷ []) fields s
unfolding read_csv
start-other c fields s h =
    let quote : (c == b'"') ≡ false = ground arith in
    let comma : (c == b',') ≡ false = ground arith in
    let feed : (c == 10) ≡ false = ground arith in rw (quote, comma, feed) refl

-- What ends a field, in the three modes in which one may end.
pub data Ends : Mode → Type 0 where
  at_start : Ends start
  in_plain : Ends plain
  at_quote : Ends closing

comma-Ends :
    {m : Mode} (field : Text) (fields : List Text) (s : Text)
    → Ends m
    → (m ≡ start → field ≡ [])
    → read_csv m field fields (b',' ∷ s) ≡ read_csv start [] (fields ++ field ∷ []) s
unfolding read_csv
comma-Ends field fields s at_start h = rw (h refl) refl
comma-Ends field fields s in_plain h = refl
comma-Ends field fields s at_quote h = refl

feed-Ends :
    {m : Mode} (field : Text) (fields : List Text) (s : Text)
    → Ends m
    → (m ≡ start → field ≡ [])
    → read_csv m field fields (10 ∷ s) ≡ (fields ++ field ∷ []) ∷ read_csv start [] [] s
unfolding read_csv
feed-Ends field fields s at_start h = rw (h refl) refl
feed-Ends field fields s in_plain h = refl
feed-Ends field fields s at_quote h = refl

double-other :
    (c : ℕ) (f : Text) → (c == b'"') ≡ false → double_quotes (c ∷ f) ≡ c ∷ double_quotes f
unfolding double_quotes
double-other c f h = rw h refl

double-quote : (f : Text) → double_quotes (b'"' ∷ f) ≡ b'"' ∷ b'"' ∷ double_quotes f
unfolding double_quotes
double-quote f = refl

read_quoted :
    (f field : Text) (fields : List Text) (rest : Text)
    → read_csv quoted field fields (double_quotes f ++ b'"' ∷ rest)
      ≡ read_csv closing (field ++ f) fields rest
unfolding double_quotes
read_quoted [] field fields rest =
    quoted-quote field fields rest
    ∙ ap (λ t. read_csv closing t fields rest) (sym (append-nil field))
read_quoted (c ∷ f) field fields rest =
    let text = λ (g : Text). g ++ b'"' ∷ rest in
    let step =
      read_quoted f (field ++ c ∷ []) fields rest
      ∙ ap (λ t. read_csv closing t fields rest) (append_assoc field (c ∷ []) f) in
    elim (Bool-cases (c == b'"')) [
      | inr other ↦
          ap (λ g. read_csv quoted field fields (text g)) (double-other c f other)
          ∙ quoted-other c field fields (text (double_quotes f)) other
          ∙ step
      | inl quote ↦
          let same : c ≡ b'"' = (==_iff _ _).0 quote in
          ap (λ d. read_csv quoted field fields (text (double_quotes (d ∷ f)))) same
          ∙ ap (λ g. read_csv quoted field fields (text g)) (double-quote f)
          ∙ quoted-quote field fields (b'"' ∷ text (double_quotes f))
          ∙ closing-quote field fields (text (double_quotes f))
          ∙ ap (λ d. read_csv quoted (field ++ d ∷ []) fields (text (double_quotes f))) (sym same)
          ∙ step
    ]

read_plain :
    (f field : Text) (fields : List Text) (rest : Text)
    → has_special f ≡ false
    → read_csv plain field fields (f ++ rest) ≡ read_csv plain (field ++ f) fields rest
read_plain [] field fields rest h = ap (λ t. read_csv plain t fields rest) (sym (append-nil field))
read_plain (c ∷ f) field fields rest h =
    let first : is_special c ≡ false = ground arith in
    let others : has_special f ≡ false = ground arith in
    plain-other c field fields (f ++ rest) first
    ∙ read_plain f (field ++ c ∷ []) fields rest others
    ∙ ap (λ t. read_csv plain t fields rest) (append_assoc field (c ∷ []) f)

-- A written field leaves the reader in a mode in which the field is complete.
record Complete (f : Text) (fields : List Text) (rest : Text) : Type 0 where
  mode : Mode
  ends : Ends mode
  empty : mode ≡ start → f ≡ []
  same : read_csv start [] fields (write_field f ++ rest) ≡ read_csv mode f fields rest

start-quote :
    (fields : List Text) (s : Text)
    → read_csv start [] fields (b'"' ∷ s) ≡ read_csv quoted [] fields s
unfolding read_csv
start-quote fields s = refl

needs_quotes-no :
    (c : ℕ) (f : Text)
    → needs_quotes (c ∷ f) ≡ false
    → (is_special c ≡ false) × (has_special f ≡ false)
unfolding needs_quotes
needs_quotes-no c f h =
    parts (text_eq (c ∷ f) (lit "\\.")) (is_special c) (has_special f) (ltb 0 (front_space (c ∷ f)))
      h
  where
    parts : (a b d g : Bool) → (a || ((b || d) || g)) ≡ false → (b ≡ false) × (d ≡ false)
    parts a b d g h = (ground arith, ground arith)

unquoted :
    (f : Text) (fields : List Text) (rest : Text) → needs_quotes f ≡ false → Complete f fields rest
unfolding write_field
unquoted [] fields rest h = record {
  mode = start;
  ends = at_start;
  empty = λ k. refl;
  same = rw h refl;
}
unquoted (c ∷ f) fields rest h =
    let (first, others) = needs_quotes-no c f h in
    record {
      mode = plain;
      ends = in_plain;
      empty = λ k. cc;
      same =
          rw h (start-other c fields (f ++ rest) first ∙ read_plain f (c ∷ []) fields rest others);
    }

quotes :
    (f : Text) (fields : List Text) (rest : Text) → needs_quotes f ≡ true → Complete f fields rest
unfolding write_field
quotes f fields rest h = record {
  mode = closing;
  ends = at_quote;
  empty = λ k. cc;
  same = rw h (
      ap (λ t. read_csv start [] fields (b'"' ∷ t))
        (append_assoc (double_quotes f) (b'"' ∷ []) rest)
      ∙ start-quote fields (double_quotes f ++ b'"' ∷ rest)
      ∙ read_quoted f [] fields rest);
}

written : (f : Text) (fields : List Text) (rest : Text) → Complete f fields rest
written f fields rest = elim (Bool-cases (needs_quotes f)) [
  | inl h ↦ quotes f fields rest h
  | inr h ↦ unquoted f fields rest h
]

read_record :
    (f : Text) (fs fields : List Text) (rest : Text)
    → read_csv start [] fields (write_record f fs ++ rest)
      ≡ (fields ++ f ∷ fs) ∷ read_csv start [] [] rest
unfolding write_record
read_record f [] fields rest =
    let w = written f fields (10 ∷ rest) in
    ap (read_csv start [] fields) (append_assoc (write_field f) (10 ∷ []) rest)
    ∙ w.same
    ∙ feed-Ends f fields rest w.ends w.empty
read_record f (g ∷ fs) fields rest =
    let tail = write_record g fs ++ rest in
    let w = written f fields (b',' ∷ tail) in
    ap (read_csv start [] fields) (append_assoc (write_field f) (b',' ∷ write_record g fs) rest)
    ∙ w.same
    ∙ comma-Ends f fields tail w.ends w.empty
    ∙ read_record g fs (fields ++ f ∷ []) rest
    ∙ ap (λ r. r ∷ read_csv start [] [] rest) (append_assoc fields (f ∷ []) (g ∷ fs))

-- The reader recovers from the file of any records, each with a field at least, their
-- fields, whatever bytes are in them.
pub read_csv-write_all :
    (records : List (Text × List Text))
    → read_csv start [] [] (write_all records) ≡ map (λ r. r.0 ∷ r.1) records
unfolding write_all read_csv
read_csv-write_all [] = refl
read_csv-write_all ((f, fs) ∷ records) =
    read_record f fs [] (write_all records) ∙ ap (λ rs. (f ∷ fs) ∷ rs) (read_csv-write_all records)
