-- ===== src/Exports/Csv.antt =====
-- The writer of Go's encoding/csv, which backend/cmd/worker/main.go uses, and a reader of
-- comma-separated records that end with a line feed.
pub mod Reading
use reimbursement_system.Base.{
  ℕ, ◌≡◌, refl, sym, ap, ◌∙◌, inl, inr, Bool, true, false, ◌||◌, List, [], ◌∷◌, ◌++◌, arith, ltb,
  ◌==◌, if◌then◌else◌, Bool-cases, ==_iff, is_empty, Text, text_eq, lit, front_space, map,
}
use mathlib.Core.List.{append-nil, append_assoc}

-- A byte that makes a field need quotes: a comma, a quote, a line feed or a carriage return.
abbrev pub is_special : ℕ → Bool
is_special c = c == b',' || (c == b'"' || (c == 10 || c == 13))

abbrev pub has_special : Text → Bool
has_special [] = false
has_special (c ∷ s) = is_special c || has_special s

-- fieldNeedsQuotes
unfoldable pub needs_quotes : Text → Bool
needs_quotes field =
    if is_empty field
    then false
    else text_eq field (lit "\\.") || (has_special field || ltb 0 (front_space field))

-- A quote is doubled; without UseCRLF all else is written as it is.
unfoldable pub double_quotes : Text → Text
double_quotes [] = []
double_quotes (c ∷ s) =
    let rest = double_quotes s in if c == b'"' then b'"' ∷ b'"' ∷ rest else c ∷ rest

unfoldable pub write_field : Text → Text
write_field field = if needs_quotes field then b'"' ∷ double_quotes field ++ b'"' ∷ [] else field

-- Writer.Write: the fields with commas between them and a line feed behind.
unfoldable pub write_record : Text → List Text → Text
write_record field [] = write_field field ++ 10 ∷ []
write_record field (next ∷ fields) = write_field field ++ b',' ∷ write_record next fields

pub data Mode : Type 0 where
  start plain quoted closing : Mode

-- The reader: the mode, the bytes of the field so far, the fields of the record so far.
unfoldable pub read_csv : Mode → Text → List Text → Text → List (List Text)
read_csv start field fields [] = []
read_csv start field fields (c ∷ s) =
    let opened = read_csv quoted [] fields s in
    let next = read_csv start [] (fields ++ [] ∷ []) s in
    let done = read_csv start [] [] s in
    let more = read_csv plain (c ∷ []) fields s in
    if c == b'"'
    then opened
    else if c == b','
    then next
    else if c == 10
    then (fields ++ [] ∷ []) ∷ done
    else more
read_csv plain field fields [] = []
read_csv plain field fields (c ∷ s) =
    let next = read_csv start [] (fields ++ field ∷ []) s in
    let done = read_csv start [] [] s in
    let more = read_csv plain (field ++ c ∷ []) fields s in
    if c == b',' then next else if c == 10 then (fields ++ field ∷ []) ∷ done else more
read_csv quoted field fields [] = []
read_csv quoted field fields (c ∷ s) =
    let closed = read_csv closing field fields s in
    let more = read_csv quoted (field ++ c ∷ []) fields s in if c == b'"' then closed else more
read_csv closing field fields [] = []
read_csv closing field fields (c ∷ s) =
    let again = read_csv quoted (field ++ b'"' ∷ []) fields s in
    let next = read_csv start [] (fields ++ field ∷ []) s in
    let done = read_csv start [] [] s in
    if c == b'"'
    then again
    else if c == b','
    then next
    else if c == 10
    then (fields ++ field ∷ []) ∷ done
    else []

-- The file of some records, each with a first field.
unfoldable pub write_all : List (Text × List Text) → Text
write_all [] = []
write_all ((f, fs) ∷ records) = write_record f fs ++ write_all records
