-- ===== src/Requests/Paging.antt =====
-- backend/internal/pkg/listq/listq.go: the parameters of a listing.
use reimbursement_system.Base.{
  ℕ, zero, suc, ◌+◌, ◌-◌, ◌*◌, ◌/◌, ◌%◌, ◌^◌, ◌≤◌, ◌<◌, ◌≡◌, refl, ap, ◌∙◌, inl, inr, ◌⊎◌, Bool,
  true, false, ◌&&◌, ◌||◌, Option, none, some, List, [], ◌∷◌, arith, ltb, leb, ◌==◌, if◌then◌else◌,
  Bool-cases, Text, text_eq, is_empty, trim_space, ℤ, pos, negsuc, sub_ℕ, wrap64,
}
use native.Mathlib.Nat.{add-mul, div-add-mod', mod-lt}
use reimbursement_system.Decimal.{is_digit}

-- The value of a text of digits.
abbrev pub digits_value : ℕ → Text → Option ℕ
digits_value n [] = some n
digits_value n (c ∷ s) =
    let rest = digits_value (n * 10 + (c - b'0')) s in if is_digit c then rest else none

abbrev pub positive : Text → Option ℕ
positive s = if is_empty s then none else digits_value 0 s

abbrev pub in_int : Bool → Option ℕ → Option ℤ
in_int negative none = none
in_int true (some n) = if leb n (2 ^ 63) then some (sub_ℕ 0 n) else none
in_int false (some n) = if ltb n (2 ^ 63) then some (pos n) else none

-- strconv.Atoi, with `none` for an error.
unfoldable pub atoi : Text → Option ℤ
atoi [] = none
atoi (c ∷ s) =
    if c == b'-'
    then in_int true (positive s)
    else if c == b'+'
    then in_int false (positive s)
    else in_int false (positive (c ∷ s))

pub data Order : Type 0 where
  asc desc : Order

pub record Params : Type 0 where
  pub page : ℕ
  pub limit : ℕ
  pub search : Text
  pub sort : Text
  pub order : Order
  pub offset : ℤ

-- The query string of a request; an absent parameter is empty.
pub record Query : Type 0 where
  pub page : Text
  pub limit : Text
  pub search : Text
  pub sort : Text
  pub order : Text

-- `if v, err := strconv.Atoi(...); err == nil && v > 0 { v } else { d }`
abbrev pub positive_or : ℕ → Option ℤ → ℕ
positive_or d none = d
positive_or d (some (negsuc n)) = d
positive_or d (some (pos n)) = if ltb 0 n then n else d

abbrev pub min_ℕ : ℕ → ℕ → ℕ
min_ℕ a b = if leb a b then a else b

abbrev pub column : List (Text × Text) → Text → Option Text
column [] key = none
column ((k, col) ∷ rest) key = if text_eq k key then some col else column rest key

-- The text without a letter of the pair, in either case.
abbrev strip : ℕ → ℕ → Text → Option Text
strip upper lower [] = none
strip upper lower (c ∷ s) = if c == upper || c == lower then some s else none

-- The same for the letter S, which is also the upper case of U+017F.
abbrev strip_s : Text → Option Text
strip_s (c ∷ d ∷ s) = if c == 0xC5 && d == 0xBF then some s else strip b'S' b's' (c ∷ d ∷ s)
strip_s s = strip b'S' b's' s

-- `strings.ToUpper(s) == "ASC"`
unfoldable pub is_asc : Text → Bool
is_asc s = elim (strip b'A' b'a' s) [
  | none ↦ false
  | some t ↦ elim (strip_s t) [
    | none ↦ false
    | some u ↦ elim (strip b'C' b'c' u) [ none ↦ false | some v ↦ is_empty v ]
  ]
]

abbrev pub limit_of_query : Option ℤ → ℕ
limit_of_query none = 10
limit_of_query (some (negsuc n)) = 10
limit_of_query (some (pos n)) = if ltb 0 n then min_ℕ n 100 else 10

abbrev pub or_default : Text → Option Text → Text
or_default d none = d
or_default d (some t) = t

-- Parse
unfoldable pub parse : Query → Text → List (Text × Text) → Params
parse q default_sort whitelist =
    let page = positive_or 1 (atoi q.page) in
    let limit = limit_of_query (atoi q.limit) in
    record {
      page = page;
      limit = limit;
      search = trim_space q.search;
      sort = or_default default_sort (column whitelist q.sort);
      order = if is_asc q.order then asc else desc;
      offset = wrap64 (pos ((page - 1) * limit));
    }

-- Params.TotalPages
unfoldable pub total_pages : Params → ℕ → ℕ
total_pages p total =
    let full = total / p.limit in
    let pages = if ltb 0 (total % p.limit) then full + 1 else full in
    if pages == 0 then 1 else pages

abbrev pub In : Text → List (Text × Text) → Type 0
In t [] = ⊥
In t ((k, col) ∷ rest) = (t ≡ col) ⊎ In t rest

column-In :
    (whitelist : List (Text × Text)) (key t : Text) → column whitelist key ≡ some t → In t whitelist
column-In [] key t h = cc
column-In ((k, col) ∷ rest) key t h = elim (Bool-cases (text_eq k key)) [
  | inl here ↦ inl (ground arith)
  | inr other ↦ inr (column-In rest key t (rw other at h))
]

sort-In :
    (whitelist : List (Text × Text)) (key d : Text) (o : Option Text)
    → column whitelist key ≡ o
    → (or_default d o ≡ d) ⊎ In (or_default d o) whitelist
sort-In whitelist key d none h = inl refl
sort-In whitelist key d (some t) h = inr (column-In whitelist key t h)

-- The page is at least 1, the limit from 1 to 100, and the sort expression is the default or a
-- column of the whitelist.
pub parse-bounds :
    (q : Query) (default_sort : Text) (whitelist : List (Text × Text))
    → let p = parse q default_sort whitelist in
      (1 ≤ p.page)
      × (1 ≤ p.limit)
      × (p.limit ≤ 100)
      × ((p.sort ≡ default_sort) ⊎ In p.sort whitelist)
unfolding parse
parse-bounds q default_sort whitelist =
    let (page, limit, most) = go (atoi q.page) (atoi q.limit) in
    (page, limit, most, sort-In whitelist q.sort default_sort (column whitelist q.sort) refl)
  where
    go :
        (a b : Option ℤ) → (1 ≤ positive_or 1 a) × (1 ≤ limit_of_query b) × (limit_of_query b ≤ 100)
    go a b = (ground arith, ground arith, ground arith)

-- The pages cover the rows, and none but the first is empty.
abbrev pub Covers : ℕ → ℕ → ℕ → Type 0
Covers pages limit total =
    (total ≤ pages * limit) × (1 ≤ pages) × (1 < pages → (pages - 1) * limit < total)

Covers-more :
    (full part limit total : ℕ)
    → full * limit + part ≡ total
    → 0 < part
    → part < limit
    → Covers (full + 1) limit total
Covers-more full part limit total h some_row k =
    let product = add-mul full 1 limit in
    let back : full + 1 - 1 ≡ full = omega arith in
    (omega (arith, product), omega arith, λ many. rw back (omega arith))

Covers-even :
    (full limit total : ℕ)
    → full * limit ≡ total
    → 1 ≤ limit
    → Covers (if full == 0 then 1 else full) limit total
Covers-even zero limit total h k = (ground arith, omega arith, λ many. ground arith)
Covers-even (suc full) limit total h k =
    let e : (if suc full == 0 then 1 else suc full) ≡ suc full = ground arith in
    let product = add-mul full 1 limit in
    let next : suc full * limit ≡ full * limit + limit =
      ap (λ n. n * limit) (the_suc full) ∙ product ∙ omega arith in
    let back : suc full - 1 ≡ full = omega arith in
    rw e (omega arith, omega arith, λ many. rw back (omega arith))
  where
    the_suc : (n : ℕ) → suc n ≡ n + 1
    the_suc n = omega arith

-- For a limit of at least 1 the pages cover the rows, there is one at least, and none but the
-- first is empty.
pub total_pages-Covers :
    (p : Params) (total : ℕ) → 1 ≤ p.limit → Covers (total_pages p total) p.limit total
unfolding total_pages
total_pages-Covers p total h =
    let whole = div-add-mod' total p.limit in
    let below : total % p.limit < p.limit = mod-lt total h in
    elim (Bool-cases (ltb 0 (total % p.limit))) [
      | inl more ↦
          let e : total_pages p total ≡ total / p.limit + 1 = ground arith in
          rw e (
            Covers-more (total / p.limit) (total % p.limit) p.limit total whole (ground arith)
              below)
      | inr even ↦
          let none_over : total % p.limit ≡ 0 = ground arith in
          let e : total_pages p total ≡ (if total / p.limit == 0 then 1 else total / p.limit) =
            ground arith in
          rw e (Covers-even (total / p.limit) p.limit total (omega (arith, none_over)) h)
    ]
