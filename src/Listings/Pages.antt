-- ===== src/Listings/Pages.antt =====
-- LIMIT and OFFSET, and the pages that a client of backend/internal/pkg/listq/listq.go turns.
use reimbursement_system.Base.{
  ℕ, zero, suc, ◌+◌, ◌-◌, ◌*◌, ◌^◌, ◌≤◌, ◌<◌, ◌≡◌, refl, sym, ap, ◌∙◌, List, [], ◌∷◌, ◌++◌, arith,
  length, take, drop, Text, ℤ, pos, negsuc, wrap64, wrap64_small,
}
use native.Mathlib.Nat.{add-mul}
use reimbursement_system.Requests.Paging.{
  Params, Query, parse, parse-bounds, total_pages, total_pages-Covers,
}

parse-offset :
    (q : Query) (sort : Text) (cols : List (Text × Text)) (limit k : ℕ)
    → (parse q sort cols).page ≡ k + 1
    → (parse q sort cols).limit ≡ limit
    → k * limit < 2 ^ 63
    → (parse q sort cols).offset ≡ pos (k * limit)
unfolding parse
parse-offset q sort cols limit k page same small =
    let back : k + 1 - 1 ≡ k = omega arith in
    let start : (parse q sort cols).offset ≡ wrap64 (pos ((k + 1 - 1) * limit)) =
      rw (page, same) refl in
    start ∙ ap (λ m. wrap64 (pos (m * limit))) back ∙ wrap64_small (k * limit) small

module _ {A : Type 0} where
  -- gorm's Limit and Offset: an OFFSET is written only when it is positive.
  abbrev pub rows_from : ℕ → ℤ → List A → List A
  rows_from limit (pos n) rows = take limit (drop n rows)
  rows_from limit (negsuc n) rows = take limit rows

  unfoldable pub page_rows : Params → List A → List A
  page_rows p rows = rows_from p.limit p.offset rows

  -- The answers to the first n of some queries, one after another.
  unfoldable pub turned : (ℕ → Params) → ℕ → List A → List A
  turned ps zero rows = []
  turned ps (suc n) rows = turned ps n rows ++ page_rows (ps n) rows

  take-nil : (n : ℕ) → take {A = A} n [] ≡ []
  take-nil zero = refl
  take-nil (suc n) = refl

  take-add : (a b : ℕ) (xs : List A) → take a xs ++ take b (drop a xs) ≡ take (a + b) xs
  take-add zero b xs = ap (λ n. take n xs) (omega arith)
  take-add (suc a) b [] = take-nil b ∙ sym (take-nil (suc a + b))
  take-add (suc a) b (x ∷ xs) =
      let next : suc a + b ≡ suc (a + b) = omega arith in
      rw next (ap (λ ys. x ∷ ys) (take-add a b xs))

  take-all : (n : ℕ) (xs : List A) → length xs ≤ n → take n xs ≡ xs
  take-all zero [] h = refl
  take-all zero (x ∷ xs) h = absurd (omega arith)
  take-all (suc n) [] h = refl
  take-all (suc n) (x ∷ xs) h = ap (λ ys. x ∷ ys) (take-all n xs (omega arith))

  turned-take :
      (qs : ℕ → Query) (sort : Text) (cols : List (Text × Text)) (limit n : ℕ) (rows : List A)
      → ((k : ℕ)
          → k < n
          → ((parse (qs k) sort cols).page ≡ k + 1) × ((parse (qs k) sort cols).limit ≡ limit))
      → n * limit < 2 ^ 63
      → turned (λ k. parse (qs k) sort cols) n rows ≡ take (n * limit) rows
  unfolding turned page_rows
  turned-take qs sort cols limit zero rows h small =
      let nothing : 0 * limit ≡ 0 = ground arith in rw nothing refl
  turned-take qs sort cols limit (suc n) rows h small =
      let product : suc n * limit ≡ n * limit + limit =
        ap (λ m. m * limit) (omega arith) ∙ add-mul n 1 limit ∙ omega arith in
      let below : n * limit < 2 ^ 63 = omega (arith, product, small) in
      let (page, same) = h n (omega arith) in
      let before = turned-take qs sort cols limit n rows (λ k l. h k (omega arith)) below in
      rw (before, parse-offset (qs n) sort cols limit n page same below, same, product)
        (take-add (n * limit) limit rows)

  -- If the queries of a client ask for the pages 1, 2, 3, and so on with one limit, and n is the
  -- number of pages that the listing reports, the answers to the first n queries, one after
  -- another, are all of the rows, in order, when the pages together have fewer than 2 ^ 63
  -- places.
  pub pages_partition :
      (qs : ℕ → Query) (sort : Text) (cols : List (Text × Text)) (limit n : ℕ) (rows : List A)
      → total_pages (parse (qs 0) sort cols) (length rows) ≡ n
      → ((k : ℕ)
          → k < n
          → ((parse (qs k) sort cols).page ≡ k + 1) × ((parse (qs k) sort cols).limit ≡ limit))
      → n * limit < 2 ^ 63
      → turned (λ k. parse (qs k) sort cols) n rows ≡ rows
  pages_partition qs sort cols limit n rows reported h small =
      let (at_least, some_place, most, listed) = parse-bounds (qs 0) sort cols in
      let (covered, first, last) =
        total_pages-Covers (parse (qs 0) sort cols) (length rows) some_place in
      let asked : 0 < n = omega (arith, rw reported at first) in
      let (page, same) = h 0 asked in
      let all : length rows ≤ n * limit = rw (reported, same) at covered in
      turned-take qs sort cols limit n rows h small ∙ take-all (n * limit) rows all
