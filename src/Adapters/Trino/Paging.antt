-- ===== src/Adapters/Trino/Paging.antt =====
-- adapters.py: the pages of an answer of Trino, as the loops put them together.
use databridge.Base.{
  ℕ, zero, suc, ◌≤◌, ◌≡◌, refl, ap, sym, ◌∙◌, Bool, true, false, some, List, [], ◌∷◌, ◌++◌, map,
  String, arith, ltb, Bool-cases, inl, inr,
}
use databridge.Base.Lists.{length, take, append_assoc, append_nil, All}
use databridge.Base.Text.{concat}
use databridge.Value.{Value}
use databridge.Sink.{Try, returns, raises}
use databridge.Adapters.Literals.{
  read_literal, read_literal-plain, double_quotes, read_literal-double_quotes, NoQuoteFirst, quote,
  is_quote, push,
}
use databridge.Adapters.Trino.Records.{row_dicts-AreRecords, Assembled}
use databridge.Adapters.Trino.{
  like_literal, Page, columns_after, row_dicts, goes_on, fetch_loop, fetch_page, preview_loop,
  preview, first_rows, execute_loop, execute,
}

double_quotes-percent :
    (q rest : String)
    → concat (concat (double_quotes q) "%'") rest
      ≡ concat (double_quotes (concat q "%")) (String.◌∷◌ quote rest)
unfolding double_quotes
double_quotes-percent String.[] rest = refl
double_quotes-percent (String.◌∷◌ c q) rest = elim (Bool-cases (is_quote c)) [
  | inl e ↦ rw e (ap (λ (s : String). String.◌∷◌ c (String.◌∷◌ c s)) (double_quotes-percent q rest))
  | inr e ↦ rw e (ap (String.◌∷◌ c) (double_quotes-percent q rest))
]

-- Trino reads the literal of the search condition as the query between two percent signs, up to
-- the closing quote, whatever the query is, if no quote follows.
pub like_literal-read :
    (query rest : String)
    → NoQuoteFirst rest
    → read_literal (concat (like_literal query) rest)
      ≡ some (String.◌∷◌ "%" (concat query "%"), rest)
unfolding like_literal
like_literal-read query rest h =
    read_literal-plain "%" (concat (concat (double_quotes query) "%'") rest) refl
    ∙ ap (push "%") (
        ap read_literal (double_quotes-percent query rest)
        ∙ read_literal-double_quotes (concat query "%") rest h)

take-append_long {ℓ} :
    {A : Type ℓ} (n : ℕ) (xs ys : List A) → n ≤ length xs → take n (xs ++ ys) ≡ take n xs
take-append_long zero xs ys h = refl
take-append_long (suc n) [] ys h = absurd (omega arith)
take-append_long (suc n) (x ∷ xs) ys h = ap (λ r. x ∷ r) (take-append_long n xs ys (omega arith))

-- What the loop returns begins with the rows that it had.
fetch_loop-extends :
    (replies : List (Try Page)) (next : Bool) (columns : List String) (results all : List Value)
    → fetch_loop replies next columns results ≡ returns all
    → (more : List Value) × (all ≡ results ++ more)
unfolding fetch_loop
fetch_loop-extends replies false columns results all h =
    let same : all ≡ results = cc in ([], same ∙ sym (append_nil results))
fetch_loop-extends [] true columns results all h = cc
fetch_loop-extends (raises e ∷ replies) true columns results all h = cc
fetch_loop-extends (returns page ∷ replies) true columns results all h =
    let new = row_dicts (columns_after columns page) page.rows in
    let (more, e) =
      fetch_loop-extends replies (goes_on page) (columns_after columns page) (results ++ new) all
        h in
    (new ++ more, e ∙ append_assoc results new more)

loop-preview :
    (limit : ℕ) (replies : List (Try Page)) (next : Bool) (columns : List String)
    (results all : List Value)
    → fetch_loop replies next columns results ≡ returns all
    → first_rows limit (preview_loop limit replies next columns results) ≡ returns (take limit all)
unfolding fetch_loop preview_loop
loop-preview limit replies false columns results all h =
    let same : results ≡ all = cc in rw same refl
loop-preview limit [] true columns results all h = cc
loop-preview limit (raises e ∷ replies) true columns results all h = cc
loop-preview limit (returns page ∷ replies) true columns results all h =
    let new = row_dicts (columns_after columns page) page.rows in
    elim (Bool-cases (ltb (length results) limit)) [
      | inl e ↦ rw e (
          loop-preview limit replies (goes_on page) (columns_after columns page) (results ++ new)
            all h)
      | inr e ↦
          let (more, made) =
            fetch_loop-extends (returns page ∷ replies) true columns results all h in
          rw (e, made) (rw (take-append_long limit results more (ground arith)) refl)
    ]

-- Where reading an answer to its end returns, `preview` returns the first rows of it: as many as
-- the limit says, though it stops to ask for pages as soon as it has them.
preview-take :
    (limit : ℕ) (replies : List (Try Page)) (all : List Value)
    → fetch_page replies ≡ returns all
    → preview limit replies ≡ returns (take limit all)
unfolding fetch_page preview
preview-take limit [] all h = cc
preview-take limit (raises e ∷ replies) all h = cc
preview-take limit (returns page ∷ replies) all h =
    loop-preview limit replies page.next page.columns (row_dicts page.columns page.rows) all h

goes_on-next : (page : Page) → goes_on page ≡ page.next
unfolding goes_on
goes_on-next page = ground arith

abbrev pub all_rows : List Page → List (List Value)
all_rows [] = []
all_rows (page ∷ pages) = page.rows ++ all_rows pages

-- The pages of an answer: each but the last has a `nextUri`.
abbrev Continues : List Page → Type 0
Continues = All (λ (page : Page). page.next ≡ true)

module _ (last : Page) (later : List (Try Page)) (ends : last.next ≡ false) where
  abbrev answered : List Page → List (Try Page)
  answered pages = map returns pages ++ returns last ∷ later

  execute_loop-pages :
      (pages : List Page) (rows : List (List Value))
      → Continues pages
      → execute_loop (answered pages) true rows ≡ returns (rows ++ all_rows (pages ++ last ∷ []))
  unfolding execute_loop
  execute_loop-pages [] rows h =
      ap (λ (b : Bool). execute_loop later b (rows ++ last.rows)) (goes_on-next last ∙ ends)
      ∙ ap (λ (r : List (List Value)). returns (rows ++ r)) (sym (append_nil last.rows))
  execute_loop-pages (page ∷ pages) rows (h, hs) =
      ap (λ (b : Bool). execute_loop (answered pages) b (rows ++ page.rows)) (goes_on-next page ∙ h)
      ∙ (execute_loop-pages pages (rows ++ page.rows) hs
          ∙ ap returns (append_assoc rows page.rows (all_rows (pages ++ last ∷ []))))

  fetch_loop-pages :
      (pages : List Page) (columns : List String) (results : List Value)
      → Continues pages
      → (later_ones : List Value) × (fetch_loop (answered pages) true columns results
          ≡ returns (results ++ later_ones))
        × Assembled columns (pages ++ last ∷ []) later_ones
  unfolding fetch_loop
  fetch_loop-pages [] columns results h =
      let new = row_dicts (columns_after columns last) last.rows in
      (
        new,
        ap (λ (b : Bool). fetch_loop later b (columns_after columns last) (results ++ new))
            (goes_on-next last ∙ ends),
        (
          new,
          [],
          sym (append_nil new),
          row_dicts-AreRecords (columns_after columns last) last.rows,
          refl,
        ),
      )
  fetch_loop-pages (page ∷ pages) columns results (h, hs) =
      let new = row_dicts (columns_after columns page) page.rows in
      let (rest, found, assembled) =
        fetch_loop-pages pages (columns_after columns page) (results ++ new) hs in
      (
        new ++ rest,
        ap
              (λ (b : Bool).
                fetch_loop (answered pages) b (columns_after columns page) (results ++ new))
              (goes_on-next page ∙ h)
            ∙ found
            ∙ ap returns (append_assoc results new rest),
        (new, rest, refl, row_dicts-AreRecords (columns_after columns page) page.rows, assembled),
      )

  -- Where the server answers with pages that each have a `nextUri` and then with one that has none,
  -- `_execute` ends and returns the rows of all these pages, in order; `fetch_page` ends and returns
  -- one record for each of them, in order, which has under the name of each column what stands there
  -- in the row, and no other keys; and `preview`, for any limit, ends and returns the first of these
  -- records, up to the limit; whatever replies would come later.
  pub pages_end :
      (first : Page) (pages : List Page) (limit : ℕ)
      → Continues (first ∷ pages)
      → (execute (answered (first ∷ pages)) ≡ returns (all_rows (first ∷ pages ++ last ∷ [])))
        × (all : List Value) × (fetch_page (answered (first ∷ pages)) ≡ returns all)
        × Assembled [] (first ∷ pages ++ last ∷ []) all
        × (preview limit (answered (first ∷ pages)) ≡ returns (take limit all))
  unfolding execute fetch_page
  pages_end first pages limit (h, hs) =
      let new = row_dicts first.columns first.rows in
      let (rest, found, assembled) = fetch_loop-pages pages first.columns new hs in
      let fetched : fetch_page (answered (first ∷ pages)) ≡ returns (new ++ rest) = rw h found in
      (
        rw h (execute_loop-pages pages first.rows hs),
        new ++ rest,
        fetched,
        (new, rest, refl, row_dicts-AreRecords first.columns first.rows, assembled),
        preview-take limit (answered (first ∷ pages)) (new ++ rest) fetched,
      )
