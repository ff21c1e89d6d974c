-- ===== src/Jobs/Listing.antt =====
-- `list_export_jobs` of export/db.py: order, pages and total.
use mathlib.Core.List.{Perm}
use mathlib.Core.List.Perm
use databridge.Base.{
  ℕ, zero, suc, ◌+◌, ◌-◌, ◌*◌, ◌≤◌, ◌≡◌, refl, ap, ◌∙◌, inl, inr, Option, List, [], ◌∷◌, ◌++◌,
  String, arith, ltb, Bool-cases, ◌==◌, ◌<◌, false,
}
use databridge.Base.Lists.{length, take, drop, keep_if, All, take-add, take-all}
use databridge.Jobs.{Instant, ExportJob, JobTable}
use databridge.Jobs.Store.{
  listed, insert_by_created, order_by_created, list_export_jobs, count_where,
}

-- Each job is at least as new as those behind it.
abbrev NewestFirst : JobTable → Type 0
NewestFirst [] = Unit
NewestFirst (row ∷ rows) = All (λ r. r.created_at ≤ row.created_at) rows × NewestFirst rows

All-insert_by_created :
    (t : Instant) (row : ExportJob) (rows : JobTable)
    → row.created_at ≤ t
    → All (λ r. r.created_at ≤ t) rows
    → All (λ r. r.created_at ≤ t) (insert_by_created row rows)
unfolding insert_by_created
All-insert_by_created t row [] h hs = (h, tt)
All-insert_by_created t row (r ∷ rows) h hs =
    ground (arith, All-insert_by_created t row rows h hs.1)

All-older :
    (s t : Instant) (rows : JobTable)
    → s ≤ t
    → All (λ r. r.created_at ≤ s) rows
    → All (λ r. r.created_at ≤ t) rows
All-older s t [] h hs = tt
All-older s t (r ∷ rows) h hs = (omega arith, All-older s t rows h hs.1)

insert_by_created-NewestFirst :
    (row : ExportJob) (rows : JobTable)
    → NewestFirst rows
    → NewestFirst (insert_by_created row rows)
unfolding insert_by_created
insert_by_created-NewestFirst row [] h = (tt, tt)
insert_by_created-NewestFirst row (r ∷ rows) (hr, hs) =
    elim (Bool-cases (ltb row.created_at r.created_at)) [
      | inl e ↦ rw e (
        All-insert_by_created r.created_at row rows (ground arith) hr,
        insert_by_created-NewestFirst row rows hs,
      )
      | inr e ↦
          let newer : r.created_at ≤ row.created_at = ground arith in
          rw e ((newer, All-older r.created_at row.created_at rows newer hr), (hr, hs))
    ]

insert_by_created-perm :
    (row : ExportJob) (rows : JobTable) → Perm (insert_by_created row rows) (row ∷ rows)
unfolding insert_by_created
insert_by_created-perm row [] = Perm.refl _
insert_by_created-perm row (r ∷ rows) = elim (Bool-cases (ltb row.created_at r.created_at)) [
  | inl e ↦ rw e (Perm.trans (Perm.cons r (insert_by_created-perm row rows)) (Perm.swap row r rows))
  | inr e ↦ rw e (Perm.refl _)
]

-- The listing is ordered from the newest job to the oldest, and holds the same rows as the table
-- that is ordered, each as often.
order_by_created_lem :
    (rows : JobTable) → NewestFirst (order_by_created rows) × Perm (order_by_created rows) rows
unfolding order_by_created
order_by_created_lem [] = (tt, Perm.refl _)
order_by_created_lem (row ∷ rows) =
    let (sorted, perm) = order_by_created_lem rows in
    (
      insert_by_created-NewestFirst row (order_by_created rows) sorted,
      Perm.trans (insert_by_created-perm row (order_by_created rows)) (Perm.cons row perm),
    )

-- No two rows have one instant of creation, so that one order by it is possible.
abbrev ApartInTime : JobTable → Type 0
ApartInTime [] = Unit
ApartInTime (row ∷ rows) =
    All (λ r. (r.created_at == row.created_at) ≡ false) rows × ApartInTime rows

-- Each job is newer than all those behind it.
abbrev pub StrictlyNewestFirst : JobTable → Type 0
StrictlyNewestFirst [] = Unit
StrictlyNewestFirst (row ∷ rows) =
    All (λ r. r.created_at < row.created_at) rows × StrictlyNewestFirst rows

module _ (P : ExportJob → Type 0) where
  insert_by_created-All :
      (row : ExportJob) (rows : JobTable) → P row → All P rows → All P (insert_by_created row rows)
  unfolding insert_by_created
  insert_by_created-All row [] h hs = (h, tt)
  insert_by_created-All row (r ∷ rows) h (k, ks) =
      elim (Bool-cases (ltb row.created_at r.created_at)) [
        | inl e ↦ rw e (k, insert_by_created-All row rows h ks)
        | inr e ↦ rw e (h, (k, ks))
      ]

  order_by_created-All : (rows : JobTable) → All P rows → All P (order_by_created rows)
  unfolding order_by_created
  order_by_created-All [] h = tt
  order_by_created-All (row ∷ rows) (h, hs) =
      insert_by_created-All row (order_by_created rows) h (order_by_created-All rows hs)

-- In an order from the newest on, the jobs that are apart in time are strictly so.
strict : (rows : JobTable) → NewestFirst rows → ApartInTime rows → StrictlyNewestFirst rows
strict [] h k = tt
strict (row ∷ rows) (h, hs) (k, ks) = (all_newer rows h k, strict rows hs ks)
  where
    all_newer :
        (rs : JobTable)
        → All (λ r. r.created_at ≤ row.created_at) rs
        → All (λ r. (r.created_at == row.created_at) ≡ false) rs
        → All (λ r. r.created_at < row.created_at) rs
    all_newer [] a b = tt
    all_newer (r ∷ rs) (a, as') (b, bs) = (ground arith, all_newer rs as' bs)

insert_by_created-ApartInTime :
    (row : ExportJob) (rows : JobTable)
    → All (λ r. (r.created_at == row.created_at) ≡ false) rows
    → ApartInTime rows
    → ApartInTime (insert_by_created row rows)
unfolding insert_by_created
insert_by_created-ApartInTime row [] h k = (tt, tt)
insert_by_created-ApartInTime row (r ∷ rows) (h, hs) (k, ks) =
    elim (Bool-cases (ltb row.created_at r.created_at)) [
      | inl e ↦ rw e (
        insert_by_created-All (λ s. (s.created_at == r.created_at) ≡ false) row rows (ground arith)
            k,
        insert_by_created-ApartInTime row rows hs ks,
      )
      | inr e ↦ rw e ((h, hs), (k, ks))
    ]

order_by_created-ApartInTime :
    (rows : JobTable) → ApartInTime rows → ApartInTime (order_by_created rows)
unfolding order_by_created
order_by_created-ApartInTime [] h = tt
order_by_created-ApartInTime (row ∷ rows) (h, hs) =
    insert_by_created-ApartInTime row (order_by_created rows)
      (order_by_created-All (λ r. (r.created_at == row.created_at) ≡ false) rows h)
      (order_by_created-ApartInTime rows hs)

length-insert_by_created :
    (row : ExportJob) (rows : JobTable) → length (insert_by_created row rows) ≡ suc (length rows)
unfolding insert_by_created
length-insert_by_created row [] = refl
length-insert_by_created row (r ∷ rows) = ground (arith, length-insert_by_created row rows)

length-order_by_created : (rows : JobTable) → length (order_by_created rows) ≡ length rows
unfolding order_by_created
length-order_by_created [] = refl
length-order_by_created (row ∷ rows) =
    length-insert_by_created row (order_by_created rows) ∙ ap suc (length-order_by_created rows)

module _ (org_id role : String) (page_size : ℕ) (status_filter : Option String)
    (rows : JobTable) where
  -- The pages 1 to `m`, one after the other.
  abbrev pub pages_upto : ℕ → List ExportJob
  pages_upto zero = []
  pages_upto (suc m) =
      pages_upto m ++ (list_export_jobs org_id role (suc m) page_size status_filter rows).0

  pages-take :
      (m : ℕ)
      → pages_upto m
        ≡ take (m * page_size) (order_by_created (keep_if (listed org_id role status_filter) rows))
  unfolding list_export_jobs
  pages-take zero = let none_yet : 0 * page_size ≡ 0 = omega arith in rw none_yet
  pages-take (suc m) =
      let all = order_by_created (keep_if (listed org_id role status_filter) rows) in
      let size : suc m * page_size ≡ m * page_size + page_size = grind arith in
      let before : (suc m - 1) * page_size ≡ m * page_size = grind arith in
      rw (size, before)
        (rw (take-add (m * page_size) page_size all)
          (ap (λ r. r ++ take page_size (drop (m * page_size) all)) (pages-take m)))

  -- Where the pages 1 to `m` have room for the total that every page reports, they hold, one after
  -- the other, all the matching jobs, in the order of the listing.
  list_export_jobs-pages :
      (m page : ℕ)
      → (list_export_jobs org_id role page page_size status_filter rows).1 ≤ m * page_size
      → pages_upto m ≡ order_by_created (keep_if (listed org_id role status_filter) rows)
  unfolding list_export_jobs count_where
  list_export_jobs-pages m page h =
      pages-take m
      ∙ take-all (m * page_size)
          (order_by_created (keep_if (listed org_id role status_filter) rows))
          (rw length-order_by_created h)

  -- Where no two of the matching jobs were created at one instant, so that SQL has one order for all
  -- the pages' queries, and the pages 1 to `m` have room for the total that every page reports, they
  -- hold, one after the other, each matching job of the table once, each newer than those behind it.
  -- Matching are the jobs of the organisation, or of all for a super admin, that have the status.
  pub list_export_jobs-all :
      (m page : ℕ)
      → ApartInTime (keep_if (listed org_id role status_filter) rows)
      → (list_export_jobs org_id role page page_size status_filter rows).1 ≤ m * page_size
      → StrictlyNewestFirst (pages_upto m)
        × Perm (pages_upto m) (keep_if (listed org_id role status_filter) rows)
  list_export_jobs-all m page apart h =
      let matching : JobTable = keep_if (listed org_id role status_filter) rows in
      let (sorted, perm) = order_by_created_lem matching in
      rw (list_export_jobs-pages m page h) (
        strict (order_by_created matching) sorted (order_by_created-ApartInTime matching apart),
        perm,
      )
