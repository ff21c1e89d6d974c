-- ===== src/Demo/Queries/Listing.antt =====
-- export/db.py on db/demo_pool.py: the records that pass a filter, counted, ordered and paged.
use databridge.Base.{
  ℕ, zero, suc, ◌+◌, ◌≡◌, refl, ap, ◌∙◌, Bool, List, [], ◌∷◌, map, String, arith, Bool-cases, inl,
  inr,
}
use databridge.Base.Lists.{length, take, drop, keep_if, length-map}
use databridge.Jobs.{ExportJob, JobTable}
use databridge.Jobs.Store.{count_where, order_by_created, insert_by_created}
use databridge.Demo.{Cell, DemoRecord, entry, column, values_onto, DemoPool}
use databridge.Demo.Rows.{job_record}
use databridge.Demo.Jobs.{job_filter, job_count, insert_record, sort_records, page_of}
use databridge.Demo.Table.{entries}
use databridge.Demo.Refines.{Represents}

-- The table's rows in the order in which they were inserted.
unfoldable pub oldest_onto : JobTable → JobTable → JobTable
oldest_onto acc [] = acc
oldest_onto acc (row ∷ rs) = oldest_onto (row ∷ acc) rs

values_onto-entries :
    (acc rs : JobTable)
    → values_onto (map job_record acc) (entries rs) ≡ map job_record (oldest_onto acc rs)
unfolding values_onto entries oldest_onto
values_onto-entries acc [] = refl
values_onto-entries acc (r ∷ rs) = values_onto-entries (r ∷ acc) rs

keep_if-oldest_onto :
    (p : ExportJob → Bool) (acc rs : JobTable)
    → keep_if p (oldest_onto acc rs) ≡ oldest_onto (keep_if p acc) (keep_if p rs)
unfolding oldest_onto
keep_if-oldest_onto p acc [] = refl
keep_if-oldest_onto p acc (r ∷ rs) = elim (Bool-cases (p r)) [
  | inl e ↦ rw (e, keep_if-oldest_onto p (r ∷ acc) rs, e) refl
  | inr e ↦ rw (e, keep_if-oldest_onto p (r ∷ acc) rs, e) refl
]

length-oldest_onto : (acc rs : JobTable) → length (oldest_onto acc rs) ≡ length acc + length rs
unfolding oldest_onto
length-oldest_onto acc [] = omega arith
length-oldest_onto acc (r ∷ rs) = omega (arith, length-oldest_onto (r ∷ acc) rs)

keep_if-map :
    (q : DemoRecord → Bool) (p : ExportJob → Bool)
    → ((r : ExportJob) → q (job_record r) ≡ p r)
    → (rs : JobTable) → keep_if q (map job_record rs) ≡ map job_record (keep_if p rs)
keep_if-map q p test [] = refl
keep_if-map q p test (r ∷ rs) = elim (Bool-cases (p r)) [
  | inl e ↦ rw (test r, e, keep_if-map q p test rs) refl
  | inr e ↦ rw (test r, e, keep_if-map q p test rs) refl
]

insert_record-map :
    (r : ExportJob) (rs : JobTable)
    → insert_record (job_record r) (map job_record rs) ≡ map job_record (insert_by_created r rs)
unfolding insert_record insert_by_created column entry job_record
insert_record-map r [] = refl
insert_record-map r (s ∷ rs) = ground (arith, insert_record-map r rs)

sort_records-map :
    (rs : JobTable) → sort_records (map job_record rs) ≡ map job_record (order_by_created rs)
unfolding sort_records order_by_created
sort_records-map [] = refl
sort_records-map (r ∷ rs) = rw (sort_records-map rs) (insert_record-map r (order_by_created rs))

take-map : (n : ℕ) (rs : JobTable) → take n (map job_record rs) ≡ map job_record (take n rs)
take-map zero rs = refl
take-map (suc n) [] = refl
take-map (suc n) (r ∷ rs) = ap (λ ts. job_record r ∷ ts) (take-map n rs)

drop-map : (n : ℕ) (rs : JobTable) → drop n (map job_record rs) ≡ map job_record (drop n rs)
drop-map zero rs = refl
drop-map (suc n) [] = refl
drop-map (suc n) (r ∷ rs) = drop-map n rs

-- A filter on records that is a test of rows, counted and listed.
module _ (pool : DemoPool) (rs : JobTable) (same : Represents pool rs) where
  filtered :
      (s : String) (as' : List Cell) (p : ExportJob → Bool)
      → ((r : ExportJob) → job_filter s as' (job_record r) ≡ p r)
      → keep_if (job_filter s as') (values_onto [] pool.jobs)
        ≡ map job_record (oldest_onto [] (keep_if p rs))
  filtered s as' p test =
      rw
        (
          same,
          values_onto-entries [] rs,
          keep_if-map (job_filter s as') p test (oldest_onto [] rs),
          keep_if-oldest_onto p [] rs,
        )
        refl

  pub job_count-entries :
      (s : String) (as' : List Cell) (p : ExportJob → Bool)
      → ((r : ExportJob) → job_filter s as' (job_record r) ≡ p r)
      → job_count s as' pool.jobs ≡ count_where p rs
  unfolding job_count count_where
  job_count-entries s as' p test = rw (filtered s as' p test) (
      length-map job_record (oldest_onto [] (keep_if p rs))
      ∙ length-oldest_onto [] (keep_if p rs)
      ∙ plus_zero)
    where
      plus_zero : 0 + length (keep_if p rs) ≡ length (keep_if p rs)
      plus_zero = omega arith

  pub page-entries :
      (s : String) (as' : List Cell) (p : ExportJob → Bool) (limit offset : ℕ)
      → ((r : ExportJob) → job_filter s as' (job_record r) ≡ p r)
      → page_of limit offset (sort_records (keep_if (job_filter s as') (values_onto [] pool.jobs)))
        ≡ map job_record
            (take limit (drop offset (order_by_created (keep_if p (oldest_onto [] rs)))))
  page-entries s as' p limit offset test =
      rw
        (
          filtered s as' p test,
          keep_if-oldest_onto p [] rs,
          sort_records-map (oldest_onto [] (keep_if p rs)),
        )
        (rw (drop-map offset (order_by_created (oldest_onto [] (keep_if p rs))))
          (take-map limit (drop offset (order_by_created (oldest_onto [] (keep_if p rs))))))
