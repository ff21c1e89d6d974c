-- ===== src/Jobs/Access.antt =====
-- Who sees a job: `get_export_job` of export/db.py.
use databridge.Base.{
  ◌≡◌, refl, ap, ◌∙◌, Bool, true, false, ◌⊎◌, inl, inr, none, some, [], ◌∷◌, String, arith, eq_iff,
  Option-cases, if◌then◌else◌, ◌↔◌,
}
use databridge.Jobs.{ExportJob, JobTable}
use databridge.Jobs.Store.{fetch, may_see, get_export_job}

-- The policy: a super admin sees every job, an organisation's admin the jobs of the organisation,
-- and anybody else their own jobs.
abbrev pub MaySee : String → String → String → ExportJob → Type 0
MaySee org_id user_id role row =
    (role ≡ "super_admin")
    ⊎ ((role ≡ "org_admin") × (row.org_id ≡ org_id))
    ⊎ ((row.org_id ≡ org_id) × (row.user_id ≡ user_id))

may_see_iff :
    (org_id user_id role : String) (row : ExportJob)
    → (may_see org_id user_id role row ≡ true) ↔ MaySee org_id user_id role row
unfolding may_see
may_see_iff org_id user_id role row = (
  λ h. ground (
    arith,
    eq_iff role "super_admin",
    eq_iff role "org_admin",
    eq_iff row.org_id org_id,
    eq_iff row.user_id user_id,
  ),
  λ h. ground (
    arith,
    eq_iff role "super_admin",
    eq_iff role "org_admin",
    eq_iff row.org_id org_id,
    eq_iff row.user_id user_id,
  ),
)

-- What is fetched has the id.
pub id-fetch :
    (job_id : String) (rows : JobTable) (row : ExportJob)
    → fetch job_id rows ≡ some row
    → row.id ≡ job_id
unfolding fetch
id-fetch job_id [] row h = cc
id-fetch job_id (r ∷ rows) row h = ground (arith, eq_iff r.id job_id, id-fetch job_id rows row)

shown :
    (b : Bool) (r row : ExportJob)
    → (if b then some r else none) ≡ some row
    → (b ≡ true) × (r ≡ row)
shown true r row h = (refl, cc)
shown false r row h = cc

-- A job is returned exactly when the table holds it under that id and the policy lets the caller
-- see it; otherwise the caller gets the same answer as for a job that is not there.
pub get_export_job_iff :
    (job_id org_id user_id role : String) (rows : JobTable) (row : ExportJob)
    → (get_export_job job_id org_id user_id role rows ≡ some row)
      ↔ ((fetch job_id rows ≡ some row) × MaySee org_id user_id role row)
unfolding get_export_job
get_export_job_iff job_id org_id user_id role rows row = (
  λ h. elim (Option-cases (fetch job_id rows)) [
    | inl e ↦ absurd (cc (rw e at h))
    | inr (r, e) ↦
        let (seen, same) = shown (may_see org_id user_id role r) r row (rw e at h) in
        (e ∙ ap some same, (may_see_iff org_id user_id role row).0 (rw same at seen))
  ],
  λ (e, m). rw (e, (may_see_iff org_id user_id role row).1 m),
)
