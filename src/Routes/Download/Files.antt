-- ===== src/Routes/Download/Files.antt =====
-- Which files a download may answer with.
use Prim.Native.String.{◌++◌ as append}
use mathlib.Core.Path.{subst}
use databridge.Base.{
  ◌≡◌, refl, Bool, true, false, not, ◌⊎◌, inl, inr, Option, none, some, String, or_else,
  if◌then◌else◌,
}
use databridge.Base.Text.{is_empty}
use databridge.Config.{Settings, DatasinkConfig, find_datasink, is_local_sink, is_s3_sink}
use databridge.Jobs.{ExportJob, is_completed}
use databridge.Jobs.Store.{get_export_job}
use databridge.Routes.{HttpResult, ok, raise, AuthContext, App}
use databridge.Routes.Download.{
  Download, local_file, s3_object, extension, file_name, joined, s3_object_key, first_file,
  local_file_response, asset_file, output_file, download_completed, download_found, download_export,
}

module _ (exists : String → Bool) (settings : Settings) (job_id : String) where
  -- What the code takes for an output of the sink for the dataset and the job: a file that exists, at
  -- the sink's path joined with the name that has the job's id or, if there is none, with the
  -- dataset's name alone; or the job's object in the sink's bucket.
  abbrev IsOutput : DatasinkConfig → String → Download → Type 0
  IsOutput cfg dataset (local_file path) =
      ((path ≡ joined cfg.path (file_name dataset job_id (extension cfg.type)))
        ⊎ ((exists (joined cfg.path (file_name dataset job_id (extension cfg.type))) ≡ false)
            × (path ≡ joined cfg.path (append dataset (extension cfg.type)))))
      × (exists path ≡ true)
      × (is_local_sink cfg.type ≡ true)
  IsOutput cfg dataset (s3_object bucket key name) =
      (bucket ≡ cfg) × (key ≡ s3_object_key cfg dataset job_id) × (is_s3_sink cfg.type ≡ true)

  -- What the code takes for an output of one of the two sinks of the job.
  abbrev pub OfJob : ExportJob → Download → Type 0
  OfJob job d =
      (cfg : DatasinkConfig) × (((find_datasink settings job.datasink_name ≡ some cfg)
          × IsOutput cfg job.destination_dataset d)
        ⊎ ((find_datasink settings (or_else job.asset_datasink_name "") ≡ some cfg)
            × IsOutput cfg (or_else job.asset_dataset "") d))

  abbrev Answers : (Download → Type 0) → HttpResult Download → Type 0
  Answers P (raise status) = Unit
  Answers P (ok d) = P d

  local_file_response-IsOutput :
      (cfg : DatasinkConfig) (dataset : String)
      → is_local_sink cfg.type ≡ true
      → Answers (IsOutput cfg dataset) (local_file_response exists cfg dataset job_id)
  unfolding local_file_response
  local_file_response-IsOutput cfg dataset local = by_files _ _ refl refl
    where
      by_files :
          (a b : Bool)
          → exists (joined cfg.path (file_name dataset job_id (extension cfg.type))) ≡ a
          → exists (joined cfg.path (append dataset (extension cfg.type))) ≡ b
          → Answers (IsOutput cfg dataset) (
              first_file exists
                (joined cfg.path (file_name dataset job_id (extension cfg.type)))
                (joined cfg.path (append dataset (extension cfg.type)))
                a
                b)
      by_files true b e f = (inl refl, e, local)
      by_files false true e f = (inr (e, refl), f, local)
      by_files false false e f = tt

  output_file-IsOutput :
      (cfg : DatasinkConfig) (dataset : String)
      → Answers (IsOutput cfg dataset) (output_file exists job_id dataset (some cfg))
  output_file-IsOutput cfg dataset =
      by_type (is_local_sink cfg.type) (is_s3_sink cfg.type) refl refl
    where
      by_type :
          (a b : Bool)
          → is_local_sink cfg.type ≡ a
          → is_s3_sink cfg.type ≡ b
          → Answers (IsOutput cfg dataset) (
              if a
              then local_file_response exists cfg dataset job_id
              else if b
              then ok (
                  s3_object cfg
                    (s3_object_key cfg dataset job_id)
                    (file_name dataset job_id (extension cfg.type)))
              else raise 400)
      by_type true b l e = local_file_response-IsOutput cfg dataset l
      by_type false true l e = (refl, refl, e)
      by_type false false l e = tt

  asset_file-IsOutput :
      (cfg : DatasinkConfig) (dataset : String)
      → Answers (IsOutput cfg dataset) (asset_file exists job_id dataset (some cfg))
  asset_file-IsOutput cfg dataset = by_type (is_local_sink cfg.type) refl
    where
      by_type :
          (a : Bool)
          → is_local_sink cfg.type ≡ a
          → Answers
              (IsOutput cfg dataset)
              (if a then local_file_response exists cfg dataset job_id else raise 400)
      by_type true l = local_file_response-IsOutput cfg dataset l
      by_type false l = tt

  weaken :
      (P Q : Download → Type 0) (r : HttpResult Download)
      → ((d : Download) → P d → Q d)
      → Answers P r
      → Answers Q r
  weaken P Q (raise status) f h = tt
  weaken P Q (ok d) f h = f d h

  output_file-OfJob :
      (job : ExportJob) (o : Option DatasinkConfig)
      → find_datasink settings job.datasink_name ≡ o
      → Answers (OfJob job) (output_file exists job_id job.destination_dataset o)
  output_file-OfJob job none e = tt
  output_file-OfJob job (some cfg) e =
      weaken (IsOutput cfg job.destination_dataset) (OfJob job) _ (λ d h. (cfg, inl (e, h)))
        (output_file-IsOutput cfg job.destination_dataset)

  asset_file-OfJob :
      (job : ExportJob) (o : Option DatasinkConfig)
      → find_datasink settings (or_else job.asset_datasink_name "") ≡ o
      → Answers (OfJob job) (asset_file exists job_id (or_else job.asset_dataset "") o)
  asset_file-OfJob job none e = tt
  asset_file-OfJob job (some cfg) e =
      weaken (IsOutput cfg (or_else job.asset_dataset "")) (OfJob job) _ (λ d h. (cfg, inr (e, h)))
        (asset_file-IsOutput cfg (or_else job.asset_dataset ""))

  download_completed-OfJob :
      (assets : Bool) (job : ExportJob)
      → Answers (OfJob job) (download_completed exists settings job_id assets job)
  download_completed-OfJob true job =
      by_flags (not job.asset_resolution) (is_empty (or_else job.asset_datasink_name ""))
        (is_empty (or_else job.asset_dataset ""))
    where
      by_flags :
          (a b c : Bool)
          → Answers (OfJob job) (
              if a
              then raise 400
              else if b
              then raise 400
              else if c
              then raise 400
              else asset_file exists job_id
                  (or_else job.asset_dataset "")
                  (find_datasink settings (or_else job.asset_datasink_name "")))
      by_flags true b c = tt
      by_flags false true c = tt
      by_flags false false true = tt
      by_flags false false false = asset_file-OfJob job _ refl
  download_completed-OfJob false job = output_file-OfJob job _ refl

  -- A download that is answered is for a completed job that the caller may see. It answers with an
  -- object of an S3 sink of the job whose key has the job's id, or with a file that exists at the path
  -- of a local sink of the job, joined with the name of the job's dataset and id, or, if there is no
  -- such file, with the name of the dataset alone; `joined` lets an absolute name replace the path.
  pub download_export-OfJob :
      (assets : Bool) (auth : AuthContext) (app : App) (d : Download)
      → download_export exists settings job_id assets auth app ≡ ok d
      → (job : ExportJob) × (get_export_job job_id auth.org_id auth.user_id auth.role app.jobs
          ≡ some job)
        × (is_completed job.status ≡ true)
        × OfJob job d
  unfolding download_export
  download_export-OfJob assets auth app d h =
      by_job (get_export_job job_id auth.org_id auth.user_id auth.role app.jobs) refl h
    where
      by_status :
          (job : ExportJob) (b : Bool)
          → is_completed job.status ≡ b
          → (if not b then raise 409 else download_completed exists settings job_id assets job)
            ≡ ok d
          → (is_completed job.status ≡ true) × OfJob job d
      by_status job true e q =
          (e, subst (Answers (OfJob job)) q (download_completed-OfJob assets job))
      by_status job false e q = cc

      by_job :
          (o : Option ExportJob)
          → get_export_job job_id auth.org_id auth.user_id auth.role app.jobs ≡ o
          → download_found exists settings job_id assets o ≡ ok d
          → (job : ExportJob) × (get_export_job job_id auth.org_id auth.user_id auth.role app.jobs
              ≡ some job)
            × (is_completed job.status ≡ true)
            × OfJob job d
      by_job none e q = cc
      by_job (some job) e q =
          let (done, ofjob) = by_status job (is_completed job.status) refl q in
          (job, e, done, ofjob)
