-- ===== src/Routes/Download.antt =====
-- routes/export_jobs.py: the download of a job's output.
pub mod Files
use Prim.Native.Char.{Char, code}
use Prim.Native.String.{◌++◌ as append}
use databridge.Base.{
  Bool, true, false, not, ◌&&◌, ◌||◌, Option, none, some, String, str_eq, is_some, or_else,
  then_option, if◌then◌else◌, ◌==◌,
}
use databridge.Base.Text.{rstrip_slash, is_empty}
use databridge.Config.{Settings, DatasinkConfig, find_datasink, is_local_sink, is_s3_sink}
use databridge.Jobs.{ExportJob, is_completed}
use databridge.Jobs.Store.{get_export_job}
use databridge.Routes.{HttpResult, ok, raise, AuthContext, App}

-- A file by its path, or an object that is streamed from a bucket, with the name it is saved as.
pub data Download : Type 0 where
  local_file : String → Download
  s3_object : DatasinkConfig → String → String → Download

-- `_EXTENSIONS` and `_S3_EXTENSIONS`, for the types of their sets
unfoldable pub extension : String → String
extension type = if str_eq type "local-zip" || str_eq type "s3-zip" then ".zip" else ".jsonl"

-- `f"{dataset}_{job_id}{ext}"`
abbrev pub file_name : String → String → String → String
file_name dataset job_id ext = append dataset (append "_" (append job_id ext))

-- `_s3_object_key`
unfoldable pub s3_object_key : DatasinkConfig → String → String → String
s3_object_key cfg dataset job_id =
    let prefix = rstrip_slash cfg.key_prefix in
    let name = file_name dataset job_id (extension cfg.type) in
    if is_empty prefix then name else append prefix (append "/" name)

abbrev is_absolute : String → Bool
is_absolute String.[] = false
is_absolute (String.◌∷◌ c s) = code c == b'/'

-- `Path(base) / name`, up to repeated slashes and dots that name the same file: an absolute name
-- replaces the base.
unfoldable pub joined : String → String → String
joined base name =
    if is_absolute name then name else if is_empty base then name else append base (append "/" name)

-- Whether there is something at a path is a parameter.
module _ (exists : String → Bool) where
  abbrev pub first_file : String → String → Bool → Bool → HttpResult Download
  first_file first second true e = ok (local_file first)
  first_file first second false true = ok (local_file second)
  first_file first second false false = raise 404

  -- `_local_file_response`
  unfoldable pub local_file_response : DatasinkConfig → String → String → HttpResult Download
  local_file_response cfg dataset job_id =
      let first = joined cfg.path (file_name dataset job_id (extension cfg.type)) in
      let second = joined cfg.path (append dataset (extension cfg.type)) in
      first_file first second (exists first) (exists second)

  abbrev pub asset_file : String → String → Option DatasinkConfig → HttpResult Download
  asset_file job_id dataset none = raise 400
  asset_file job_id dataset (some cfg) =
      if is_local_sink cfg.type then local_file_response cfg dataset job_id else raise 400

  -- `if assets`
  abbrev download_assets : Settings → String → ExportJob → HttpResult Download
  download_assets settings job_id job =
      if not job.asset_resolution
      then raise 400
      else if is_empty (or_else job.asset_datasink_name "")
      then raise 400
      else if is_empty (or_else job.asset_dataset "")
      then raise 400
      else asset_file job_id (or_else job.asset_dataset "")
          (find_datasink settings (or_else job.asset_datasink_name ""))

  abbrev pub output_file : String → String → Option DatasinkConfig → HttpResult Download
  output_file job_id dataset none = raise 400
  output_file job_id dataset (some cfg) =
      if is_local_sink cfg.type
      then local_file_response cfg dataset job_id
      else if is_s3_sink cfg.type
      then ok (
          s3_object cfg (s3_object_key cfg dataset job_id)
            (file_name dataset job_id (extension cfg.type)))
      else raise 400

  abbrev pub download_completed : Settings → String → Bool → ExportJob → HttpResult Download
  download_completed settings job_id assets job =
      if assets
      then download_assets settings job_id job
      else output_file job_id job.destination_dataset (find_datasink settings job.datasink_name)

  abbrev pub download_found : Settings → String → Bool → Option ExportJob → HttpResult Download
  download_found settings job_id assets none = raise 404
  download_found settings job_id assets (some job) =
      if not (is_completed job.status)
      then raise 409
      else download_completed settings job_id assets job

  -- `GET /api/v1/export-jobs/{job_id}/download`
  unfoldable pub download_export :
      Settings → String → Bool → AuthContext → App → HttpResult Download
  download_export settings job_id assets auth app =
      download_found settings job_id assets
        (get_export_job job_id auth.org_id auth.user_id auth.role app.jobs)
