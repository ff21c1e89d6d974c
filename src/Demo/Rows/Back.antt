-- ===== src/Demo/Rows/Back.antt =====
-- export/db.py on db/demo_pool.py: what `_row_to_response` reads from the record of a job.
use databridge.Base.{ℕ, ◌≡◌, refl, false, Option, none, some, String}
use databridge.Jobs.{
  Instant, ExportJobStatus, pending, running, completed, failed, cancelled, status_text,
  DatasourceType, connection, system, ExportJob,
}
use databridge.Sampling.{SamplingConfig}
use databridge.Demo.{entry, column}
use databridge.Demo.Rows.{
  text_cell, number_cell, instant_cell, sampling_cell, type_text, job_record,
}
use databridge.Demo.Rows.Response.{
  text_or_null, number_or_null, instant_or_null, parse_sampling_config, status_of, type_of,
  row_to_response,
}

text_or_null_cell : (o : Option String) → text_or_null (text_cell o) ≡ some o
unfolding text_or_null
text_or_null_cell none = refl
text_or_null_cell (some s) = refl

number_or_null_cell : (o : Option ℕ) → number_or_null (number_cell o) ≡ some o
unfolding number_or_null
number_or_null_cell none = refl
number_or_null_cell (some n) = refl

instant_or_null_cell : (o : Option Instant) → instant_or_null (instant_cell o) ≡ some o
unfolding instant_or_null
instant_or_null_cell none = refl
instant_or_null_cell (some t) = refl

sampling_config_cell :
    (o : Option SamplingConfig) → parse_sampling_config (sampling_cell o) ≡ some o
unfolding parse_sampling_config
sampling_config_cell none = refl
sampling_config_cell (some c) = refl

status_of-status_text : (s : ExportJobStatus) → status_of (status_text s) ≡ some s
unfolding status_of
status_of-status_text pending = refl
status_of-status_text running = refl
status_of-status_text completed = refl
status_of-status_text failed = refl
status_of-status_text cancelled = refl

type_of-type_text : (t : DatasourceType) → type_of (type_text t) ≡ some t
unfolding type_of
type_of-type_text connection = refl
type_of-type_text system = refl

-- What a response shows of a job in demo mode: all of it but the heartbeat, which no response has,
-- and the two settings of field extraction.
abbrev pub without_extraction : ExportJob → ExportJob
without_extraction row = record row {
  last_heartbeat_at = none;
  field_extraction = false;
  field_extraction_path = "";
}

-- Reading a job back from the record that the demo pool keeps of it gives the job with field
-- extraction switched off and its path empty; every other column comes back as it was.
pub row_to_response-job_record :
    (row : ExportJob) → row_to_response (job_record row) ≡ some (without_extraction row)
unfolding row_to_response job_record entry column
row_to_response-job_record row = simp (
  text_or_null_cell, number_or_null_cell, instant_or_null_cell, sampling_config_cell,
  status_of-status_text, type_of-type_text,
)
