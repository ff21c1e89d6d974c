-- ===== src/Config.antt =====
-- config.py: the settings, as far as the routes and the worker read them.
pub mod Validation
use databridge.Base.{ℕ, Bool, List, String, Option, str_eq, ◌||◌}
use databridge.Base.Lists.{find_first}

pub record ServerConfig : Type 0 where
  pub host : String
  pub port : ℕ
  pub workers : ℕ
  pub root_path : String
  pub debug : Bool
  pub silence_probes : Bool
  pub hide_auth_inputs : Bool
  pub public_url : String

pub record SystemSourceConfig : Type 0 where
  pub name : String
  pub type : String
  pub url : String
  pub endpoint : String
  pub public_endpoint : String
  pub bucket : String
  pub region : String
  pub access_key_id : String
  pub secret_access_key : String
  pub key_prefix : String
  pub addressing_style : String
  pub presign_expiry : ℕ
  pub database : String
  pub table : String
  pub user : String
  pub password : String
  pub catalog : String
  pub schema_name : String
  pub search_column : String
  pub timestamp_column : String
  pub duckdb_temp_dir : String

pub record DatasinkConfig : Type 0 where
  pub name : String
  pub type : String
  pub url : String
  pub path : String
  pub filename_template : String
  pub bucket : String
  pub region : String
  pub access_key_id : String
  pub secret_access_key : String
  pub endpoint : String
  pub key_prefix : String
  pub token_url : String
  pub client_id : String
  pub client_secret : String
  pub audience : String
  pub org_header : String
  pub dataset_access : String

pub record ExportSettings : Type 0 where
  pub stale_job_timeout_minutes : ℕ
  pub max_concurrent_jobs_per_org : ℕ
  pub job_ttl_days : ℕ
  pub poll_interval_seconds : ℕ
  pub keepalive_interval_minutes : ℕ
  pub batch_size : ℕ
  pub redis_url : String
  pub worker_metrics_port : ℕ
  pub webhook_allowed_url_prefixes : List String

pub record Settings : Type 0 where
  pub server : ServerConfig
  pub database_url : String
  pub encryption_key : String
  pub datasources : List SystemSourceConfig
  pub datasinks : List DatasinkConfig
  pub export : ExportSettings
  pub db_pool_max_size : ℕ
  pub demo : Bool

-- `next((s for s in settings.datasinks if s.name == name), None)`
abbrev pub find_datasink : Settings → String → Option DatasinkConfig
find_datasink settings name = find_first (λ s. str_eq s.name name) settings.datasinks

-- `type in {"local-zip", "local-jsonl"}` and `type in {"s3-jsonl", "s3-zip"}`
unfoldable pub is_local_sink : String → Bool
is_local_sink type = str_eq type "local-zip" || str_eq type "local-jsonl"

unfoldable pub is_s3_sink : String → Bool
is_s3_sink type = str_eq type "s3-jsonl" || str_eq type "s3-zip"
