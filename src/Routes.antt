-- ===== src/Routes.antt =====
-- The HTTP routes: what a request does to the state of the service, and its answer.
pub mod ExportJobs
pub mod Connections
pub mod Download
pub mod Datasinks
pub mod WebhookTest
use databridge.Base.{ℕ, Bool, List, String, Option}
use databridge.Jobs.{JobTable}

-- An answer, or the status code of the HTTPException that is raised.
pub data HttpResult {ℓ} (A : Type ℓ) : Type ℓ where
  ok : A → HttpResult A
  raise : ℕ → HttpResult A

-- `AuthContext` of auth.py
pub record AuthContext : Type 0 where
  pub public_key : String
  pub is_org_admin : Bool
  pub org_id : String
  pub user_id : String
  pub role : String

-- The table, and the ids of the jobs that wait in the worker's queue.
pub record App : Type 0 where
  pub jobs : JobTable
  pub queue : List String

-- The queue's client as it answers during one request: whether there is one, and whether its
-- `ping` and its `enqueue_job` return.
pub record ArqPool : Type 0 where
  pub present : Bool
  pub pings : Bool
  pub enqueues : Bool
