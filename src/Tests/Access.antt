-- ===== src/Tests/Access.antt =====
-- Requests on stored connections, and who they come from.
use Prim.Native.Char.{Char}
use databridge.Base.{
  ◌≡◌, refl, true, false, Option, none, some, [], ◌∷◌, String, str_eq, if◌then◌else◌,
}
use databridge.Value.{dict, text, Entries, done, entry, get, put}
use databridge.Sink.{returns}
use databridge.Config.{is_local_sink}
use databridge.Jobs.{ExportJob, completed, is_completed}
use databridge.Jobs.Store.{get_export_job, may_see, fetch, new_row}
use databridge.Routes.{ok, App}
use databridge.Routes.Download.{joined, local_file, extension, local_file_response, download_export}
use databridge.Routes.Download.Files.{OfJob, download_export-OfJob}
use databridge.Sink.LocalJsonl.{LocalJsonl, post_all}
use databridge.Sink.LocalJsonl.Lines.{post_all-lines}
use databridge.Tests.Table.{job_a}
use databridge.Connections.{Connection, ConnectionTable, get_connection, is_own}
use databridge.Connections.Owners.{others_rows}
use databridge.Routes.Connections.{
  Backend, ConnectionCreate, create_connection, patch_connection, remove_connection,
  get_connection_credentials, get_connection_or_404, without_secrets, is_secret, is_system_source,
  row_to_response, merge_credentials,
}
use databridge.Routes.Connections.Access.{
  connection_requests-keep_others, get_connection_credentials-own,
}
use databridge.Routes.Connections.Credentials.{or_last, last_given, patch_connection-merges}
use databridge.Auth.{is_safe, sanitize, get_auth}
use databridge.Auth.Keys.{sanitize-rebuilds_dots}
use databridge.Auth.Roles.{get_auth-roles, Consistent, Ordinary}
use databridge.Tests.Requests.{settings, ann}

abbrev stored : Entries
stored =
    entry "user" (text "ann")
      (entry "password" (text "p1") (entry "timestamp_column" (text "ts") done))

abbrev changed : Entries
changed =
    entry "user" (text "") (entry "password" (text "p2") (entry "timestamp_column" (text "") done))

abbrev merged : Entries
merged =
    entry "user" (text "ann")
      (entry "password" (text "p2") (entry "timestamp_column" (text "") done))

-- A stand-in for encryption, which knows two dicts.
abbrev backend : Backend
backend = record {
  encrypt = λ fs. "merged";
  decrypt = λ s. if str_eq s "stored" then stored else merged;
  ping = λ row fs. returns tt;
  ping_source = λ src. returns tt;
  source_id = λ name. name;
}

abbrev row_a : Connection
row_a = record {
  id = "c1";
  owner_key = "acme/ann";
  label = "logs";
  type = "clickhouse";
  role = "source";
  connection_url = "https://ch.example";
  credentials_enc = "stored";
  status = "reachable";
  last_tested_at = some 5;
  created_at = 1;
  updated_at = 1;
}

abbrev row_b : Connection
row_b = record row_a { id = "c2"; owner_key = "acme/bob" }

abbrev pub rows : ConnectionTable
rows = row_a ∷ row_b ∷ []

abbrev new_connection : ConnectionCreate
new_connection = record {
  label = "new";
  type = "s3";
  role = "source";
  connection_url = "https://s3.example";
  credentials = stored;
}

connection_requests-keep_others_example :
    (others_rows "acme/ann" (create_connection backend settings new_connection ann "c2" 9 rows).0
      ≡ row_b ∷ [])
    × (others_rows "acme/ann"
          (patch_connection backend settings "c2"
            (record { label = some "x"; credentials = some changed })
            ann
            9
            rows).0
        ≡ row_b ∷ [])
    × (others_rows "acme/ann" (remove_connection backend settings "c2" ann [] rows).0 ≡ row_b ∷ [])
connection_requests-keep_others_example =
    connection_requests-keep_others backend settings ann rows "c2" 9 new_connection
      (record { label = some "x"; credentials = some changed }) []

get_auth-roles_example :
    Consistent
      (λ c. false)
      (get_auth
        (λ c. false)
        (λ s. some "acme/bob:x")
        settings
        (record {
          x_group_id = none;
          x_role = some "SUPER_ADMIN";
          authorization = some "Basic Zm9v";
        }))
    × (Path (Option String) none none
        → Ordinary
            (λ c. false)
            settings
            (get_auth
              (λ c. false)
              (λ s. some "acme/bob:x")
              settings
              (record {
                x_group_id = none;
                x_role = some "SUPER_ADMIN";
                authorization = some "Basic Zm9v";
              })))
get_auth-roles_example =
    get_auth-roles (λ c. false) (λ s. some "acme/bob:x") settings
      (record { x_group_id = none; x_role = some "SUPER_ADMIN"; authorization = some "Basic Zm9v" })

patch_connection-merges_example :
    let result =
      patch_connection backend settings "c1"
        (record { label = none; credentials = some changed })
        ann
        9
        rows in
    (row' : Connection) × (get_connection "c1" "acme/ann" result.0 ≡ some row')
    × (result.1 ≡ ok (row_to_response row'))
    × (row'.status ≡ "untested")
    × ((k : String)
        → get k (backend.decrypt row'.credentials_enc)
          ≡ or_last (last_given k changed) (get k stored))
unfolding merge_credentials put is_system_source get_connection
patch_connection-merges_example =
    patch_connection-merges backend settings "c1" none changed ann 9 rows row_a refl refl refl

abbrev dot : Char
dot = "."

abbrev blank : Char
blank = " "

sanitize-rebuilds_dots_example : sanitize (λ c. false) ". ." ≡ ".."
unfolding is_safe
sanitize-rebuilds_dots_example = sanitize-rebuilds_dots (λ c. false) dot blank refl refl

abbrev finished : App
finished = record { jobs = record job_a { status = completed } ∷ []; queue = [] }

download_export-OfJob_example :
    (job : ExportJob) × (get_export_job "a" ann.org_id ann.user_id ann.role finished.jobs
      ≡ some job)
    × (is_completed job.status ≡ true)
    × OfJob (λ path. true) settings "a" job (local_file "/data/traces_a.zip")
unfolding download_export get_export_job may_see fetch new_row is_local_sink local_file_response
    extension joined
download_export-OfJob_example =
    download_export-OfJob (λ path. true) settings "a" false ann finished
      (local_file "/data/traces_a.zip") refl

abbrev open_sink : LocalJsonl
open_sink = record { job_id = "j"; handles = "traces" ∷ []; files = λ name. []; assets = [] }

post_all-lines_example :
    let (s', taken) = post_all (λ v. "{}") "traces" (dict stored ∷ dict changed ∷ []) open_sink in
    (taken ≡ true)
    × (s'.files "traces_j" ≡ "{}" ∷ "{}" ∷ [])
    × ((other : String) → str_eq "traces_j" other ≡ false → s'.files other ≡ [])
    × (s'.assets ≡ [])
unfolding get
post_all-lines_example =
    post_all-lines (λ v. "{}") "traces" (dict stored ∷ dict changed ∷ []) open_sink
      (refl, (refl, tt)) refl

get_connection_credentials-own_example :
    (row : Connection) × (get_connection "c1" "acme/ann" rows ≡ some row)
    × (is_own "c1" "acme/ann" row ≡ true)
    × ((k : String)
        → get k (entry "user" (text "ann") (entry "timestamp_column" (text "ts") done))
          ≡ (if is_secret k then none else get k (backend.decrypt row.credentials_enc)))
unfolding get_connection_credentials get_connection_or_404 get_connection without_secrets is_secret
get_connection_credentials-own_example =
    get_connection_credentials-own backend settings ann "c1" rows
      (entry "user" (text "ann") (entry "timestamp_column" (text "ts") done)) refl
