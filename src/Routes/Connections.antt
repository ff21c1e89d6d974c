-- ===== src/Routes/Connections.antt =====
-- routes/connections.py and routes/deps.py: the requests on stored connections. Encryption and the
-- adapters that are pinged are parameters.
pub mod Access
pub mod Credentials
pub mod Explore
pub mod Trials
use Prim.Native.Char.{Char, code}
use Prim.Native.String
use databridge.Base.{
  ℕ, ◌+◌, Bool, true, false, not, ◌&&◌, ◌||◌, Option, none, some, List, [], ◌∷◌, ◌++◌, map, String,
  str_eq, is_some, ltb, leb, ◌==◌, if◌then◌else◌,
}
use databridge.Base.Lists.{any_of, find_first, length, keep_if}
use databridge.Base.Text.{is_empty}
use databridge.Value.{Value, null, text, Entries, done, entry, put}
use databridge.Jobs.{Instant}
use databridge.Config.{SystemSourceConfig, Settings}
use databridge.Sink.{Try, returns, raises}
use databridge.Routes.{HttpResult, ok, raise, AuthContext}
use databridge.Connections.{
  Connection, ConnectionTable, insert_connection, get_connection, list_connections,
  update_connection, delete_connection, update_connection_status,
}

-- `encrypt_credentials` and `decrypt_credentials` of crypto.py, and `get_adapter(…).ping()`
pub record Backend : Type 0 where
  pub encrypt : Entries → String
  pub decrypt : String → Entries
  pub ping : Connection → Entries → Try (Unit {0})
  pub ping_source : SystemSourceConfig → Try (Unit {0})
  -- `str(uuid5(NAMESPACE_DNS, name))`
  pub source_id : String → String

pub record ConnectionCreate : Type 0 where
  pub label : String
  pub type : String
  pub role : String
  pub connection_url : String
  pub credentials : Entries

pub record ConnectionPatch : Type 0 where
  pub label : Option String
  pub credentials : Option Entries

pub record ConnectionResponse : Type 0 where
  pub id : String
  pub label : String
  pub type : String
  pub role : String
  pub connection_url : String
  pub status : String
  pub system : Bool
  pub last_tested_at : Option Instant
  pub created_at : Option Instant
  pub updated_at : Option Instant

-- `_row_to_response`
unfoldable pub row_to_response : Connection → ConnectionResponse
row_to_response row = record {
  id = row.id;
  label = row.label;
  type = row.type;
  role = row.role;
  connection_url = row.connection_url;
  status = row.status;
  system = false;
  last_tested_at = row.last_tested_at;
  created_at = some row.created_at;
  updated_at = some row.updated_at;
}

-- A letter in lower case, as `re.IGNORECASE` compares the letters of the words below: two letters
-- outside ASCII fold to `s` and `k`.
abbrev folded : ℕ → ℕ
folded c =
    if leb 65 c && leb c 90
    then c + 32
    else if c == 0x17f
    then b's'
    else if c == 0x212a
    then b'k'
    else c

abbrev starts_with : String → String → Bool
starts_with String.[] s = true
starts_with (String.◌∷◌ c w) String.[] = false
starts_with (String.◌∷◌ c w) (String.◌∷◌ d s) = (code c == folded (code d)) && starts_with w s

abbrev contains : String → String → Bool
contains w String.[] = is_empty w
contains w (String.◌∷◌ c s) = starts_with w (String.◌∷◌ c s) || contains w s

-- `_SECRET_KEYS.search(k)`
unfoldable pub is_secret : String → Bool
is_secret k =
    contains "password" k || (contains "secret" k || (contains "token" k || contains "key" k))

unfoldable pub without_secrets : Entries → Entries
without_secrets done = done
without_secrets (entry k v fs) =
    let rest = without_secrets fs in if is_secret k then rest else entry k v rest

-- What a patch leaves as it was: a value that is None, or empty unless the key may be cleared.
abbrev pub is_kept : String → Value → Bool
is_kept k null = true
is_kept k (text s) = is_empty s && not (str_eq k "timestamp_column")
is_kept k v = false

abbrev pub put_unless : Bool → String → Value → Entries → Entries
put_unless true k v merged = merged
put_unless false k v merged = put k v merged

-- `for k, v in incoming.items()`
unfoldable pub merge_credentials : Entries → Entries → Entries
merge_credentials merged done = merged
merge_credentials merged (entry k v incoming) =
    merge_credentials (put_unless (is_kept k v) k v merged) incoming

module _ (backend : Backend) (settings : Settings) where
  -- `_system_source_to_response`
  unfoldable pub system_source_to_response : SystemSourceConfig → ConnectionResponse
  system_source_to_response src = record {
    id = backend.source_id src.name;
    label = src.name;
    type = src.type;
    role = "source";
    connection_url = if is_empty src.url then src.endpoint else src.url;
    status = "untested";
    system = true;
    last_tested_at = none;
    created_at = none;
    updated_at = none;
  }

  -- `POST /connections`; `id` is what the database gives
  unfoldable pub create_connection :
      ConnectionCreate
      → AuthContext
      → String
      → Instant
      → ConnectionTable
      → ConnectionTable × ConnectionResponse
  create_connection body auth id now rows =
      let (rows', row) =
        insert_connection auth.public_key body.label body.type body.role body.connection_url
          (backend.encrypt body.credentials) id now rows in
      (rows', row_to_response row)

  -- `GET /connections`
  unfoldable pub list_user_connections : AuthContext → ConnectionTable → List ConnectionResponse
  list_user_connections auth rows =
      map row_to_response (list_connections auth.public_key rows)
      ++ map system_source_to_response settings.datasources

  abbrev or_404 : Option Connection → HttpResult Connection
  or_404 none = raise 404
  or_404 (some row) = ok row

  unfoldable pub get_connection_or_404 :
      String → AuthContext → ConnectionTable → HttpResult Connection
  get_connection_or_404 id auth rows = or_404 (get_connection id auth.public_key rows)

  abbrev shown_credentials : HttpResult Connection → HttpResult Entries
  shown_credentials (raise status) = raise status
  shown_credentials (ok row) = ok (without_secrets (backend.decrypt row.credentials_enc))

  -- `GET /connections/{id}/credentials`
  unfoldable pub get_connection_credentials :
      String → AuthContext → ConnectionTable → HttpResult Entries
  get_connection_credentials id auth rows = shown_credentials (get_connection_or_404 id auth rows)

  unfoldable pub is_system_source : String → Bool
  is_system_source id = any_of (λ s. str_eq (backend.source_id s.name) id) settings.datasources

  abbrev answer_row :
      ConnectionTable × Option Connection → ConnectionTable × HttpResult ConnectionResponse
  answer_row (rows, none) = (rows, raise 404)
  answer_row (rows, some row) = (rows, ok (row_to_response row))

  abbrev patch_found :
      String
      → Option String
      → Entries
      → AuthContext
      → Instant
      → ConnectionTable
      → Option Connection
      → ConnectionTable × HttpResult ConnectionResponse
  patch_found id label incoming auth now rows none = (rows, raise 404)
  patch_found id label incoming auth now rows (some row) = answer_row (
      update_connection id auth.public_key label
        (some (backend.encrypt (merge_credentials (backend.decrypt row.credentials_enc) incoming)))
        now rows)

  abbrev patch_with :
      String
      → Option String
      → Option Entries
      → AuthContext
      → Instant
      → ConnectionTable
      → ConnectionTable × HttpResult ConnectionResponse
  patch_with id label none auth now rows =
      answer_row (update_connection id auth.public_key label none now rows)
  patch_with id label (some incoming) auth now rows =
      patch_found id label incoming auth now rows (get_connection id auth.public_key rows)

  -- `PATCH /connections/{id}`
  unfoldable pub patch_connection :
      String
      → ConnectionPatch
      → AuthContext
      → Instant
      → ConnectionTable
      → ConnectionTable × HttpResult ConnectionResponse
  patch_connection id body auth now rows =
      if is_system_source id
      then (rows, raise 404)
      else patch_with id body.label body.credentials auth now rows

  abbrev remove_found :
      String
      → AuthContext
      → List String
      → ConnectionTable
      → Option Connection
      → ConnectionTable × HttpResult (Unit {0})
  remove_found id auth sync_jobs rows none = (rows, raise 404)
  remove_found id auth sync_jobs rows (some row) =
      if ltb 0 (length (keep_if (λ c. str_eq c id) sync_jobs))
      then (rows, raise 409)
      else (delete_connection id auth.public_key rows, ok tt)

  -- `DELETE /connections/{id}`; `sync_jobs` has the connection id of each row of that table
  unfoldable pub remove_connection :
      String → AuthContext → List String → ConnectionTable → ConnectionTable × HttpResult (Unit {0})
  remove_connection id auth sync_jobs rows =
      if is_system_source id
      then (rows, raise 404)
      else remove_found id auth sync_jobs rows (get_connection id auth.public_key rows)

  -- The status and the error that a ping answers; its latency is left out.
  abbrev ping_answer : Try (Unit {0}) → String × Option String
  ping_answer (returns u) = ("reachable", none)
  ping_answer (raises e) = ("unreachable", some e)

  abbrev ping_found :
      String
      → Instant
      → ConnectionTable
      → Option Connection
      → ConnectionTable × HttpResult (String × Option String)
  ping_found id now rows none = (rows, raise 404)
  ping_found id now rows (some row) =
      let answer = ping_answer (backend.ping row (backend.decrypt row.credentials_enc)) in
      (update_connection_status id answer.0 now rows, ok answer)

  abbrev ping_source_or :
      Option SystemSourceConfig
      → ConnectionTable
      → ConnectionTable × HttpResult (String × Option String)
      → ConnectionTable × HttpResult (String × Option String)
  ping_source_or none rows other = other
  ping_source_or (some src) rows other = (rows, ok (ping_answer (backend.ping_source src)))

  -- `POST /connections/{id}/ping`
  unfoldable pub ping_connection :
      String
      → AuthContext
      → Instant
      → ConnectionTable
      → ConnectionTable × HttpResult (String × Option String)
  ping_connection id auth now rows =
      ping_source_or (find_first (λ s. str_eq (backend.source_id s.name) id) settings.datasources)
        rows (ping_found id now rows (get_connection id auth.public_key rows))
