-- ===== src/Routes/Connections/Trials.antt =====
-- routes/connections.py: the fields of a source that look personal, and the tests of credentials, of
-- URL fields and of field extraction, on a source that is resolved.
pub mod Bound
use Prim.Native.Char.{Char, code}
use databridge.Base.{
  ℕ, zero, suc, ◌+◌, Bool, true, false, not, ◌&&◌, ◌||◌, Option, none, some, List, [], ◌∷◌, ◌++◌,
  map, String, str_eq, ltb, leb, is_some, ◌==◌, if◌then◌else◌,
}
use databridge.Base.Lists.{any_of, find_first, length, keep_if, take}
use databridge.Base.Text.{first_chars, lower_all, is_empty, concat, lower, after_prefix}
use databridge.Value.{Value, Codec, text, dict, Entries, get}
use databridge.Extraction.{extract_field_value}
use databridge.Asset.Fields.{is_url}
use databridge.Jobs.{Instant}
use databridge.Config.{SystemSourceConfig, Settings}
use databridge.Sink.{Try, returns, raises}
use databridge.Routes.{HttpResult, ok, raise, AuthContext}
use databridge.Connections.{Connection, ConnectionTable, get_connection}
use databridge.Adapters.Schema.{SchemaFields, infer_schema}
use databridge.Routes.Connections.Explore.{Reply, answers, fails, not_implemented, Source}

-- `pattern in s`
abbrev occurs : String → String → Bool
occurs p String.[] = is_empty p
occurs p (String.◌∷◌ c s) = is_some (after_prefix p (String.◌∷◌ c s)) || occurs p s

-- `_PII_NAME_PATTERNS` of export/masking.py
abbrev pii_name_patterns : List String
pii_name_patterns =
    "email" ∷ "phone" ∷ "ssn" ∷ "password" ∷ "ip" ∷ "user_id" ∷ "token" ∷ "secret" ∷ "card" ∷ []

abbrev is_candidate : String → Bool
is_candidate name = any_of (λ p. occurs p (lower_all name)) pii_name_patterns

abbrev names_of : SchemaFields → List String
names_of [] = []
names_of ((name, f) ∷ fields) = name ∷ names_of fields

-- `pii_candidate_fields` of export/masking.py
unfoldable pub pii_candidate_fields : SchemaFields → List String
unfolding lower
pii_candidate_fields fields = keep_if is_candidate (names_of fields)

abbrev fields_or_none : Reply (SchemaFields × ℕ) → SchemaFields
fields_or_none (answers (fields, n)) = fields
fields_or_none r = []

-- `POST /connections/{id}/pii-fields`, on the adapter that is resolved
unfoldable pub pii_fields : Source → HttpResult (List String)
pii_fields source = ok (pii_candidate_fields (fields_or_none (source.schema none none true)))

-- `POST /connections/test`: whether the source is reachable, and whether its schema can be read
abbrev reached : Source → Reply (Unit {0}) → Bool × Option Bool
reached source (answers u) =
    (true, some (elim (source.schema none none false) [ answers r ↦ true | _ ↦ false ]))
reached source _ = (false, none)

unfoldable pub test_connection : Source → Bool × Option Bool
test_connection source = reached source source.ping

-- A record's result: that it does not resolve, or the first 500 characters of the value's JSON.
abbrev extraction_result : (Value → String) → Option Value → Option String
extraction_result dumps none = none
extraction_result dumps (some v) = some (first_chars 500 (dumps v))

abbrev extraction_results :
    Codec → (Value → String) → String → Reply (List Value) → HttpResult (List (Option String))
extraction_results c dumps path (answers records) =
    ok (map (λ v. extraction_result dumps (extract_field_value c v path)) records)
extraction_results c dumps path _ = raise 502

-- `POST /connections/{id}/test-field-extraction`; `dumps` is `json.dumps(value)`, which escapes the
-- characters beyond ASCII
unfoldable pub test_field_extraction :
    Codec → (Value → String) → String → Source → HttpResult (List (Option String))
test_field_extraction c dumps path source =
    extraction_results c dumps path (source.preview "" none none 5 none)

abbrev url_at : String → Value → Option String
url_at field (dict fs) = elim (get field fs) [
  | some (text s) ↦ if is_url s then some s else none
  | _ ↦ none
]
url_at field v = none

abbrev with_url :
    String
    → Option String
    → List (String × String)
    → List (String × String)
    → List (String × String)
with_url field none rest fewer = rest
with_url field (some url) rest fewer = (field, url) ∷ fewer

-- The first two of a field's URLs.
abbrev urls_of : ℕ → String → List Value → List (String × String)
urls_of zero field vs = []
urls_of (suc n) field [] = []
urls_of (suc n) field (v ∷ vs) =
    let rest = urls_of (suc n) field vs in
    let fewer = urls_of n field vs in with_url field (url_at field v) rest fewer

unfoldable pub url_samples : List String → List Value → List (String × String)
unfolding lower
url_samples [] records = []
url_samples (field ∷ fields) records = urls_of 2 field records ++ url_samples fields records

-- The field, the value, the URL that is asked for, and the status code or the error.
pub record UrlTest : Type 0 where
  pub field : String
  pub raw_value : String
  pub resolved_url : String
  pub answer : Try ℕ
  pub succeeded : Bool

abbrev succeeds : Try ℕ → Bool
succeeds (returns status) = ltb status 400
succeeds (raises e) = false

abbrev test_url : (String → Try ℕ) → String → String × String → UrlTest
test_url head url_prefix (field, raw) = record {
  field = field;
  raw_value = raw;
  resolved_url = concat url_prefix raw;
  answer = head (concat url_prefix raw);
  succeeded = succeeds (head (concat url_prefix raw));
}

abbrev asset_results :
    (String → Try ℕ) → List String → String → Reply (List Value) → HttpResult (List UrlTest)
asset_results head fields url_prefix (answers records) =
    ok (map (test_url head url_prefix) (url_samples fields records))
asset_results head fields url_prefix _ = raise 502

-- `POST /connections/{id}/test-asset-resolution`; `head` is `httpx.AsyncClient.head`, the status
-- code or a RequestError
unfoldable pub test_asset_resolution :
    (String → Try ℕ) → List String → String → Source → HttpResult (List UrlTest)
test_asset_resolution head fields url_prefix source =
    asset_results head fields url_prefix (source.preview "" none none 5 none)
