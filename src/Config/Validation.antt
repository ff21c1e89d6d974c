-- ===== src/Config/Validation.antt =====
-- The checks that `get_settings` of config.py makes of each datasink entry.
use databridge.Base.{
  ◌≡◌, Bool, true, false, not, ◌&&◌, ◌||◌, Option, none, some, List, [], ◌∷◌, String, str_eq,
  if◌then◌else◌, arith,
}
use databridge.Base.Lists.{any_of}
use databridge.Value.{Value, text, Entries, done, entry, get, truthy}

abbrev is_in : List String → String → Bool
is_in names s = any_of (λ n. str_eq s n) names

abbrev pub datasink_valid_keys : List String
datasink_valid_keys =
    "name" ∷ "type" ∷ "url" ∷ "path" ∷ "filename_template" ∷ "bucket" ∷ "region" ∷ "access_key_id"
    ∷ "secret_access_key" ∷ "endpoint" ∷ "key_prefix" ∷ "token_url" ∷ "client_id" ∷ "client_secret"
    ∷ "audience" ∷ "org_header" ∷ "dataset_access" ∷ []

abbrev service_types : List String
service_types = "dataset-mock" ∷ "annotator-mock" ∷ []

abbrev token_exchange_types : List String
token_exchange_types = "tagme-dataset" ∷ "tagme-annotator" ∷ []

abbrev local_types : List String
local_types = "local-zip" ∷ "local-jsonl" ∷ []

abbrev s3_types : List String
s3_types = "s3-jsonl" ∷ "s3-zip" ∷ []

-- `_validate_keys`: `true` where no key is unknown
unfoldable pub keys_valid : List String → Entries → Bool
keys_valid valid done = true
keys_valid valid (entry k v fs) = is_in valid k && keys_valid valid fs

abbrev truthy_at : Option Value → Bool
truthy_at none = false
truthy_at (some v) = truthy v

-- `sk.get(key)` as a condition
unfoldable pub has : String → Entries → Bool
has key sk = truthy_at (get key sk)

abbrev type_of : Option Value → String
type_of none = ""
type_of (some (text s)) = s
type_of (some _) = ""

-- `sk.get("type", "")`; a type that is no text is in none of the sets, as the empty text is not
unfoldable pub sink_type : Entries → String
sink_type sk = type_of (get "type" sk)

pub data ConfigError : Type 0 where
  unknown_key unknown_type url_required credentials_required path_required bucket_required :
      ConfigError

-- The first check that fails, in the order of the loop over `datasinks`.
unfoldable pub check_datasink : Entries → Option ConfigError
check_datasink sk =
    let type = sink_type sk in
    if not (keys_valid datasink_valid_keys sk)
    then some unknown_key
    else if not (
        is_in service_types type
        || is_in token_exchange_types type
        || is_in local_types type
        || is_in s3_types type)
    then some unknown_type
    else if is_in service_types type && not (has "url" sk)
    then some url_required
    else if is_in token_exchange_types type
        && not (has "url" sk && has "token_url" sk && has "client_id" sk && has "client_secret" sk)
    then some credentials_required
    else if is_in local_types type && not (has "path" sk)
    then some path_required
    else if is_in s3_types type && not (has "bucket" sk)
    then some bucket_required
    else none

pub data SinkClass : Type 0 where
  service token_exchange local s3 unknown : SinkClass

abbrev pub class_of : String → SinkClass
class_of type =
    if is_in service_types type
    then service
    else if is_in token_exchange_types type
    then token_exchange
    else if is_in local_types type
    then local
    else if is_in s3_types type
    then s3
    else unknown

-- What a sink of each class must have.
abbrev pub Complete : SinkClass → Entries → Type 0
Complete service sk = has "url" sk ≡ true
Complete token_exchange sk =
    (has "url" sk ≡ true)
    × (has "token_url" sk ≡ true)
    × (has "client_id" sk ≡ true)
    × (has "client_secret" sk ≡ true)
Complete local sk = has "path" sk ≡ true
Complete s3 sk = has "bucket" sk ≡ true
Complete unknown sk = ⊥

-- An entry that passes has known keys only and a known type, and what its type needs is there and
-- not empty.
pub check_datasink-Complete :
    (sk : Entries)
    → check_datasink sk ≡ none
    → (keys_valid datasink_valid_keys sk ≡ true) × Complete (class_of (sink_type sk)) sk
unfolding check_datasink
check_datasink-Complete sk h = ground arith
