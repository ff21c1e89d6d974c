-- ===== src/Asset/Fields.antt =====
-- export/asset.py: which fields of a source look like URLs of assets. Case is that of ASCII.
use databridge.Base.{
  Bool, false, ◌||◌, Option, none, some, List, [], ◌∷◌, String, str_eq, is_some, if◌then◌else◌,
}
use databridge.Base.Lists.{any_of}
use databridge.Base.Text.{split, lower_all, after_prefix}
use databridge.Value.{Value, text, Entries, get, truthy}
use databridge.Adapters.Schema.{SchemaField, SchemaFields}
use databridge.Asset.{last_of}

-- `_URL_FIELD_NAMES`
abbrev url_field_names : List String
url_field_names =
    "url" ∷ "file_url" ∷ "image_url" ∷ "asset_url" ∷ "media_url" ∷ "thumbnail_url" ∷ "download_url"
    ∷ []

-- `_URL_RE`: `^https?://`, in any case
abbrev pub is_url : String → Bool
is_url s =
    is_some (after_prefix "http://" (lower_all s))
    || is_some (after_prefix "https://" (lower_all s))

-- `field_path.rsplit(".", 1)[-1]`
abbrev leaf_of : String → String
leaf_of path = let (w, ws) = split b'.' path in last_of w ws

-- `v and isinstance(v, str) and _URL_RE.match(v)`
abbrev is_url_value : Option Value → Bool
is_url_value (some (text s)) = is_url s
is_url_value _ = false

abbrev first_truthy : Option Value → Option Value → Option Value
first_truthy (some v) other = if truthy v then some v else other
first_truthy none other = other

-- `record.get(field_path) or record.get(leaf)`
abbrev sample_value : String → Entries → Option Value
sample_value path rec = first_truthy (get path rec) (get (leaf_of path) rec)

abbrev looks_like_url : String → SchemaField → List Entries → Bool
looks_like_url path info records =
    any_of (str_eq (lower_all (leaf_of path))) url_field_names
    || (is_url_value (some info.example)
        || any_of (λ rec. is_url_value (sample_value path rec)) records)

-- `detect_asset_url_fields`
unfoldable pub detect_asset_url_fields : SchemaFields → List Entries → List String
detect_asset_url_fields [] records = []
detect_asset_url_fields ((path, info) ∷ schema) records =
    let rest = detect_asset_url_fields schema records in
    if looks_like_url path info records then path ∷ rest else rest
