-- ===== src/Asset.antt =====
-- export/asset.py: values at URL fields are fetched, stored in a sink, and replaced by references.
pub mod Fields
use Prim.Native.String.{◌++◌ as append}
use databridge.Base.{ℕ, none, some, List, [], ◌∷◌, String, leb, if◌then◌else◌}
use databridge.Base.Text.{rstrip_slash, split, is_empty}
use databridge.Value.{Value, Codec, text, dict, Entries, done, entry, get, put, truthy}
use databridge.Sink.{Try, returns, raises, Sink}

-- `httpx.AsyncClient.get`: a status and the content in hexadecimal, or a RequestError
pub record Http : Type 0 where
  pub get_url : String → Try (ℕ × String)

abbrev pub last_of : String → List String → String
last_of w [] = w
last_of w (v ∷ vs) = last_of v vs

-- `url.rstrip("/").rsplit("/", 1)[-1] or "asset"`
unfoldable pub asset_filename : String → String
asset_filename url =
    let (w, ws) = split b'/' (rstrip_slash url) in
    let name = last_of w ws in if is_empty name then "asset" else name

-- `str(raw_value)`
abbrev text_of : Codec → Value → String
text_of c (text s) = s
text_of c v = c.show v

abbrev pub entries_of : Value → Entries
entries_of (dict fs) = fs
entries_of v = done

module _ {S : Type 0} (http : Http) (c : Codec) (sink : Sink S) where
  -- `updated[field] = ref or filename`
  abbrev stored : Entries → String → String → S × Try String → S × Try Entries
  stored updated field filename (s, raises e) = (s, raises e)
  stored updated field filename (s, returns ref) =
      (s, returns (put field (text (if is_empty ref then filename else ref)) updated))

  -- The texts of the two exceptions, which the worker drops, are shortened.
  abbrev fetched : Entries → String → String → String → S → Try (ℕ × String) → S × Try Entries
  fetched updated field url dataset s (raises e) =
      (s, raises (append "Request error fetching " url))
  fetched updated field url dataset s (returns (status, content)) =
      if leb 400 status
      then (s, raises (append "HTTP error fetching " url))
      else stored updated field (asset_filename url) (
          sink.post_file dataset
            (dict (entry "data" (text content) (entry "source_url" (text url) done)))
            (some (asset_filename url)) s)

  -- One round of the loop over `url_fields`.
  unfoldable pub resolve_field : String → String → Entries → String → S → S × Try Entries
  resolve_field url_prefix dataset updated field s = elim (get field updated) [
    | none ↦ (s, returns updated)
    | some raw ↦
        if truthy raw
        then (let url =
              if is_empty url_prefix then text_of c raw else append url_prefix (text_of c raw) in
            fetched updated field url dataset s (http.get_url url))
        else (s, returns updated)
  ]

  -- `resolve_assets`, on the entries of the record
  unfoldable pub resolve_assets : String → String → List String → Entries → S → S × Try Entries
  resolve_assets url_prefix dataset [] updated s = (s, returns updated)
  resolve_assets url_prefix dataset (field ∷ fields) updated s =
      let (s', outcome) = resolve_field url_prefix dataset updated field s in
      elim outcome [
        | raises e ↦ (s', raises e)
        | returns updated' ↦ resolve_assets url_prefix dataset fields updated' s'
      ]
