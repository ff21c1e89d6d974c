-- ===== src/Extraction.antt =====
-- export/extraction.py: a value found at a dotted path, through texts that hold JSON.
pub mod Laws
use databridge.Base.{
  ℕ, ◌≡◌, Bool, true, false, ◌&&◌, Option, none, some, List, [], ◌∷◌, String, ltb, is_some,
  then_option, if◌then◌else◌,
}
use databridge.Base.Text.{is_digits, int_of, split}
use databridge.Value.{
  Value, Codec, null, boolean, number, text, list, dict, Items, Entries, count, item_at, get,
  is_structured,
}

-- A resolved list index, or the key as it was given.
pub data Loc : Type 0 where
  at_index : ℕ → Loc
  at_key : String → Loc

-- `json.loads` of a text node; any other node is itself
unfoldable pub decode : Codec → Value → Option Value
decode c (text s) = c.loads s
decode c v = some v

-- Where the key stands in a node that is decoded.
unfoldable pub locate : Value → String → Option Loc
locate (list xs) key =
    if is_digits key && ltb (int_of key) (count xs) then some (at_index (int_of key)) else none
locate (dict fs) key = if is_some (get key fs) then some (at_key key) else none
locate v key = none

unfoldable pub decoded_and_located : Value → String → Option Value → Value × Loc × Bool
decoded_and_located node key none = (node, at_key key, false)
decoded_and_located node key (some d) = elim (locate d key) [
  | none ↦ (d, at_key key, false)
  | some l ↦ (d, l, true)
]

-- `_decode_and_index`: the decoded node, the index or key, and whether it was found
unfoldable pub decode_and_index : Codec → Value → String → Value × Loc × Bool
unfolding decoded_and_located
decode_and_index c node key = decoded_and_located node key (decode c node)

-- `node[idx_or_key]`
unfoldable pub child : Value → Loc → Option Value
child (list xs) (at_index i) = item_at i xs
child (dict fs) (at_key k) = get k fs
child v l = none

unfoldable pub found_child : Value × Loc × Bool → Option Value
found_child (d, l, true) = child d l
found_child (d, l, false) = none

-- `resolve_field_path`; `none` is `_MISSING`
unfoldable pub resolve_field_path : Codec → Value → List String → Option Value
resolve_field_path c node [] = some node
resolve_field_path c node (key ∷ rest) =
    then_option (found_child (decode_and_index c node key)) (λ v. resolve_field_path c v rest)

abbrev structured_or_none : Value → Option Value
structured_or_none v = if is_structured v then some v else none

abbrev pub usable : Codec → Value → Option Value
usable c (text s) = elim (c.loads s) [ none ↦ none | some v ↦ structured_or_none v ]
usable c v = structured_or_none v

-- `extract_field_value`
unfoldable pub extract_field_value : Codec → Value → String → Option Value
extract_field_value c record_ field_path =
    let (key, rest) = split b'.' field_path in
    then_option (resolve_field_path c record_ (key ∷ rest)) (usable c)
