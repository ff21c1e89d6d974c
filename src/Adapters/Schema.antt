-- ===== src/Adapters/Schema.antt =====
-- adapters.py: the schema of records, `_py_type`, `_infer_schema` and `_infer_schema_nested`.
pub mod First
use Prim.Native.Char.{Char, code}
use databridge.Base.{
  ℕ, zero, suc, ◌+◌, Bool, true, false, not, ◌&&◌, ◌||◌, Option, none, some, List, [], ◌∷◌, ◌++◌,
  String, str_eq, is_some, ◌==◌, if◌then◌else◌,
}
use databridge.Base.Text.{is_digits, is_empty, is_space, concat}
use databridge.Value.{
  Value, Codec, Items, Entries, null, boolean, number, text, list, dict, done, entry, is_structured,
}

-- The texts of ints are those without a point, an exponent or a word.
abbrev is_int_text : String → Bool
is_int_text String.[] = false
is_int_text (String.◌∷◌ c s) = if code c == b'-' then is_digits s else is_digits (String.◌∷◌ c s)

-- `_py_type`
unfoldable pub py_type : Value → String
unfolding is_digits
py_type null = "string"
py_type (boolean b) = "bool"
py_type (number t) = if is_int_text t then "int" else "float"
py_type (text s) = "string"
py_type (list xs) = "list"
py_type (dict fs) = "object"

pub record SchemaField : Type 0 where
  pub type : String
  pub example : Value

unfoldable pub field_of : Value → SchemaField
field_of v = record { type = py_type v; example = if is_structured v then null else v }

-- A dict of fields, in the order in which they were found.
abbrev pub SchemaFields : Type 0
SchemaFields = List (String × SchemaField)

unfoldable pub field_at : String → SchemaFields → Option SchemaField
field_at k [] = none
field_at k ((j, f) ∷ schema) = let rest = field_at k schema in if str_eq j k then some f else rest

-- `str(k).startswith("_")`
abbrev pub is_hidden : String → Bool
is_hidden String.[] = false
is_hidden (String.◌∷◌ c s) = code c == b'_'

-- `if k not in schema: schema[k] = …`
abbrev add_field : String → Value → SchemaFields → SchemaFields
add_field k v schema =
    if is_some (field_at k schema) then schema else schema ++ (k, field_of v) ∷ []

abbrev pub add_visible : String → Value → SchemaFields → SchemaFields
add_visible k v schema = if is_hidden k then schema else add_field k v schema

unfoldable pub add_entries : Entries → SchemaFields → SchemaFields
add_entries done schema = schema
add_entries (entry k v fs) schema = add_entries fs (add_visible k v schema)

abbrev pub add_record : Value → SchemaFields → SchemaFields
add_record (dict fs) schema = add_entries fs schema
add_record v schema = schema

unfoldable pub infer_from : SchemaFields → List Value → SchemaFields
infer_from schema [] = schema
infer_from schema (v ∷ vs) = infer_from (add_record v schema) vs

-- `_infer_schema`
unfoldable pub infer_schema : List Value → SchemaFields
infer_schema records = infer_from [] records

abbrev looks_structured : String → Bool
looks_structured String.[] = false
looks_structured (String.◌∷◌ c s) =
    let rest = looks_structured s in if is_space c then rest else code c == b'{' || code c == b'['

abbrev decoded : Option Value → Value → Value
decoded none v = v
decoded (some w) v = w

-- A text that looks like JSON is replaced by what it decodes to.
abbrev decode_text : Codec → Value → Value
decode_text c (text s) = if looks_structured s then decoded (c.loads s) (text s) else text s
decode_text c v = v

abbrev rstrip_dots_onto : Char → String → String
rstrip_dots_onto c s = if code c == b'.' && is_empty s then "" else String.◌∷◌ c s

-- `prefix.rstrip(".")`
abbrev rstrip_dots : String → String
rstrip_dots String.[] = ""
rstrip_dots (String.◌∷◌ c s) = rstrip_dots_onto c (rstrip_dots s)

abbrev add_path : String → Value → SchemaFields → SchemaFields
add_path path v schema = if is_empty path then schema else add_field path v schema

-- The entries of a dict, each walked by `walk` under its key.
abbrev walk_entries :
    (Value → String → SchemaFields → SchemaFields) → String → Entries → SchemaFields → SchemaFields
walk_entries walk prefix done schema = schema
walk_entries walk prefix (entry k v fs) schema =
    walk_entries walk prefix fs
      (if is_hidden k then schema else walk v (concat prefix (concat k ".")) schema)

-- `_walk`, where the first argument is how many levels are left of the four from depth 0 to 3
unfoldable pub walk : Codec → ℕ → Value → String → SchemaFields → SchemaFields
walk c zero v prefix schema = schema
walk c (suc levels) v prefix schema = elim (decode_text c v) [
  | dict fs ↦ walk_entries (walk c levels) prefix fs schema
  | w ↦ add_path (rstrip_dots prefix) w schema
]

-- `_infer_schema_nested`
unfoldable pub infer_nested_from : Codec → SchemaFields → List Value → SchemaFields
infer_nested_from c schema [] = schema
infer_nested_from c schema (v ∷ vs) = infer_nested_from c (walk c 4 v "" schema) vs

unfoldable pub infer_schema_nested : Codec → List Value → SchemaFields
infer_schema_nested c records = infer_nested_from c [] records
