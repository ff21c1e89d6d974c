-- ===== src/Sink/LocalJsonl.antt =====
-- sinks/local_jsonl.py: the sink that writes each record as a line of a local file. The file system
-- does not fail, and `json.dumps(record)` is a parameter, which accepts all JSON values.
pub mod Lines
pub mod Records
use Prim.Native.Char.{Char, code}
use Prim.Native.String
use Prim.Native.String.{◌++◌ as append}
use databridge.Base.{
  ℕ, Bool, true, false, ◌&&◌, ◌||◌, Option, none, some, List, [], ◌∷◌, ◌++◌, String, str_eq, leb,
  ◌==◌, or_else, if◌then◌else◌,
}
use databridge.Base.Lists.{any_of}
use databridge.Base.Text.{is_empty}
use databridge.Value.{Value, null, boolean, number, text, list, dict, Entries, get}
use databridge.Sink.{Try, returns, raises}

-- The open handles by dataset, the lines of each file by its name, and the assets by their path below
-- the sink's directory, with the hexadecimal text of their content.
pub record LocalJsonl : Type 0 where
  pub job_id : String
  pub handles : List String
  pub files : String → List String
  pub assets : List (String × String)

abbrev is_hex_digit : ℕ → Bool
is_hex_digit c = (leb 48 c && leb c 57) || ((leb 65 c && leb c 70) || (leb 97 c && leb c 102))

abbrev is_blank_code : ℕ → Bool
is_blank_code c = (c == 32) || (leb 9 c && leb c 13)

-- `bytes.fromhex(raw)` returns; the flag says whether a first digit waits for its second.
unfoldable pub is_hex : Bool → String → Bool
is_hex false String.[] = true
is_hex true String.[] = false
is_hex false (String.◌∷◌ c s) =
    (is_blank_code (code c) && is_hex false s) || (is_hex_digit (code c) && is_hex true s)
is_hex true (String.◌∷◌ c s) = is_hex_digit (code c) && is_hex false s

-- `f"{name}{suffix}"`
abbrev pub suffixed : String → String → String
suffixed job_id name = if is_empty job_id then name else append name (append "_" job_id)

abbrev set_file : (String → List String) → String → List String → String → List String
set_file files name lines other = if str_eq name other then lines else files other

abbrev pub is_open : LocalJsonl → String → Bool
is_open s dataset = any_of (λ d. str_eq d dataset) s.handles

-- `create_dataset`: the file is emptied
unfoldable pub create_dataset : String → LocalJsonl → LocalJsonl
create_dataset name s = record s {
  handles = name ∷ s.handles;
  files = set_file s.files (suffixed s.job_id name) [];
}

abbrev pub opened : Bool → String → LocalJsonl → LocalJsonl
opened true dataset s = s
opened false dataset s = create_dataset dataset s

abbrev pub write_line : String → String → LocalJsonl → LocalJsonl
write_line dataset line s =
    let name = suffixed s.job_id dataset in
    record s { files = set_file s.files name (s.files name ++ line ∷ []) }

abbrev write_asset : String → Option String → String → Bool → LocalJsonl → LocalJsonl × Try String
write_asset dataset filename raw false s =
    (s, raises "non-hexadecimal number found in fromhex() arg")
write_asset dataset filename raw true s =
    let given = or_else filename "" in
    let fname = if is_empty given then "asset" else given in
    let path = append (suffixed s.job_id dataset) (append "/" fname) in
    (record s { assets = (path, raw) ∷ s.assets }, returns path)

module _ (dumps : Value → String) where
  abbrev pub post_data :
      String → Entries → Option String → Option Value → LocalJsonl → LocalJsonl × Try String
  post_data dataset fs filename (some (text raw)) s =
      write_asset dataset filename raw (is_hex false raw) s
  post_data dataset fs filename raw s =
      (write_line dataset (dumps (dict fs)) (opened (is_open s dataset) dataset s), returns "")

  -- `post_file`; a record that is no dict has no `get`
  unfoldable pub post_file : String → Value → Option String → LocalJsonl → LocalJsonl × Try String
  post_file dataset (dict fs) filename s = post_data dataset fs filename (get "data" fs) s
  post_file dataset v filename s = (s, raises "object has no attribute 'get'")

  -- `finalise`
  unfoldable pub finalise : LocalJsonl → LocalJsonl
  finalise s = record s { handles = [] }

  abbrev post_next : LocalJsonl × Try String → (LocalJsonl → LocalJsonl × Bool) → LocalJsonl × Bool
  post_next (s, raises e) k = (s, false)
  post_next (s, returns ref) k = k s

  -- Records that are posted one after the other to a dataset, and whether all calls return.
  unfoldable pub post_all : String → List Value → LocalJsonl → LocalJsonl × Bool
  post_all dataset [] s = (s, true)
  post_all dataset (v ∷ vs) s = post_next (post_file dataset v none s) (post_all dataset vs)
