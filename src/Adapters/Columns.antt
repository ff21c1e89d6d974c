-- ===== src/Adapters/Columns.antt =====
-- adapters.py: the column names that are put into statements (`_safe_ident` and the functions that
-- call it).
use Prim.Native.Char.{Char, code}
use databridge.Base.{
  ◌≡◌, ◌≤◌, ◌⊎◌, inl, inr, Bool, true, false, ◌&&◌, ◌||◌, Option, none, some, String, ◌==◌, leb,
  arith, str_eq, or_else, if◌then◌else◌, Bool-cases,
}
use databridge.Base.Text.{is_digit, AllChars}
use databridge.Value.{Value, text, Entries, get}

-- `[A-Za-z_]`
abbrev is_head : Char → Bool
is_head c =
    (leb b'A' (code c) && leb (code c) b'Z')
    || (leb b'a' (code c) && leb (code c) b'z')
    || code c == b'_'

-- `[A-Za-z0-9_]*`
abbrev all_ident : String → Bool
all_ident String.[] = true
all_ident (String.◌∷◌ c s) = (is_head c || is_digit c) && all_ident s

-- `_IDENT_RE.fullmatch(s)`
unfoldable pub is_ident : String → Bool
is_ident String.[] = false
is_ident (String.◌∷◌ c s) = is_head c && all_ident s

-- `_safe_ident`
unfoldable pub safe_ident : Value → String → String
safe_ident (text raw) default = if is_ident raw then raw else default
safe_ident _ default = default

-- `_safe_ts_col`
unfoldable pub ts_of : Value → String
ts_of (text raw) = if str_eq raw "" then "" else safe_ident (text raw) "timestamp"
ts_of raw = safe_ident raw "timestamp"

unfoldable pub safe_ts_col : Entries → String
safe_ts_col creds = ts_of (or_else (get "timestamp_column" creds) (text "timestamp"))

-- `_safe_search_col`
unfoldable pub safe_search_col : Entries → String
safe_search_col creds = safe_ident (or_else (get "search_column" creds) (text "message")) "message"

-- `_safe_sort_col`
unfoldable pub safe_sort_col : Option String → String → String
safe_sort_col none ts_col = ts_col
safe_sort_col (some sort_by) ts_col =
    if str_eq sort_by "" then ts_col else safe_ident (text sort_by) ts_col

-- A character that can neither end a name nor a literal: a letter, a digit or an underscore.
abbrev IsNameChar : Char → Type 0
IsNameChar c =
    ((b'A' ≤ code c) × (code c ≤ b'Z'))
    ⊎ (((b'a' ≤ code c) × (code c ≤ b'z'))
        ⊎ (((b'0' ≤ code c) × (code c ≤ b'9')) ⊎ (code c ≡ b'_')))

abbrev is_name_char : Char → Bool
is_name_char c = is_head c || is_digit c

name_char : (c : Char) → is_name_char c ≡ true → IsNameChar c
name_char c h = ground arith

all_ident-AllChars : (s : String) → all_ident s ≡ true → AllChars IsNameChar s
all_ident-AllChars String.[] h = tt
all_ident-AllChars (String.◌∷◌ c s) h = elim (Bool-cases (is_name_char c)) [
  | inl e ↦ (name_char c e, all_ident-AllChars s (rw e at h))
  | inr e ↦ absurd (ground arith)
]
