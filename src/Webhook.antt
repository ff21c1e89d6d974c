-- ===== src/Webhook.antt =====
-- export/webhook.py and security.py: the payload that is rendered from a template, and the headers
-- without their secrets. The letters of `\w` and of `lower` are those of ASCII.
pub mod Templates
use Prim.Native.Char.{Char, code}
use databridge.Base.{
  ℕ, zero, suc, ◌+◌, Bool, true, false, Option, none, some, List, [], ◌∷◌, map, String, str_eq, leb,
  or_else, if◌then◌else◌,
}
use databridge.Base.Lists.{any_of}
use databridge.Base.Text.{is_empty, is_word, lower_all, first_chars, concat, after_prefix}
use databridge.Value.{Value, Codec, text, dict, Entries, get}

-- The longest word that a text begins with, and what follows it.
unfoldable pub word_of : String → String × String
word_of String.[] = ("", "")
word_of (String.◌∷◌ c s) =
    let (w, rest) = word_of s in if is_word c then (String.◌∷◌ c w, rest) else ("", String.◌∷◌ c s)

abbrev pub closed : String × String → Option String
closed (w, rest) = elim (after_prefix "}}" rest) [
  | none ↦ none
  | some s ↦ if is_empty w then none else some w
]

abbrev pub opened : Option String → Option String
opened none = none
opened (some s) = closed (word_of s)

-- `_PLACEHOLDER`: the name of the placeholder that a text begins with
unfoldable pub placeholder : String → Option String
placeholder s = opened (after_prefix "{{" s)

abbrev pub size : String → ℕ
size String.[] = 0
size (String.◌∷◌ c s) = suc (size s)

-- `_PLACEHOLDER.sub(…, template)`; the number counts the characters that a match has taken
unfoldable pub substitute : (String → String) → ℕ → String → String
substitute f k String.[] = ""
substitute f (suc k) (String.◌∷◌ c s) = substitute f k s
substitute f zero (String.◌∷◌ c s) = elim (placeholder (String.◌∷◌ c s)) [
  | none ↦ String.◌∷◌ c (substitute f zero s)
  | some name ↦ concat (f name) (substitute f (size name + 3) s)
]

-- `str(context.get(name, ""))`
abbrev pub value_text : Codec → Option Value → String
value_text c none = ""
value_text c (some (text s)) = s
value_text c (some v) = c.show v

unfoldable pub rendered : Codec → Entries → String → String
rendered c context template = substitute (λ name. value_text c (get name context)) 0 template

-- `render_payload`
unfoldable pub render_payload : Codec → Option String → Entries → Value
render_payload c none context = dict context
render_payload c (some template) context =
    if is_empty template
    then dict context
    else or_else (c.loads (rendered c context template)) (dict context)

-- `_SENSITIVE_HEADERS`
abbrev sensitive_headers : List String
sensitive_headers =
    "authorization" ∷ "x-api-key" ∷ "x-token" ∷ "cookie" ∷ "set-cookie" ∷ "proxy-authorization" ∷ []

-- `_redact_value`
unfoldable pub redact_value : String → String
redact_value value =
    if leb (size value) 4 then "[REDACTED]" else concat (first_chars 4 value) "...[REDACTED]"

abbrev is_sensitive : String → Bool
is_sensitive k = any_of (str_eq (lower_all k)) sensitive_headers

-- `redact_headers`
unfoldable pub redact_headers : List (String × String) → List (String × String)
redact_headers [] = []
redact_headers ((k, v) ∷ headers) =
    (k, if is_sensitive k then redact_value v else v) ∷ redact_headers headers
