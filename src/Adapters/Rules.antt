-- ===== src/Adapters/Rules.antt =====
-- adapters.py: `_query_to_sql`, which makes a condition of a filter expression.
pub mod Harmless
pub mod Safety
pub mod Conditions
use Prim.Native.Char.{Char, code}
use mathlib.Core.Option
use databridge.Base.{
  ℕ, zero, suc, ◌+◌, ◌-◌, ◌≡◌, refl, Bool, true, false, ◌&&◌, Option, none, some, List, [], ◌∷◌,
  String, ◌==◌, str_eq, is_some, if◌then◌else◌,
}
use databridge.Base.Text.{lower_all, is_space, is_word, lower, is_empty, concat, concat_all}
use databridge.Adapters.Literals.{quote, backslash, escape_quotes}

abbrev skip_spaces : String → String
skip_spaces String.[] = ""
skip_spaces (String.◌∷◌ c s) =
    let rest = skip_spaces s in if is_space c then rest else String.◌∷◌ c s

abbrev rstrip_onto : Char → String → String
rstrip_onto c s = if is_space c && is_empty s then "" else String.◌∷◌ c s

abbrev rstrip : String → String
rstrip String.[] = ""
rstrip (String.◌∷◌ c s) = rstrip_onto c (rstrip s)

-- `s.strip()`
unfoldable pub strip : String → String
strip s = rstrip (skip_spaces s)

abbrev push_first : Char → String × String → String × String
push_first c (w, op) = (String.◌∷◌ c w, op)

-- What follows a word, in whatever case it is written, and the word as it is written.
abbrev pub after_word : String → String → Option (String × String)
after_word String.[] s = some ("", s)
after_word (String.◌∷◌ a w) String.[] = none
after_word (String.◌∷◌ a w) (String.◌∷◌ c s) =
    let rest = Option.map (push_first c) (after_word w s) in
    if code a == code (lower c) then rest else none

abbrev first_some {ℓ} : {A : Type ℓ} → Option A → Option A → Option A
first_some (some a) o = some a
first_some none o = o

abbrev spaces : String → ℕ
spaces String.[] = 0
spaces (String.◌∷◌ c s) = let n = spaces s in if is_space c then suc n else 0

abbrev length_of : String → ℕ
length_of String.[] = 0
length_of (String.◌∷◌ c s) = suc (length_of s)

-- `\s+(AND|OR)\s+` at the beginning of a text: the operator, and how many characters match
abbrev with_spaces : ℕ → ℕ → Option (String × String) → Option (String × ℕ)
with_spaces zero k o = none
with_spaces (suc n) k none = none
with_spaces (suc n) k (some (op, rest)) =
    let m = spaces rest in if m == 0 then none else some (op, suc n + length_of op + m)

unfoldable pub separator : String → Option (String × ℕ)
separator s =
    let rest = skip_spaces s in
    with_spaces (spaces s) 0 (first_some (after_word "and" rest) (after_word "or" rest))

-- The first token, and each operator with the token behind it.
abbrev Tokens : Type 0
Tokens = String × List (String × String)

abbrev push_char : Char → Tokens → Tokens
push_char c (token, more) = (String.◌∷◌ c token, more)

abbrev split_at : Char → Option (String × ℕ) → (ℕ → Tokens) → Tokens
split_at c none next = push_char c (next 0)
split_at c (some (op, n)) next = ("", (op, (next n).0) ∷ (next n).1)

-- `re.split` and `re.findall` by the separator; the number is how many characters of one are left
unfoldable pub tokens_of : ℕ → String → Tokens
tokens_of k String.[] = ("", [])
tokens_of (suc k) (String.◌∷◌ c s) = tokens_of k s
tokens_of zero (String.◌∷◌ c s) = split_at c (separator (String.◌∷◌ c s)) (λ n. tokens_of (n - 1) s)

-- A rule: the field, the operator and the text between the quotes, as it is written.
pub record Rule : Type 0 where
  pub field : String
  pub op : String
  pub value : String

-- `((?:[^'\\]|\\.)*)'` up to the end of the text
unfoldable pub value_body : String → Option String
value_body String.[] = none
value_body (String.◌∷◌ c String.[]) = if code c == code quote then some "" else none
value_body (String.◌∷◌ c (String.◌∷◌ d s)) =
    let plain = Option.map (String.◌∷◌ c) (value_body (String.◌∷◌ d s)) in
    let escaped = Option.map (λ v. String.◌∷◌ c (String.◌∷◌ d v)) (value_body s) in
    if code c == code quote
    then none
    else if code c == code backslash
    then (if code d == 10 then none else escaped)
    else plain

abbrev quoted : String → Option String
quoted String.[] = none
quoted (String.◌∷◌ c s) = let v = value_body s in if code c == code quote then v else none

-- `(==|!=|>=|<=|>|<|contains)`, and what follows it
unfoldable pub operator : String → Option (String × String)
operator s = first_some (after_word "==" s) (
    first_some (after_word "!=" s) (
      first_some (after_word ">=" s) (
        first_some (after_word "<=" s) (
          first_some (after_word ">" s)
            (first_some (after_word "<" s) (after_word "contains" s))))))

abbrev with_value : String → Option (String × String) → Option Rule
with_value field none = none
with_value field (some (op, rest)) =
    Option.map (λ v. record { field = field; op = op; value = v }) (quoted (skip_spaces rest))

-- `\w+`: the longest word, and what follows
abbrev span_word : String → String × String
span_word String.[] = ("", "")
span_word (String.◌∷◌ c s) =
    let (w, rest) = span_word s in
    if is_word c then (String.◌∷◌ c w, rest) else ("", String.◌∷◌ c s)

abbrev ending : Option (String × String) → Option (String × String) → Option (String × String)
ending none later = later
ending (some (op, rest)) later = if is_empty rest then some ("", op) else later

-- A word that ends in `contains`: what stands before it, and the ending.
abbrev split_contains : String → Option (String × String)
split_contains String.[] = none
split_contains (String.◌∷◌ c w) =
    ending (after_word "contains" (String.◌∷◌ c w)) (Option.map (push_first c) (split_contains w))

-- The word gives its ending back to the operator, if something is left of it.
abbrev shorter : Option (String × String) → String → Option Rule
shorter none rest = none
shorter (some (field, op)) rest =
    if is_empty field then none else with_value field (some (op, rest))

abbrev rule_from : String × String → Option Rule
rule_from (word, rest) =
    if is_empty word
    then none
    else first_some (with_value word (operator (skip_spaces rest)))
        (shorter (split_contains word) rest)

-- `_RULE_RE.fullmatch(s)`
unfoldable pub match_rule : String → Option Rule
match_rule s = rule_from (span_word s)

-- `_OP_MAP`
abbrev op_sql : String → String
op_sql op = if str_eq op "==" then "=" else op

unfoldable pub rule_sql : Rule → String
rule_sql r =
    if str_eq (lower_all r.op) "contains"
    then concat_all
        ("positionCaseInsensitive(toString(" ∷ r.field ∷ "), '" ∷ r.value ∷ "') > 0" ∷ [])
    else concat_all (r.field ∷ " " ∷ op_sql r.op ∷ " '" ∷ r.value ∷ "'" ∷ [])

-- The full-text search that stands for an expression with a token that is no rule.
unfoldable pub full_text : String → String → String
full_text expr search_column = concat_all (
    "positionCaseInsensitive(toString("
    ∷ search_column
    ∷ "), '"
    ∷ escape_quotes expr
    ∷ "') > 0"
    ∷ [])

abbrev token_sql : String → Option String
token_sql token = Option.map rule_sql (match_rule (strip token))

abbrev join_rule : Option String → String → Option String → Option String
join_rule none op rest = none
join_rule (some sql) op none = none
join_rule (some sql) op (some rest) = some (concat_all (" " ∷ op ∷ " " ∷ sql ∷ rest ∷ []))

abbrev rules_sql : List (String × String) → Option String
rules_sql [] = some ""
rules_sql ((op, token) ∷ more) = join_rule (token_sql token) op (rules_sql more)

abbrev join_first : Option String → Option String → Option String
join_first none rest = none
join_first (some sql) none = none
join_first (some sql) (some rest) = some (concat sql rest)

-- The condition, if every token is a rule.
unfoldable pub structured_sql : String → Option String
structured_sql expr =
    let (token, more) = tokens_of 0 expr in join_first (token_sql token) (rules_sql more)

abbrev or_full_text : Option String → String → String → String
or_full_text none expr search_column = full_text expr search_column
or_full_text (some sql) expr search_column = sql

-- `_query_to_sql`
unfoldable pub query_to_sql : String → String → Option String
query_to_sql query search_column =
    let expr = strip query in
    if is_empty expr then none else some (or_full_text (structured_sql expr) expr search_column)

two_rules :
    query_to_sql " a == 'x' and b contains 'y\\'z' " "message"
    ≡ some "a = 'x' and positionCaseInsensitive(toString(b), 'y\\'z') > 0"
unfolding lower query_to_sql structured_sql tokens_of strip separator match_rule operator value_body
    rule_sql
two_rules = refl

glued :
    query_to_sql "fieldcontains 'v'" "message"
    ≡ some "positionCaseInsensitive(toString(field), 'v') > 0"
unfolding lower query_to_sql structured_sql tokens_of strip separator match_rule operator value_body
    rule_sql
glued = refl

no_rule :
    query_to_sql "it's AND b == 'y'" "message"
    ≡ some "positionCaseInsensitive(toString(message), 'it\\'s AND b == \\'y\\'') > 0"
unfolding lower query_to_sql structured_sql tokens_of strip separator match_rule operator value_body
    rule_sql full_text escape_quotes
no_rule = refl
