-- ===== src/Adapters/Literals.antt =====
-- adapters.py: the texts that are put between quotes in statements, and how the databases read
-- them. The readers say where a literal ends and what it holds, by the documented syntax.
use Prim.Native.Char.{Char, code}
use databridge.Base.{
  ◌≡◌, refl, ap, ◌∙◌, Bool, true, false, Option, none, some, String, ◌==◌, if◌then◌else◌,
  Bool-cases, inl, inr,
}
use databridge.Base.Text.{concat, AllChars}

abbrev pub quote : Char
quote = "'"

abbrev pub backslash : Char
backslash = "\\"

abbrev pub is_quote : Char → Bool
is_quote c = code c == code quote

abbrev pub is_backslash : Char → Bool
is_backslash c = code c == code backslash

-- `query.replace("'", "''")`
unfoldable pub double_quotes : String → String
double_quotes String.[] = ""
double_quotes (String.◌∷◌ c s) =
    let rest = double_quotes s in
    if is_quote c then String.◌∷◌ c (String.◌∷◌ c rest) else String.◌∷◌ c rest

-- `expr.replace("'", "\\'")`
unfoldable pub escape_quotes : String → String
escape_quotes String.[] = ""
escape_quotes (String.◌∷◌ c s) =
    let rest = escape_quotes s in
    if is_quote c then String.◌∷◌ backslash (String.◌∷◌ c rest) else String.◌∷◌ c rest

abbrev pub push : Char → Option (String × String) → Option (String × String)
push c none = none
push c (some (s, rest)) = some (String.◌∷◌ c s, rest)

-- What a literal of standard SQL holds and what follows it, from behind its opening quote: two
-- quotes stand for one.
unfoldable pub read_literal : String → Option (String × String)
read_literal String.[] = none
read_literal (String.◌∷◌ c String.[]) = if is_quote c then some ("", "") else none
read_literal (String.◌∷◌ c (String.◌∷◌ d s)) =
    let after = read_literal (String.◌∷◌ d s) in
    let doubled = push c (read_literal s) in
    if is_quote c then (if is_quote d then doubled else some ("", String.◌∷◌ d s)) else push c after

-- The same for a literal of ClickHouse, where a backslash takes the next character with it. What
-- an escape of another character than a quote or a backslash stands for is left as it is written.
abbrev push_escaped : Char → Char → Option (String × String) → Option (String × String)
push_escaped c d r =
    if is_quote d then push d r else if is_backslash d then push d r else push c (push d r)

unfoldable pub read_clickhouse : String → Option (String × String)
read_clickhouse String.[] = none
read_clickhouse (String.◌∷◌ c String.[]) = if is_quote c then some ("", "") else none
read_clickhouse (String.◌∷◌ c (String.◌∷◌ d s)) =
    let after = read_clickhouse (String.◌∷◌ d s) in
    let doubled = push c (read_clickhouse s) in
    let escaped = push_escaped c d (read_clickhouse s) in
    if is_backslash c
    then escaped
    else if is_quote c
    then (if is_quote d then doubled else some ("", String.◌∷◌ d s))
    else push c after

-- What follows a literal does not begin with a quote.
abbrev pub NoQuoteFirst : String → Type 0
NoQuoteFirst String.[] = Unit
NoQuoteFirst (String.◌∷◌ c s) = is_quote c ≡ false

pub read_literal-plain :
    (c : Char) (s : String)
    → is_quote c ≡ false
    → read_literal (String.◌∷◌ c s) ≡ push c (read_literal s)
unfolding read_literal
read_literal-plain c String.[] h = rw h refl
read_literal-plain c (String.◌∷◌ d s) h = rw h refl

read_literal-doubled :
    (c : Char) (s : String)
    → is_quote c ≡ true
    → read_literal (String.◌∷◌ c (String.◌∷◌ c s)) ≡ push c (read_literal s)
unfolding read_literal
read_literal-doubled c s h = rw h refl

read_literal-closed :
    (r : String) → NoQuoteFirst r → read_literal (String.◌∷◌ quote r) ≡ some ("", r)
unfolding read_literal
read_literal-closed String.[] h = refl
read_literal-closed (String.◌∷◌ d s) h = rw h refl

-- A text whose quotes are doubled, closed by a quote, is read as the text itself, up to that quote.
pub read_literal-double_quotes :
    (q rest : String)
    → NoQuoteFirst rest
    → read_literal (concat (double_quotes q) (String.◌∷◌ quote rest)) ≡ some (q, rest)
unfolding double_quotes
read_literal-double_quotes String.[] rest h = read_literal-closed rest h
read_literal-double_quotes (String.◌∷◌ c q) rest h =
    let ih = read_literal-double_quotes q rest h in
    elim (Bool-cases (is_quote c)) [
      | inl e ↦ rw e (
          read_literal-doubled c (concat (double_quotes q) (String.◌∷◌ quote rest)) e
          ∙ ap (push c) ih)
      | inr e ↦ rw e (
          read_literal-plain c (concat (double_quotes q) (String.◌∷◌ quote rest)) e
          ∙ ap (push c) ih)
    ]

read_clickhouse-closed :
    (r : String) → NoQuoteFirst r → read_clickhouse (String.◌∷◌ quote r) ≡ some ("", r)
unfolding read_clickhouse
read_clickhouse-closed String.[] h = refl
read_clickhouse-closed (String.◌∷◌ d s) h = rw h refl

read_clickhouse-plain :
    (c : Char) (s : String)
    → is_quote c ≡ false
    → is_backslash c ≡ false
    → read_clickhouse (String.◌∷◌ c s) ≡ push c (read_clickhouse s)
unfolding read_clickhouse
read_clickhouse-plain c String.[] h k = rw h refl
read_clickhouse-plain c (String.◌∷◌ d s) h k = rw (h, k) refl

read_clickhouse-escaped :
    (d : Char) (s : String)
    → read_clickhouse (String.◌∷◌ backslash (String.◌∷◌ d s))
      ≡ push_escaped backslash d (read_clickhouse s)
unfolding read_clickhouse
read_clickhouse-escaped d s = refl

-- The expression is read as it is: quotes come back from their escapes. It must not have a
-- backslash.
pub read_clickhouse-escape_quotes :
    (q rest : String)
    → AllChars (λ c. is_backslash c ≡ false) q
    → NoQuoteFirst rest
    → read_clickhouse (concat (escape_quotes q) (String.◌∷◌ quote rest)) ≡ some (q, rest)
unfolding escape_quotes
read_clickhouse-escape_quotes String.[] rest plain h = read_clickhouse-closed rest h
read_clickhouse-escape_quotes (String.◌∷◌ c q) rest (p, plain) h =
    let ih = read_clickhouse-escape_quotes q rest plain h in
    let tail = concat (escape_quotes q) (String.◌∷◌ quote rest) in
    elim (Bool-cases (is_quote c)) [
      | inl e ↦ rw e (read_clickhouse-escaped c tail ∙ rw e (ap (push c) ih))
      | inr e ↦ rw e (read_clickhouse-plain c tail e p ∙ ap (push c) ih)
    ]

-- The first character of an escaped text is not a quote.
escape_quotes-NoQuoteFirst :
    (c : Char) (s rest : String) → NoQuoteFirst (concat (escape_quotes (String.◌∷◌ c s)) rest)
unfolding escape_quotes
escape_quotes-NoQuoteFirst c s rest = elim (Bool-cases (is_quote c)) [
  | inl e ↦ rw e refl
  | inr e ↦ rw e e
]

-- An expression that begins with a backslash and a quote ends the literal: what follows these two
-- characters is read as a part of the statement.
pub escape_quotes-escapes :
    (c : Char) (s rest : String)
    → read_clickhouse
        (concat (escape_quotes (String.◌∷◌ backslash (String.◌∷◌ quote (String.◌∷◌ c s)))) rest)
      ≡ some (String.◌∷◌ backslash "", concat (escape_quotes (String.◌∷◌ c s)) rest)
unfolding read_clickhouse escape_quotes
escape_quotes-escapes c s rest = ap (push backslash) (
    read_clickhouse-closed (concat (escape_quotes (String.◌∷◌ c s)) rest)
      (escape_quotes-NoQuoteFirst c s rest))
