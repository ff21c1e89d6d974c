-- ===== src/Demo/Sql.antt =====
-- How db/demo_pool.py reads a statement: its normal form, the texts it looks for in it, and its
-- regular expressions. A statement is a text of ASCII.
use Prim.Native.Char.{Char, code}
use databridge.Base.{
  ℕ, ◌+◌, ◌-◌, ◌*◌, ◌≡◌, refl, Bool, true, false, ◌||◌, Option, none, some, List, [], ◌∷◌, String,
  ◌==◌, if◌then◌else◌, is_some,
}
use databridge.Base.Text.{is_space, is_digit, is_word, lower, after_prefix}

abbrev space : Char
space = " "

-- Whether a word has been read yet, and whether a gap follows it.
pub data Gap : Type 0 where
  start in_text in_gap : Gap

abbrev next_gap : Gap → Bool → Gap
next_gap start true = start
next_gap _ true = in_gap
next_gap _ false = in_text

abbrev emit : Gap → Bool → Char → String → String
emit g true c s = s
emit in_gap false c s = String.◌∷◌ space (String.◌∷◌ c s)
emit _ false c s = String.◌∷◌ c s

abbrev normal_from : Gap → String → String
normal_from g String.[] = ""
normal_from g (String.◌∷◌ c s) =
    emit g (is_space c) (lower c) (normal_from (next_gap g (is_space c)) s)

-- `" ".join(sql.strip().split()).lower()`
unfoldable pub normalise : String → String
unfolding lower
normalise = normal_from start

-- `s.startswith(p)`
unfoldable pub starts_with : String → String → Bool
starts_with p s = is_some (after_prefix p s)

-- `p in s` for a text that is not empty
unfoldable pub contains : String → String → Bool
contains p String.[] = false
contains p (String.◌∷◌ c s) = is_some (after_prefix p (String.◌∷◌ c s)) || contains p s

-- The state of a search for `(\w+)\s*=\s*\$(\d+)`; the word that was read is kept reversed.
pub data Scan : Type 0 where
  idle : Scan
  in_word after_word after_eq after_dollar : String → Scan
  in_digits : String → ℕ → Scan

abbrev reverse_onto : String → String → String
reverse_onto String.[] t = t
reverse_onto (String.◌∷◌ c s) t = reverse_onto s (String.◌∷◌ c t)

abbrev digit : Char → ℕ
digit c = code c - 48

abbrev fresh : Char → Scan
fresh c = if is_word c then in_word (String.◌∷◌ c "") else idle

abbrev step : Scan → Char → Scan
step idle c = fresh c
step (in_word w) c =
    if is_word c
    then in_word (String.◌∷◌ c w)
    else if is_space c
    then after_word w
    else if code c == b'='
    then after_eq w
    else idle
step (after_word w) c =
    if is_space c then after_word w else if code c == b'=' then after_eq w else fresh c
step (after_eq w) c =
    if is_space c then after_eq w else if code c == b'$' then after_dollar w else fresh c
step (after_dollar w) c = if is_digit c then in_digits w (digit c) else fresh c
step (in_digits w n) c = if is_digit c then in_digits w (n * 10 + digit c) else fresh c

-- A match ends where its digits do.
abbrev matched : Scan → Option Char → List (String × ℕ) → List (String × ℕ)
matched (in_digits w n) none rest = (reverse_onto w "", n) ∷ rest
matched (in_digits w n) (some c) rest = if is_digit c then rest else (reverse_onto w "", n) ∷ rest
matched _ c rest = rest

abbrev scan : Scan → String → List (String × ℕ)
scan z String.[] = matched z none []
scan z (String.◌∷◌ c s) = matched z (some c) (scan (step z c) s)

-- `[(m.group(1), int(m.group(2))) for m in re.finditer(r"(\w+)\s*=\s*\$(\d+)", s)]`
unfoldable pub assignments : String → List (String × ℕ)
assignments s = scan idle s

abbrev digits_from : ℕ → String → ℕ
digits_from n String.[] = n
digits_from n (String.◌∷◌ c s) =
    let rest = digits_from (n * 10 + digit c) s in if is_digit c then rest else n

abbrev leading_number : Option String → Option ℕ
leading_number none = none
leading_number (some String.[]) = none
leading_number (some (String.◌∷◌ c s)) =
    if is_digit c then some (digits_from 0 (String.◌∷◌ c s)) else none

abbrev first_number : Option ℕ → Option ℕ → Option ℕ
first_number (some n) rest = some n
first_number none rest = rest

-- `re.search(r"where id=\$(\d+)", s)`: the number
unfoldable pub where_id : String → Option ℕ
where_id String.[] = none
where_id (String.◌∷◌ c s) =
    first_number (leading_number (after_prefix "where id=$" (String.◌∷◌ c s))) (where_id s)

normal_text : normalise "\n  UPDATE x\n   SET a=$1 \n" ≡ "update x set a=$1"
unfolding normalise
normal_text = refl

assigned : assignments "set a=$1, b = c = $12 where id=$3" ≡ ("a", 1) ∷ ("c", 12) ∷ ("id", 3) ∷ []
unfolding assignments
assigned = refl

where_third : where_id "set a=$1 where id=$3" ≡ some 3
unfolding where_id
where_third = refl
