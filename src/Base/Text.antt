-- ===== src/Base/Text.antt =====
-- The string methods of the standard language that the program uses, on native texts.
use Prim.Native.Nat.{zero, suc, ℕ, ◌+◌, ◌-◌, ◌*◌, compare, Ordering}
use Prim.Native.Char.{Char, code}
use Prim.Native.String.{String}
use mathlib.Core.Path.{◌≡◌, refl}
use mathlib.Core.Bool.{Bool, true, false, not, ◌&&◌, ◌||◌}
use mathlib.Core.Option.{Option, none, some}
use mathlib.Core.List.{List, [], ◌∷◌}

abbrev within : ℕ → ℕ → ℕ → Bool
within lo hi c = elim (compare lo c) [
  | Ordering.gt ↦ false
  | _ ↦ elim (compare c hi) [ Ordering.gt ↦ false | _ ↦ true ]
]

abbrev same : ℕ → ℕ → Bool
same a b = elim (compare a b) [ Ordering.eq ↦ true | _ ↦ false ]

-- `c.isdigit()` for the digits of ASCII
abbrev pub is_digit : Char → Bool
is_digit c = within b'0' b'9' (code c)

abbrev all_digits : String → Bool
all_digits String.[] = true
all_digits (String.◌∷◌ c s) = is_digit c && all_digits s

abbrev pub is_empty : String → Bool
is_empty String.[] = true
is_empty (String.◌∷◌ c s) = false

-- `s.isdigit()`
unfoldable pub is_digits : String → Bool
is_digits s = not (is_empty s) && all_digits s

abbrev int_from : ℕ → String → ℕ
int_from n String.[] = n
int_from n (String.◌∷◌ c s) = int_from (n * 10 + (code c - 48)) s

-- `int(s)` of a text of digits
unfoldable pub int_of : String → ℕ
int_of s = int_from 0 s

-- `first ∷ rest` is `s.split(sep)` for a separator of one character.
abbrev pub push_char : Char → String × List String → String × List String
push_char c (w, ws) = (String.◌∷◌ c w, ws)

unfoldable pub split : ℕ → String → String × List String
split sep String.[] = ("", [])
split sep (String.◌∷◌ c s) =
    let (w, ws) = split sep s in
    elim (same (code c) sep) [ true ↦ ("", w ∷ ws) | false ↦ (String.◌∷◌ c w, ws) ]

split_dots : split b'.' "a.b.0" ≡ ("a", "b" ∷ "0" ∷ [])
unfolding split
split_dots = refl

split_empty : split b'.' "" ≡ ("", [])
unfolding split
split_empty = refl

index_text : int_of "120" ≡ 120
unfolding int_of
index_text = refl

-- `s.rstrip("/")`
abbrev pub rstrip_onto : Char → String → String
rstrip_onto c String.[] = elim (same (code c) b'/') [ true ↦ "" | false ↦ String.◌∷◌ c "" ]
rstrip_onto c (String.◌∷◌ d s) = String.◌∷◌ c (String.◌∷◌ d s)

unfoldable pub rstrip_slash : String → String
rstrip_slash String.[] = ""
rstrip_slash (String.◌∷◌ c s) = rstrip_onto c (rstrip_slash s)

-- `c.isspace()`
abbrev pub is_space : Char → Bool
is_space c =
    within 9 13 (code c)
    || within 28 32 (code c)
    || same (code c) 0x85
    || same (code c) 0xa0
    || same (code c) 0x1680
    || within 0x2000 0x200a (code c)
    || within 0x2028 0x2029 (code c)
    || same (code c) 0x202f
    || same (code c) 0x205f
    || same (code c) 0x3000

-- `not s.strip()`
unfoldable pub is_blank : String → Bool
is_blank String.[] = true
is_blank (String.◌∷◌ c s) = is_space c && is_blank s

strip_url : rstrip_slash "https://a.b//" ≡ "https://a.b"
unfolding rstrip_slash
strip_url = refl

-- `\w` for the characters of ASCII
abbrev pub is_word : Char → Bool
is_word c =
    within b'a' b'z' (code c) || within b'A' b'Z' (code c) || is_digit c || same (code c) b'_'

-- The letter of the second alphabet at the place where the first has `c`.
abbrev translate : String → String → Char → Char
translate (String.◌∷◌ a from) (String.◌∷◌ b to) c =
    let rest = translate from to c in elim (same (code a) (code c)) [ true ↦ b | false ↦ rest ]
translate _ _ c = c

-- `c.lower()` for the characters of ASCII
unfoldable pub lower : Char → Char
lower = translate "ABCDEFGHIJKLMNOPQRSTUVWXYZ" "abcdefghijklmnopqrstuvwxyz"

-- `a + b`, and the pieces of an f-string
abbrev pub concat : String → String → String
concat String.[] t = t
concat (String.◌∷◌ c s) t = String.◌∷◌ c (concat s t)

abbrev pub concat_all : List String → String
concat_all [] = ""
concat_all (s ∷ ss) = concat s (concat_all ss)

-- Every character of a text has the property.
abbrev pub AllChars {κ} : (Char → Type κ) → String → Type κ
AllChars P String.[] = Unit
AllChars P (String.◌∷◌ c s) = P c × AllChars P s

-- What follows a prefix.
abbrev pub after_prefix : String → String → Option String
after_prefix String.[] s = some s
after_prefix (String.◌∷◌ a p) String.[] = none
after_prefix (String.◌∷◌ a p) (String.◌∷◌ c s) =
    let rest = after_prefix p s in elim (same (code a) (code c)) [ true ↦ rest | false ↦ none ]

-- `s.lower()`
abbrev pub lower_all : String → String
lower_all String.[] = ""
lower_all (String.◌∷◌ c s) = String.◌∷◌ (lower c) (lower_all s)

-- `s[:n]`
abbrev pub first_chars : ℕ → String → String
first_chars zero s = ""
first_chars (suc n) String.[] = ""
first_chars (suc n) (String.◌∷◌ c s) = String.◌∷◌ c (first_chars n s)
