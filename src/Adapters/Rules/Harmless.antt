-- ===== src/Adapters/Rules/Harmless.antt =====
-- adapters.py: what of a condition stands outside its string literals, as ClickHouse reads it.
use Prim.Native.Char.{Char, code}
use databridge.Base.{
  ◌≡◌, refl, Bool, true, false, ◌&&◌, ◌||◌, String, ◌==◌, arith, if◌then◌else◌, Bool-cases, inl,
  inr,
}
use databridge.Base.Text.{is_word, concat, AllChars}
use databridge.Adapters.Literals.{quote, is_quote, is_backslash, escape_quotes}

-- Outside a literal, inside one, and behind a backslash inside one. Two quotes in a literal close
-- and open it.
pub data Lex : Type 0 where
  outside inside escaped : Lex

-- A character of a name, a space, or one of the operators and brackets of a condition.
abbrev pub is_harmless : Char → Bool
is_harmless c =
    is_word c
    || code c == b' '
    || code c == b'('
    || code c == b')'
    || code c == b','
    || code c == b'='
    || code c == b'!'
    || code c == b'<'
    || code c == b'>'

-- Each literal is closed, and outside of the literals all characters are harmless.
unfoldable pub is_safe_sql : Lex → String → Bool
is_safe_sql outside String.[] = true
is_safe_sql _ String.[] = false
is_safe_sql outside (String.◌∷◌ c s) =
    let skip = is_safe_sql inside s in
    let next = is_safe_sql outside s in if is_quote c then skip else is_harmless c && next
is_safe_sql inside (String.◌∷◌ c s) =
    let close = is_safe_sql outside s in
    let escape = is_safe_sql escaped s in
    let next = is_safe_sql inside s in
    if is_quote c then close else if is_backslash c then escape else next
is_safe_sql escaped (String.◌∷◌ c s) = is_safe_sql inside s

word-harmless : (c : Char) → is_word c ≡ true → (is_quote c ≡ false) × (is_harmless c ≡ true)
word-harmless c h = ground arith

-- Texts of harmless characters that are no quotes do not change how the rest is read.
abbrev pub AllHarmless : String → Type 0
AllHarmless = AllChars (λ c. (is_quote c ≡ false) × (is_harmless c ≡ true))

pub AllHarmless-words : (s : String) → AllChars (λ c. is_word c ≡ true) s → AllHarmless s
AllHarmless-words String.[] h = tt
AllHarmless-words (String.◌∷◌ c s) (h, hs) = (word-harmless c h, AllHarmless-words s hs)

pub is_safe_sql-harmless :
    (w rest : String)
    → AllHarmless w
    → is_safe_sql outside (concat w rest) ≡ is_safe_sql outside rest
unfolding is_safe_sql
is_safe_sql-harmless String.[] rest h = refl
is_safe_sql-harmless (String.◌∷◌ c w) rest ((q, h), hs) = rw (q, h) (is_safe_sql-harmless w rest hs)

pub is_safe_sql-escape_quotes :
    (q rest : String)
    → AllChars (λ c. is_backslash c ≡ false) q
    → is_safe_sql inside (concat (escape_quotes q) (String.◌∷◌ quote rest))
      ≡ is_safe_sql outside rest
unfolding is_safe_sql escape_quotes
is_safe_sql-escape_quotes String.[] rest h = refl
is_safe_sql-escape_quotes (String.◌∷◌ c q) rest (h, hs) =
    let ih = is_safe_sql-escape_quotes q rest hs in
    elim (Bool-cases (is_quote c)) [ inl e ↦ rw e ih | inr e ↦ rw (e, e, h) ih ]

-- A safe text in front of another.
pub is_safe_sql-concat :
    (z : Lex) (s t : String)
    → is_safe_sql z s ≡ true
    → is_safe_sql z (concat s t) ≡ is_safe_sql outside t
unfolding is_safe_sql
is_safe_sql-concat outside String.[] t h = refl
is_safe_sql-concat inside String.[] t h = cc
is_safe_sql-concat escaped String.[] t h = cc
is_safe_sql-concat outside (String.◌∷◌ c s) t h =
    ground (arith, is_safe_sql-concat outside s t, is_safe_sql-concat inside s t)
is_safe_sql-concat inside (String.◌∷◌ c s) t h = ground (
  arith,
  is_safe_sql-concat outside s t,
  is_safe_sql-concat inside s t,
  is_safe_sql-concat escaped s t,
)
is_safe_sql-concat escaped (String.◌∷◌ c s) t h = is_safe_sql-concat inside s t h
