-- ===== src/Adapters/Rules/Safety.antt =====
-- adapters.py: the conditions that `_query_to_sql` makes leave no string literal open.
use Prim.Native.Char.{Char, code}
use mathlib.Core.Option
use databridge.Base.{
  ◌≡◌, refl, sym, true, false, Option, none, some, String, ◌==◌, arith, Bool-cases, map-eq_some,
  WhenSome, WhenSome-map, inl, inr,
}
use databridge.Base.Text.{is_word, lower, concat, AllChars, is_empty}
use databridge.Adapters.Literals.{quote, is_quote, is_backslash}
use databridge.Adapters.Rules.{
  Rule, skip_spaces, after_word, first_some, value_body, quoted, operator, with_value, span_word,
  split_contains, push_first, ending, shorter, rule_from, match_rule,
}
use databridge.Adapters.Rules.Harmless.{
  outside, inside, is_harmless, is_safe_sql, AllHarmless, AllHarmless-words,
}

value_body-closed :
    (s v rest : String)
    → value_body s ≡ some v
    → is_safe_sql inside (concat v (String.◌∷◌ quote rest)) ≡ is_safe_sql outside rest
unfolding value_body is_safe_sql
value_body-closed String.[] v rest h = cc
value_body-closed (String.◌∷◌ c String.[]) v rest h = elim (Bool-cases (is_quote c)) [
  | inl e ↦ let empty : String.[] ≡ v = ground arith in rw (sym empty) refl
  | inr e ↦ absurd (ground arith)
]
value_body-closed (String.◌∷◌ c (String.◌∷◌ d s)) v rest h = elim (Bool-cases (is_quote c)) [
  | inl e ↦ absurd (ground arith)
  | inr e ↦ elim (Bool-cases (is_backslash c)) [
    | inl b ↦ elim (Bool-cases (code d == 10)) [
      | inl n ↦ absurd (ground arith)
      | inr n ↦
          let (a, found, made) = map-eq_some _ (value_body s) (rw (e, b, n) at h) in
          rw (sym made, e, b) (value_body-closed s a rest found)
    ]
    | inr b ↦
        let (a, found, made) = map-eq_some _ (value_body (String.◌∷◌ d s)) (rw (e, b) at h) in
        rw (sym made, e, b) (value_body-closed (String.◌∷◌ d s) a rest found)
  ]
]

upper-harmless :
    (c : Char)
    → is_quote (lower c) ≡ false
    → is_harmless (lower c) ≡ true
    → (is_quote c ≡ false) × (is_harmless c ≡ true)
unfolding lower
upper-harmless c q h = ground arith

span_word-words : (s : String) → AllChars (λ c. is_word c ≡ true) (span_word s).0
span_word-words String.[] = tt
span_word-words (String.◌∷◌ c s) = elim (Bool-cases (is_word c)) [
  | inl e ↦ rw e (e, span_word-words s)
  | inr e ↦ rw e tt
]

pub WhenSome-first_some {ℓ κ} :
    {A : Type ℓ} (P : A → Type κ) (a b : Option A)
    → WhenSome P a
    → WhenSome P b
    → WhenSome P (first_some a b)
WhenSome-first_some P none b h k = k
WhenSome-first_some P (some a) b h k = h

abbrev pub FirstHarmless : Option (String × String) → Type 0
FirstHarmless = WhenSome (λ (p : String × String). AllHarmless p.0)

same_code :
    (a c : Char)
    → code a == code c ≡ true
    → (is_quote a ≡ false) × (is_harmless a ≡ true)
    → (is_quote c ≡ false) × (is_harmless c ≡ true)
same_code a c e h = ground arith

pub after_word-harmless : (w s : String) → AllHarmless w → FirstHarmless (after_word w s)
after_word-harmless String.[] s ok = tt
after_word-harmless (String.◌∷◌ a w) String.[] ok = tt
after_word-harmless (String.◌∷◌ a w) (String.◌∷◌ c s) ((q, k), ok) =
    elim (Bool-cases (code a == code (lower c))) [
      | inl e ↦ rw e (
          WhenSome-map (λ (p : String × String). AllHarmless p.0) (push_first c) (after_word w s)
            (with_head (after_word w s)
              (let (q', k') = same_code a (lower c) e (q, k) in upper-harmless c q' k')
              (after_word-harmless w s ok)))
      | inr e ↦ rw e tt
    ]
  where
    with_head :
        (o : Option (String × String))
        → (is_quote c ≡ false) × (is_harmless c ≡ true)
        → FirstHarmless o
        → WhenSome (λ (p : String × String). AllHarmless (String.◌∷◌ c p.0)) o
    with_head none h hs = tt
    with_head (some p) h hs = (h, hs)

operator-harmless : (s : String) → FirstHarmless (operator s)
unfolding operator
operator-harmless s = WhenSome-first_some P _ _ (after_word-harmless "==" s (ground arith)) (
    WhenSome-first_some P _ _ (after_word-harmless "!=" s (ground arith)) (
      WhenSome-first_some P _ _ (after_word-harmless ">=" s (ground arith)) (
        WhenSome-first_some P _ _ (after_word-harmless "<=" s (ground arith)) (
          WhenSome-first_some P _ _ (after_word-harmless ">" s (ground arith)) (
            WhenSome-first_some P _ _ (after_word-harmless "<" s (ground arith))
              (after_word-harmless "contains" s (ground arith)))))))
  where
    P : String × String → Type 0
    P p = AllHarmless p.0

abbrev Ending : String × String → Type 0
Ending p = AllChars (λ c. is_word c ≡ true) p.0 × AllHarmless p.1

ending-words :
    (o later : Option (String × String))
    → FirstHarmless o
    → WhenSome Ending later
    → WhenSome Ending (ending o later)
ending-words none later h k = k
ending-words (some (op, rest)) later h k = elim (Bool-cases (is_empty rest)) [
  | inl e ↦ rw e (tt, h)
  | inr e ↦ rw e k
]

split_contains-words :
    (w : String) → AllChars (λ c. is_word c ≡ true) w → WhenSome Ending (split_contains w)
split_contains-words String.[] ok = tt
split_contains-words (String.◌∷◌ c w) (k, ok) =
    ending-words (after_word "contains" (String.◌∷◌ c w))
      (Option.map (push_first c) (split_contains w))
      (after_word-harmless "contains" (String.◌∷◌ c w) (ground arith))
      (WhenSome-map Ending (push_first c) (split_contains w)
        (longer (split_contains w) (split_contains-words w ok)))
  where
    longer :
        (o : Option (String × String))
        → WhenSome Ending o
        → WhenSome (λ (p : String × String). Ending (push_first c p)) o
    longer none h = tt
    longer (some p) (h, hs) = ((k, h), hs)

-- A text that does not end the literal that it is put into.
abbrev ClosedValue : String → Type 0
ClosedValue v =
    (rest : String)
    → is_safe_sql inside (concat v (String.◌∷◌ quote rest)) ≡ is_safe_sql outside rest

-- A rule's field and operator are harmless, and its value does not end the literal that it is put
-- into.
unfoldable pub IsSafeRule : Rule → Type 0
IsSafeRule r = AllHarmless r.field × AllHarmless r.op × ClosedValue r.value

quoted-closed : (s : String) → WhenSome ClosedValue (quoted s)
quoted-closed String.[] = tt
quoted-closed (String.◌∷◌ c s) = elim (Bool-cases (is_quote c)) [
  | inl e ↦ rw e (closed (value_body s) refl)
  | inr e ↦ rw e tt
]
  where
    closed : (o : Option String) → value_body s ≡ o → WhenSome ClosedValue o
    closed none h = tt
    closed (some v) h = λ rest. value_body-closed s v rest h

with_value-IsSafeRule :
    (field : String) (o : Option (String × String))
    → AllHarmless field
    → FirstHarmless o
    → WhenSome IsSafeRule (with_value field o)
unfolding IsSafeRule
with_value-IsSafeRule field none f h = tt
with_value-IsSafeRule field (some (op, rest)) f h =
    made (quoted (skip_spaces rest)) (quoted-closed (skip_spaces rest))
  where
    made :
        (o : Option String)
        → WhenSome ClosedValue o
        → WhenSome IsSafeRule
            (Option.map {B = Rule} (λ v. record { field = field; op = op; value = v }) o)
    made none k = tt
    made (some v) k = (f, h, k)

shorter-IsSafeRule :
    (o : Option (String × String)) (rest : String)
    → WhenSome Ending o
    → WhenSome IsSafeRule (shorter o rest)
shorter-IsSafeRule none rest h = tt
shorter-IsSafeRule (some (field, op)) rest (f, h) = elim (Bool-cases (is_empty field)) [
  | inl e ↦ rw e tt
  | inr e ↦ rw e (with_value-IsSafeRule field (some (op, rest)) (AllHarmless-words field f) h)
]

pub match_rule-IsSafeRule : (s : String) → WhenSome IsSafeRule (match_rule s)
unfolding match_rule
match_rule-IsSafeRule s = by_word (span_word s) (span_word-words s)
  where
    by_word :
        (p : String × String)
        → AllChars (λ c. is_word c ≡ true) p.0
        → WhenSome IsSafeRule (rule_from p)
    by_word (w, rest) ok = elim (Bool-cases (is_empty w)) [
      | inl e ↦ rw e tt
      | inr e ↦ rw e (
          WhenSome-first_some IsSafeRule _ _
            (with_value-IsSafeRule w (operator (skip_spaces rest)) (AllHarmless-words w ok)
              (operator-harmless (skip_spaces rest)))
            (shorter-IsSafeRule (split_contains w) rest (split_contains-words w ok)))
    ]
