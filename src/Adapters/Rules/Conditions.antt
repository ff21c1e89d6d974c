-- ===== src/Adapters/Rules/Conditions.antt =====
-- adapters.py: the conditions that `_query_to_sql` makes leave no string literal open.
use Prim.Native.Char.{Char}
use databridge.Base.{
  ℕ, zero, suc, ◌-◌, ◌≡◌, refl, sym, ◌∙◌, ◌⊎◌, true, false, Option, none, some, List, [], ◌∷◌,
  String, ◌==◌, arith, Bool-cases, WhenSome, WhenSome-map, inl, inr, str_eq,
}
use databridge.Base.Lists.{All}
use databridge.Base.Text.{concat, AllChars, is_empty}
use databridge.Adapters.Literals.{
  quote, backslash, is_backslash, escape_quotes, read_clickhouse, read_clickhouse-escape_quotes,
  escape_quotes-escapes,
}
use databridge.Adapters.Rules.{
  Rule, skip_spaces, match_rule, rule_sql, op_sql, with_spaces, separator, tokens_of, split_at,
  token_sql, spaces, lower_all, full_text, strip, structured_sql, rules_sql, or_full_text,
  query_to_sql, join_rule, join_first,
}
use databridge.Adapters.Rules.Harmless.{
  outside, is_safe_sql, AllHarmless, is_safe_sql-harmless, is_safe_sql-escape_quotes,
  is_safe_sql-concat,
}
use databridge.Adapters.Rules.Safety.{
  FirstHarmless, WhenSome-first_some, after_word-harmless, IsSafeRule, match_rule-IsSafeRule,
}

separator-harmless : (s : String) → WhenSome (λ (p : String × ℕ). AllHarmless p.0) (separator s)
unfolding separator
separator-harmless s = spaced (spaces s) _ (
    WhenSome-first_some (λ (p : String × String). AllHarmless p.0) _ _
      (after_word-harmless "and" (skip_spaces s) (ground arith))
      (after_word-harmless "or" (skip_spaces s) (ground arith)))
  where
    spaced :
        (n : ℕ) (o : Option (String × String))
        → FirstHarmless o
        → WhenSome (λ (p : String × ℕ). AllHarmless p.0) (with_spaces n 0 o)
    spaced zero o h = tt
    spaced (suc n) none h = tt
    spaced (suc n) (some (op, rest)) h = elim (Bool-cases (spaces rest == 0)) [
      | inl e ↦ rw e tt
      | inr e ↦ rw e h
    ]

abbrev OpsHarmless : List (String × String) → Type 0
OpsHarmless = All (λ (p : String × String). AllHarmless p.0)

tokens_of-harmless : (k : ℕ) (s : String) → OpsHarmless (tokens_of k s).1
unfolding tokens_of
tokens_of-harmless k String.[] = tt
tokens_of-harmless (suc k) (String.◌∷◌ c s) = tokens_of-harmless k s
tokens_of-harmless zero (String.◌∷◌ c s) =
    at (separator (String.◌∷◌ c s)) (separator-harmless (String.◌∷◌ c s))
      (λ n. tokens_of-harmless (n - 1) s)
  where
    at :
        (o : Option (String × ℕ))
        → WhenSome (λ (p : String × ℕ). AllHarmless p.0) o
        → ((n : ℕ) → OpsHarmless (tokens_of (n - 1) s).1)
        → OpsHarmless (split_at c o (λ n. tokens_of (n - 1) s)).1
    at none h next = next 0
    at (some (op, n)) h next = (h, next n)

op_sql-harmless : (op : String) → AllHarmless op → AllHarmless (op_sql op)
op_sql-harmless op h = elim (Bool-cases (str_eq op "==")) [
  | inl e ↦ rw e (ground arith)
  | inr e ↦ rw e h
]

rule_sql-safe : (r : Rule) → IsSafeRule r → is_safe_sql outside (rule_sql r) ≡ true
unfolding rule_sql is_safe_sql IsSafeRule
rule_sql-safe r (f, o, v) = elim (Bool-cases (str_eq (lower_all r.op) "contains")) [
  | inl e ↦
      rw e (is_safe_sql-harmless r.field (concat "), '" (concat r.value "') > 0")) f ∙ v ") > 0")
  | inr e ↦ rw e (
      is_safe_sql-harmless r.field
        (concat " " (concat (op_sql r.op) (concat " '" (concat r.value "'")))) f
      ∙ is_safe_sql-harmless (op_sql r.op) (concat " '" (concat r.value "'"))
          (op_sql-harmless r.op o)
      ∙ v "")
]

token_sql-safe :
    (token : String) → WhenSome (λ sql. is_safe_sql outside sql ≡ true) (token_sql token)
token_sql-safe token =
    WhenSome-map (λ sql. is_safe_sql outside sql ≡ true) rule_sql (match_rule (strip token))
      (safe (match_rule (strip token)) (match_rule-IsSafeRule (strip token)))
  where
    safe :
        (o : Option Rule)
        → WhenSome IsSafeRule o
        → WhenSome (λ (r : Rule). is_safe_sql outside (rule_sql r) ≡ true) o
    safe none h = tt
    safe (some r) h = rule_sql-safe r h

abbrev SafeSql : Option String → Type 0
SafeSql = WhenSome (λ (sql : String). is_safe_sql outside sql ≡ true)

join_rule-safe :
    (o : Option String) (op : String) (rest : Option String)
    → SafeSql o
    → AllHarmless op
    → SafeSql rest
    → SafeSql (join_rule o op rest)
unfolding is_safe_sql
join_rule-safe none op rest h k r = tt
join_rule-safe (some sql) op none h k r = tt
join_rule-safe (some sql) op (some rest) h k r =
    is_safe_sql-harmless op (concat " " (concat sql (concat rest ""))) k
    ∙ is_safe_sql-concat outside sql (concat rest "") h
    ∙ is_safe_sql-concat outside rest "" r

rules_sql-safe : (more : List (String × String)) → OpsHarmless more → SafeSql (rules_sql more)
unfolding is_safe_sql
rules_sql-safe [] h = refl
rules_sql-safe ((op, token) ∷ more) (h, hs) =
    join_rule-safe (token_sql token) op (rules_sql more) (token_sql-safe token) h
      (rules_sql-safe more hs)

join_first-safe : (o rest : Option String) → SafeSql o → SafeSql rest → SafeSql (join_first o rest)
join_first-safe none rest h k = tt
join_first-safe (some sql) none h k = tt
join_first-safe (some sql) (some rest) h k = is_safe_sql-concat outside sql rest h ∙ k

structured_sql-safe : (expr : String) → SafeSql (structured_sql expr)
unfolding structured_sql
structured_sql-safe expr =
    join_first-safe (token_sql (tokens_of 0 expr).0) (rules_sql (tokens_of 0 expr).1)
      (token_sql-safe (tokens_of 0 expr).0)
      (rules_sql-safe (tokens_of 0 expr).1 (tokens_of-harmless 0 expr))

full_text-safe :
    (expr column : String)
    → AllHarmless column
    → AllChars (λ c. is_backslash c ≡ false) expr
    → is_safe_sql outside (full_text expr column) ≡ true
unfolding full_text is_safe_sql
full_text-safe expr column h plain =
    is_safe_sql-harmless column (concat "), '" (concat (escape_quotes expr) "') > 0")) h
    ∙ is_safe_sql-escape_quotes expr ") > 0" plain

-- The condition that is made of an expression leaves no string literal open, and what stands
-- outside of its literals are harmless characters: the expression has no backslash, or each of its
-- tokens is a rule. The column that is searched has a plain name.
pub query_to_sql-safe :
    (query column : String) {sql : String}
    → AllHarmless column
    → AllChars (λ c. is_backslash c ≡ false) (strip query)
      ⊎ ((s : String) × (structured_sql (strip query) ≡ some s))
    → query_to_sql query column ≡ some sql
    → is_safe_sql outside sql ≡ true
unfolding query_to_sql
query_to_sql-safe query column {sql} h rules made = elim (Bool-cases (is_empty (strip query))) [
  | inl e ↦ absurd (ground arith)
  | inr e ↦
      let same : ◌≡◌ {A = Option String}
          (some (or_full_text (structured_sql (strip query)) (strip query) column)) (some sql) =
        rw e at made in
      by_case (structured_sql (strip query)) (structured_sql-safe (strip query)) rules same
]
  where
    by_case :
        (o : Option String)
        → SafeSql o
        → AllChars (λ c. is_backslash c ≡ false) (strip query) ⊎ ((s : String) × (o ≡ some s))
        → ◌≡◌ {A = Option String} (some (or_full_text o (strip query) column)) (some sql)
        → is_safe_sql outside sql ≡ true
    by_case (some s) safe r e = let same : s ≡ sql = cc in rw (sym same) safe
    by_case none safe (inl plain) e =
        let same : full_text (strip query) column ≡ sql = cc in
        rw (sym same) (full_text-safe (strip query) column h plain)
    by_case none safe (inr (s, absent)) e = cc

-- What stands in front of the text that is searched for, up to its opening quote.
abbrev pub opening : String → String → String
opening column rest =
    concat "positionCaseInsensitive(toString(" (concat column (concat "), '" rest))

-- The full-text search is the opening and a rest that ClickHouse reads, if the expression has no
-- backslash, as the expression itself and the end of the condition.
full_text-reads :
    (expr column : String)
    → AllChars (λ c. is_backslash c ≡ false) expr
    → (rest : String) × (full_text expr column ≡ opening column rest)
      × (read_clickhouse rest ≡ some (expr, ") > 0"))
unfolding full_text
full_text-reads expr column plain = (
  concat (escape_quotes expr) "') > 0",
  refl,
  read_clickhouse-escape_quotes expr ") > 0" plain refl,
)

-- An expression that begins with a backslash and a quote, and goes on, ends the literal of the
-- full-text search there: what stands behind the quote is read as a part of the statement.
pub full_text-injects :
    (c : Char) (s column : String)
    → (rest : String) × (full_text (String.◌∷◌ backslash (String.◌∷◌ quote (String.◌∷◌ c s))) column
        ≡ opening column rest)
      × (read_clickhouse rest
          ≡ some (String.◌∷◌ backslash "", concat (escape_quotes (String.◌∷◌ c s)) "') > 0"))
unfolding full_text
full_text-injects c s column = (
  concat (escape_quotes (String.◌∷◌ backslash (String.◌∷◌ quote (String.◌∷◌ c s)))) "') > 0",
  refl,
  escape_quotes-escapes c s "') > 0",
)
