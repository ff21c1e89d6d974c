-- ===== src/Adapters/Sql.antt =====
-- adapters.py: what the statements of the adapters are put together from.
use databridge.Base.{ℕ, Option, none, some, List, [], ◌∷◌, String, if◌then◌else◌}
use databridge.Base.Text.{is_empty, concat, concat_all}
use databridge.Value.{Value, Codec, text, Entries, done, entry, get, put}
use databridge.Jobs.{Instant}

-- How the standard language prints: a number, and an instant by `isoformat()`, by
-- `isoformat(sep=' ')` and by `strftime('%Y-%m-%d %H:%M:%S')`.
pub record Format : Type 0 where
  pub decimal : ℕ → String
  pub iso : Instant → String
  pub iso_spaced : Instant → String
  pub stamp : Instant → String

-- `{**base, **creds}` of `_creds_dict`
unfoldable pub creds_dict : Entries → Entries → Entries
creds_dict base done = base
creds_dict base (entry k v creds) = creds_dict (put k v base) creds

-- `str(v)`, as an f-string prints it
abbrev pub printed : Codec → Value → String
printed c (text s) = s
printed c v = c.show v

-- `creds.get(key, default)` in an f-string
unfoldable pub cred : Codec → String → String → Entries → String
cred c key default creds = elim (get key creds) [ none ↦ default | some v ↦ printed c v ]

-- `a or b` on texts
abbrev pub text_or_else : String → String → String
text_or_else a b = if is_empty a then b else a

-- `' AND '.join(conditions)`
abbrev join_and : List String → String
join_and [] = ""
join_and (a ∷ []) = a
join_and (a ∷ b ∷ more) = concat a (concat " AND " (join_and (b ∷ more)))

-- `f" WHERE {…}" if conditions else ""`
unfoldable pub where_clause : List String → String
where_clause [] = ""
where_clause (a ∷ more) = concat " WHERE " (join_and (a ∷ more))

-- A condition on the timestamp column, if there is a column and a bound.
unfoldable pub time_condition : String → String → (Instant → String) → Option Instant → List String
time_condition ts_col op show none = []
time_condition ts_col op show (some t) =
    if is_empty ts_col then [] else concat_all (ts_col ∷ op ∷ show t ∷ []) ∷ []

-- `f" ORDER BY {col}…" if col else ""`
unfoldable pub order_by : String → String → String
order_by col direction = if is_empty col then "" else concat " ORDER BY " (concat col direction)

abbrev pub some_condition : Option String → List String
some_condition none = []
some_condition (some s) = s ∷ []
