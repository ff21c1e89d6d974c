-- ===== src/Adapters/Trino/Records.antt =====
-- adapters.py: the records that `dict(zip(columns, row))` makes of the rows of an answer of Trino.
use databridge.Base.{
  ◌≡◌, refl, ◌∙◌, Option, none, some, List, [], ◌∷◌, ◌++◌, String, arith, str_eq, eq_iff,
  if◌then◌else◌,
}
use databridge.Value.{Value, dict, Entries, done, entry, get, put}
use databridge.Adapters.Trino.{Page, columns_after, row_dict, row_dicts}

abbrev later_or : Option Value → Option Value → Option Value
later_or (some v) o = some v
later_or none o = o

later_or-none : (o : Option Value) → later_or o none ≡ o
later_or-none none = refl
later_or-none (some v) = refl

-- What stands in a row under a column, as `dict` has it of pairs: the last of that name.
abbrev cell : String → List String → List Value → Option Value
cell k [] vs = none
cell k (c ∷ cs) [] = none
cell k (c ∷ cs) (v ∷ vs) = later_or (cell k cs vs) (if str_eq c k then some v else none)

-- A record that has under every key what stands in the row under that column, and no other keys.
abbrev IsRecord : List String → List Value → Value → Type 0
IsRecord columns row v =
    (fs : Entries) × (v ≡ dict fs) × ((k : String) → get k fs ≡ cell k columns row)

-- One record for each row, in order.
abbrev AreRecords : List String → List (List Value) → List Value → Type 0
AreRecords columns [] [] = Unit
AreRecords columns (row ∷ rows) (v ∷ vs) = IsRecord columns row v × AreRecords columns rows vs
AreRecords columns _ _ = ⊥

get-put_any :
    (k j : String) (w : Value) (fs : Entries)
    → get k (put j w fs) ≡ (if str_eq j k then some w else get k fs)
unfolding get put
get-put_any k j w done = refl
get-put_any k j w (entry i v fs) =
    ground (arith, get-put_any k j w fs, eq_iff i j, eq_iff i k, eq_iff j k)

get-row_dict :
    (k : String) (columns : List String) (row : List Value) (fs : Entries)
    → get k (row_dict columns row fs) ≡ later_or (cell k columns row) (get k fs)
unfolding row_dict
get-row_dict k [] row fs = refl
get-row_dict k (c ∷ cs) [] fs = refl
get-row_dict k (c ∷ cs) (v ∷ vs) fs =
    get-row_dict k cs vs (put c v fs) ∙ (rw (get-put_any k c v fs) (ground arith))

pub row_dicts-AreRecords :
    (columns : List String) (rows : List (List Value))
    → AreRecords columns rows (row_dicts columns rows)
unfolding get
row_dicts-AreRecords columns [] = tt
row_dicts-AreRecords columns (row ∷ rows) = (
  (
    row_dict columns row done,
    refl,
    λ k. get-row_dict k columns row done ∙ later_or-none (cell k columns row),
  ),
  row_dicts-AreRecords columns rows,
)

-- The records of pages that come one after the other: each page has its own, by the columns of the
-- first page that names some.
abbrev pub Assembled : List String → List Page → List Value → Type 0
Assembled columns [] vs = vs ≡ []
Assembled columns (page ∷ pages) vs =
    (now : List Value) × (later : List Value) × (vs ≡ now ++ later)
    × AreRecords (columns_after columns page) page.rows now
    × Assembled (columns_after columns page) pages later
