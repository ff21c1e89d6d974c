-- ===== src/Demo.antt =====
-- db/demo_pool.py: the stand-in for the database in demo mode. What it keeps are dicts.
pub mod Sql
pub mod Jobs
pub mod Connections
pub mod Dispatch
pub mod Rows
pub mod Statements
pub mod Table
pub mod Refines
pub mod Runs
pub mod Queries
pub mod Loss
use databridge.Base.{
  ℕ, Bool, true, false, Option, none, some, List, [], ◌∷◌, String, str_eq, ◌==◌, or_else,
  if◌then◌else◌,
}
use databridge.Jobs.{Instant, FilterSnapshot}
use databridge.Masking.{MaskingRule}
use databridge.Sampling.{SamplingConfig}

-- A value of a column or an argument. A column of JSON holds the value that was written to it.
pub data Cell : Type 0 where
  null : Cell
  text : String → Cell
  number : ℕ → Cell
  instant : Instant → Cell
  flag : Bool → Cell
  filter_json : FilterSnapshot → Cell
  texts_json : List String → Cell
  rules_json : List MaskingRule → Cell
  sampling_json : SamplingConfig → Cell

abbrev same_flag : Bool → Bool → Bool
same_flag true b = b
same_flag false true = false
same_flag false false = true

-- `a == b`; no statement compares a column of JSON
abbrev pub same_cell : Cell → Cell → Bool
same_cell null null = true
same_cell (text a) (text b) = str_eq a b
same_cell (number a) (number b) = a == b
same_cell (instant a) (instant b) = a == b
same_cell (flag a) (flag b) = same_flag a b
same_cell _ _ = false

-- `DemoRecord`, whose keys are the columns
abbrev pub DemoRecord : Type 0
DemoRecord = List (String × Cell)

-- `rec[k] = v`
unfoldable pub put : String → Cell → DemoRecord → DemoRecord
put k v [] = (k, v) ∷ []
put k v ((j, w) ∷ rec) =
    let rest = put k v rec in if str_eq j k then (j, v) ∷ rec else (j, w) ∷ rest

-- `rec[k]`, where `none` is a KeyError
unfoldable pub entry : String → DemoRecord → Option Cell
entry k [] = none
entry k ((j, w) ∷ rec) = let rest = entry k rec in if str_eq j k then some w else rest

-- `rec.get(k)`; `rec[k]` where the record has the column
unfoldable pub column : String → DemoRecord → Cell
unfolding entry
column k rec = or_else (entry k rec) null

-- A dict of records by id, the latest that was inserted first.
abbrev pub Records : Type 0
Records = List (String × DemoRecord)

-- `d.get(id)`
unfoldable pub find : Cell → Records → Option DemoRecord
find id [] = none
find id ((j, rec) ∷ d) = let rest = find id d in if same_cell (text j) id then some rec else rest

-- `d[id] = rec` for an id that is in the dict
unfoldable pub replace : Cell → DemoRecord → Records → Records
replace id new [] = []
replace id new ((j, rec) ∷ d) =
    let rest = replace id new d in if same_cell (text j) id then (j, new) ∷ d else (j, rec) ∷ rest

-- `del d[id]`
unfoldable pub delete : Cell → Records → Records
delete id [] = []
delete id ((j, rec) ∷ d) =
    let rest = delete id d in if same_cell (text j) id then d else (j, rec) ∷ rest

-- `list(d.values())`: from the first that was inserted
unfoldable pub values_onto : List DemoRecord → Records → List DemoRecord
values_onto acc [] = acc
values_onto acc ((j, rec) ∷ d) = values_onto (rec ∷ acc) d

pub record DemoPool : Type 0 where
  pub connections : Records
  pub jobs : Records

-- The method of the pool that is called.
pub data Mode : Type 0 where
  fetchrow fetch fetchval execute : Mode

-- What a statement returns: None, a row, rows, a value, a number, a status line such as
-- `UPDATE 1`, or what it raises.
pub data Answer : Type 0 where
  nothing : Answer
  row : DemoRecord → Answer
  rows : List DemoRecord → Answer
  value : Cell → Answer
  count : ℕ → Answer
  status_line : String → ℕ → Answer
  raises : String → Answer
