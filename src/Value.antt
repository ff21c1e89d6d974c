-- ===== src/Value.antt =====
-- The values that records are made of: what `json.loads` of the standard library returns.
pub mod Fields
use databridge.Base.{
  ℕ, zero, suc, ◌≡◌, Bool, true, false, Option, none, some, String, if◌then◌else◌, str_eq,
}

-- A number carries the text that Python's `str` gives it. A dict is its items in order, read by
-- the first entry of a key.
mutual
  pub data Value : Type 0 where
    null : Value
    boolean : Bool → Value
    number : String → Value
    text : String → Value
    list : Items → Value
    dict : Entries → Value

  pub data Items : Type 0 where
    nil : Items
    cons : Value → Items → Items

  pub data Entries : Type 0 where
    done : Entries
    entry : String → Value → Entries → Entries

-- What the program calls of the standard library on values: `json.loads` (`none` is a
-- JSONDecodeError), `json.dumps(…, ensure_ascii=False)`, `str` and `sha256(…).hexdigest()`.
pub record Codec : Type 0 where
  pub loads : String → Option Value
  pub dumps : Value → String
  pub show : Value → String
  pub sha256_hex : String → String

-- `isinstance(v, (dict, list))`
abbrev pub is_structured : Value → Bool
is_structured (list xs) = true
is_structured (dict fs) = true
is_structured _ = false

-- `if v` of Python; the texts of the numbers that are zero are these
abbrev pub truthy : Value → Bool
truthy null = false
truthy (boolean b) = b
truthy (number t) =
    if str_eq t "0"
    then false
    else if str_eq t "0.0"
    then false
    else if str_eq t "-0.0"
    then false
    else true
truthy (text s) = if str_eq s "" then false else true
truthy (list nil) = false
truthy (dict done) = false
truthy _ = true

abbrev pub count : Items → ℕ
count nil = 0
count (cons v xs) = suc (count xs)

unfoldable pub item_at : ℕ → Items → Option Value
item_at i nil = none
item_at zero (cons v xs) = some v
item_at (suc i) (cons v xs) = item_at i xs

unfoldable pub set_item : ℕ → Value → Items → Items
set_item i w nil = nil
set_item zero w (cons v xs) = cons w xs
set_item (suc i) w (cons v xs) = cons v (set_item i w xs)

-- `del xs[i]`
unfoldable pub del_item : ℕ → Items → Items
del_item i nil = nil
del_item zero (cons v xs) = xs
del_item (suc i) (cons v xs) = cons v (del_item i xs)

unfoldable pub get : String → Entries → Option Value
get k done = none
get k (entry j v fs) = let rest = get k fs in if str_eq j k then some v else rest

-- `d[k] = w`
unfoldable pub put : String → Value → Entries → Entries
put k w done = entry k w done
put k w (entry j v fs) =
    let rest = put k w fs in if str_eq j k then entry j w fs else entry j v rest

-- `del d[k]`
unfoldable pub remove : String → Entries → Entries
remove k done = done
remove k (entry j v fs) = let rest = remove k fs in if str_eq j k then rest else entry j v rest
