-- ===== src/Connections/Owners.antt =====
-- The statements that name an owner touch that owner's rows only.
use databridge.Base.{
  ◌≡◌, refl, Bool, true, false, not, Option, none, some, [], ◌∷◌, String, str_eq, arith, is_some,
  ◌||◌,
}
use databridge.Base.Lists.{keep_if}
use databridge.Jobs.{Instant}
use databridge.Connections.{
  Connection, ConnectionTable, is_own, update_rows, get_connection, update_connection, update_own,
  delete_connection, set_connection,
}

-- The rows of everyone else, in the table's order.
abbrev pub others_rows : String → ConnectionTable → ConnectionTable
others_rows owner_key rows = keep_if (λ row. not (str_eq row.owner_key owner_key)) rows

-- The row that is read belongs to the owner and has the id.
pub get_connection-own :
    (id owner_key : String) (rows : ConnectionTable) (row : Connection)
    → get_connection id owner_key rows ≡ some row
    → is_own id owner_key row ≡ true
unfolding get_connection
get_connection-own id owner_key [] row h = cc
get_connection-own id owner_key (r ∷ rows) row h =
    ground (arith, get_connection-own id owner_key rows row)

others-update_rows :
    (id owner_key : String) (f : Connection → Connection) (rows : ConnectionTable)
    → ((row : Connection) → (f row).owner_key ≡ row.owner_key)
    → others_rows owner_key (update_rows (is_own id owner_key) f rows) ≡ others_rows owner_key rows
unfolding update_rows
others-update_rows id owner_key f [] keep = refl
others-update_rows id owner_key f (r ∷ rows) keep =
    ground (arith, keep r, others-update_rows id owner_key f rows keep)

pub others-update_connection :
    (id owner_key : String) (label enc : Option String) (now : Instant) (rows : ConnectionTable)
    → others_rows owner_key (update_connection id owner_key label enc now rows).0
      ≡ others_rows owner_key rows
unfolding update_connection
others-update_connection id owner_key label enc now rows = by_change (is_some label || is_some enc)
  where
    same :
        (l e : Option String) (row : Connection)
        → (set_connection l e now row).owner_key ≡ row.owner_key
    same none none row = refl
    same none (some e) row = refl
    same (some l) none row = refl
    same (some l) (some e) row = refl

    by_change :
        (b : Bool)
        → others_rows owner_key (update_own b id owner_key (set_connection label enc now) rows).0
          ≡ others_rows owner_key rows
    by_change true = others-update_rows id owner_key _ rows (same label enc)
    by_change false = refl

pub others-delete_connection :
    (id owner_key : String) (rows : ConnectionTable)
    → others_rows owner_key (delete_connection id owner_key rows) ≡ others_rows owner_key rows
unfolding delete_connection
others-delete_connection id owner_key [] = refl
others-delete_connection id owner_key (r ∷ rows) =
    ground (arith, others-delete_connection id owner_key rows)
