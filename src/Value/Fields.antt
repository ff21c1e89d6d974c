-- ===== src/Value/Fields.antt =====
-- Reading an item or an entry after a write.
use databridge.Base.{
  ℕ, zero, suc, ◌<◌, ◌≡◌, refl, ap, none, some, String, arith, eq_iff, str_eq, if◌then◌else◌,
}
use databridge.Value.{
  Value, Items, nil, cons, Entries, done, entry, count, item_at, set_item, del_item, get, put,
  remove,
}

pub item_at-set_item :
    (i : ℕ) (w : Value) (xs : Items) → i < count xs → item_at i (set_item i w xs) ≡ some w
unfolding item_at set_item
item_at-set_item i w nil h = absurd (omega arith)
item_at-set_item zero w (cons v xs) h = refl
item_at-set_item (suc i) w (cons v xs) h = item_at-set_item i w xs (omega arith)

pub count-set_item : (i : ℕ) (w : Value) (xs : Items) → count (set_item i w xs) ≡ count xs
unfolding set_item
count-set_item i w nil = refl
count-set_item zero w (cons v xs) = refl
count-set_item (suc i) w (cons v xs) = ap suc (count-set_item i w xs)

item_at-lt_count : (i : ℕ) (xs : Items) → i < count xs → (v : Value) × (item_at i xs ≡ some v)
unfolding item_at
item_at-lt_count i nil h = absurd (omega arith)
item_at-lt_count zero (cons v xs) h = (v, refl)
item_at-lt_count (suc i) (cons v xs) h = item_at-lt_count i xs (omega arith)

-- After `del xs[i]` the items behind move up by one.
item_at-del_item : (i : ℕ) (xs : Items) → item_at i (del_item i xs) ≡ item_at (suc i) xs
unfolding item_at del_item
item_at-del_item i nil = refl
item_at-del_item zero (cons v nil) = refl
item_at-del_item zero (cons v (cons w xs)) = refl
item_at-del_item (suc i) (cons v xs) = item_at-del_item i xs

pub get-put :
    (k j : String) (w : Value) (fs : Entries)
    → get j (put k w fs) ≡ (if str_eq k j then some w else get j fs)
unfolding get put
get-put k j w done = refl
get-put k j w (entry i v fs) = ground (arith, eq_iff k j, eq_iff i k, eq_iff i j, get-put k j w fs)

pub get-remove :
    (k j : String) (fs : Entries) → get j (remove k fs) ≡ (if str_eq k j then none else get j fs)
unfolding get remove
get-remove k j done = ground arith
get-remove k j (entry i v fs) =
    ground (arith, eq_iff k j, eq_iff i k, eq_iff i j, get-remove k j fs)
