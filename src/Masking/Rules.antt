-- ===== src/Masking/Rules.antt =====
-- The rules of a job, one after the other (`apply_masking`).
use databridge.Base.{
  ◌≡◌, ◌≢◌, refl, ◌∙◌, some, List, [], ◌∷◌, String, arith, Option-cases, inl, inr, eq_iff,
}
use databridge.Base.Lists.{All}
use databridge.Base.Text.{split, is_digits, int_of}
use databridge.Value.{
  Value, Codec, list, dict, Entries, get, put, remove, Items, nil, cons, item_at, del_item,
  set_item,
}
use databridge.Value.Fields.{get-put, get-remove}
use databridge.Extraction.{
  Loc, at_index, at_key, decode, locate, decode_and_index, child, resolve_field_path, found_child,
}
use databridge.Masking.{
  MaskingAction, MaskingRule, mask, hash, drop, redact, set_child, del_child, apply_action,
  reserialize, located_value, apply_at_path, apply_masking,
}
use databridge.Masking.Laws.{located_lem}

-- The entry of another key after a write or a deletion at `p`.
set_child-other :
    (fs : Entries) (p j : String) (l : Loc) (w : Value)
    → p ≢ j
    → locate (dict fs) p ≡ some l
    → (gs : Entries) × (set_child (dict fs) l w ≡ dict gs) × (get j gs ≡ get j fs)
unfolding locate set_child
set_child-other fs p j (at_index i) w ne h = absurd (ground arith)
set_child-other fs p j (at_key k) w ne h =
    (put k w fs, refl, ground (arith, get-put k j w fs, eq_iff k j, eq_iff p j))

del_child-other :
    (fs : Entries) (p j : String) (l : Loc)
    → p ≢ j
    → locate (dict fs) p ≡ some l
    → (gs : Entries) × (del_child (dict fs) l ≡ dict gs) × (get j gs ≡ get j fs)
unfolding locate del_child
del_child-other fs p j (at_index i) ne h = absurd (ground arith)
del_child-other fs p j (at_key k) ne h =
    (remove k fs, refl, ground (arith, get-remove k j fs, eq_iff k j, eq_iff p j))

abbrev SameAt : String → Entries → Value → Type 0
SameAt j fs v = (gs : Entries) × (v ≡ dict gs) × (get j gs ≡ get j fs)

action-other :
    (c : Codec) (fs : Entries) (p j : String) (l : Loc) (a : MaskingAction) (w : Value)
    → p ≢ j
    → locate (dict fs) p ≡ some l
    → SameAt j fs (apply_action c (dict fs) l a w)
unfolding apply_action
action-other c fs p j l mask w ne h = set_child-other fs p j l _ ne h
action-other c fs p j l hash w ne h = set_child-other fs p j l _ ne h
action-other c fs p j l drop w ne h = del_child-other fs p j l ne h
action-other c fs p j l redact w ne h = set_child-other fs p j l _ ne h

dict_is_decoded : (c : Codec) (fs : Entries) (d : Value) → decode c (dict fs) ≡ some d → d ≡ dict fs
unfolding decode
dict_is_decoded c fs d h = cc

apply_at_path-other :
    (c : Codec) (fs : Entries) (p : String) (ps : List String) (a : MaskingAction) (j : String)
    → p ≢ j
    → SameAt j fs (apply_at_path c (dict fs) p ps a).0
unfolding apply_at_path reserialize
apply_at_path-other c fs p [] a j ne =
    elim (Option-cases (located_value (decode_and_index c (dict fs) p))) [
      | inl e ↦ rw e (fs, refl, refl)
      | inr ((d, l, w), e) ↦
          let (hd, hl, hc) = located_lem c (dict fs) p d l w e in
          let same = dict_is_decoded c fs d hd in
          rw (e, same) (action-other c fs p j l a w ne (rw same at hl))
    ]
apply_at_path-other c fs p (q ∷ qs) a j ne =
    elim (Option-cases (located_value (decode_and_index c (dict fs) p))) [
      | inl e ↦ rw e (fs, refl, refl)
      | inr ((d, l, w), e) ↦
          let (hd, hl, hc) = located_lem c (dict fs) p d l w e in
          let same = dict_is_decoded c fs d hd in
          rw (e, same) (set_child-other fs p j l (apply_at_path c w q qs a).0 ne (rw same at hl))
    ]

-- No rule's path begins with this key.
abbrev Unnamed : String → List MaskingRule → Type 0
Unnamed j = All (λ r. (split b'.' r.field_path).0 ≢ j)

-- Masking a record leaves a record, with the entry of every key that no rule's path begins with
-- exactly as it was.
pub apply_masking-other :
    (c : Codec) (fs : Entries) (j : String) (rules : List MaskingRule)
    → Unnamed j rules
    → (gs : Entries) × (apply_masking c (dict fs) rules ≡ dict gs) × (get j gs ≡ get j fs)
unfolding apply_masking
apply_masking-other c fs j [] h = (fs, refl, refl)
apply_masking-other c fs j (rule ∷ rules) h =
    let (p, ps) = split b'.' rule.field_path in
    let (gs, eg, same) = apply_at_path-other c fs p ps rule.action j h.0 in
    let (ks, ek, same') = apply_masking-other c gs j rules h.1 in (ks, rw eg ek, same' ∙ same)

-- Two rules on one list, the first of which drops item 0, the second for item 1: the item that
-- was item 1 moves to index 0 before the second rule runs, so it is left as it was.
pub drop_shifts_items :
    (c : Codec) (u v : Value) (xs : Items) (a : MaskingAction)
    → a ≢ drop
    → resolve_field_path c
        (apply_masking c (list (cons u (cons v xs))) (
          record { field_path = "0"; action = drop }
          ∷ record { field_path = "1"; action = a }
          ∷ []))
        ("0" ∷ [])
      ≡ some v
unfolding resolve_field_path found_child apply_masking apply_at_path split located_value
    decode_and_index decode locate child apply_action del_child set_child del_item set_item item_at
    reserialize is_digits int_of
drop_shifts_items c u v nil a h = ground arith
drop_shifts_items c u v (cons w xs) mask h = ground arith
drop_shifts_items c u v (cons w xs) hash h = ground arith
drop_shifts_items c u v (cons w xs) redact h = ground arith
drop_shifts_items c u v (cons w xs) drop h = absurd (h refl)
