-- ===== src/Masking.antt =====
-- export/masking.py: an action applied at a dotted path, and the rules of a job.
pub mod Laws
pub mod Rules
use databridge.Base.{
  ℕ, suc, Bool, true, false, Option, none, some, List, [], ◌∷◌, String, if◌then◌else◌,
}
use databridge.Base.Text.{split}
use databridge.Value.{
  Value, Codec, null, boolean, number, text, list, dict, set_item, del_item, put, remove,
}
use databridge.Extraction.{Loc, at_index, at_key, decode_and_index, child}

pub data MaskingAction : Type 0 where
  mask hash drop redact : MaskingAction

pub record MaskingRule : Type 0 where
  pub field_path : String
  pub action : MaskingAction

-- `node[key] = w`
unfoldable pub set_child : Value → Loc → Value → Value
set_child (list xs) (at_index i) w = list (set_item i w xs)
set_child (dict fs) (at_key k) w = dict (put k w fs)
set_child v l w = v

-- `del node[key]`
unfoldable pub del_child : Value → Loc → Value
del_child (list xs) (at_index i) = list (del_item i xs)
del_child (dict fs) (at_key k) = dict (remove k fs)
del_child v l = v

-- `_apply_action` on a value that is there: the node as it is after the mutation
unfoldable pub apply_action : Codec → Value → Loc → MaskingAction → Value → Value
apply_action c node l mask value = set_child node l (text "***")
apply_action c node l hash value = set_child node l (text (c.sha256_hex (c.show value)))
apply_action c node l drop value = del_child node l
apply_action c node l redact value = set_child node l (text "[REDACTED]")

-- A container that was a text is written back as a text.
unfoldable pub reserialize : Codec → Value → Value → Value
reserialize c (text s) node = text (c.dumps node)
reserialize c container node = node

unfoldable pub located_value : Value × Loc × Bool → Option (Value × Loc × Value)
located_value (d, l, true) = elim (child d l) [ none ↦ none | some v ↦ some (d, l, v) ]
located_value (d, l, false) = none

-- `if not found: return container, False`
abbrev or_unchanged :
    Value → Option (Value × Loc × Value) → (Value × Loc × Value → Value × Bool) → Value × Bool
or_unchanged container none f = (container, false)
or_unchanged container (some t) f = f t

-- `_apply_at_path`, the path being `p ∷ ps`: the container, and whether the action was applied
unfoldable pub apply_at_path : Codec → Value → String → List String → MaskingAction → Value × Bool
apply_at_path c container p [] action =
    or_unchanged container (located_value (decode_and_index c container p))
      (λ (d, l, v). (reserialize c container (apply_action c d l action v), true))
apply_at_path c container p (q ∷ qs) action =
    or_unchanged container (located_value (decode_and_index c container p)) (λ (d, l, v).
      let (v', applied) = apply_at_path c v q qs action in
      (reserialize c container (set_child d l v'), applied))

-- `apply_masking`; the deep copy is the value itself
unfoldable pub apply_masking : Codec → Value → List MaskingRule → Value
apply_masking c result [] = result
apply_masking c result (rule ∷ rules) =
    let (p, ps) = split b'.' rule.field_path in
    apply_masking c (apply_at_path c result p ps rule.action).0 rules
