-- ===== src/Masking/Laws.antt =====
-- One masking rule: when it applies, and what a reader of the masked record finds.
use mathlib.Core.Path.{subst}
use databridge.Base.{
  ◌≡◌, ◌≢◌, refl, Bool, true, false, Option, none, some, List, [], ◌∷◌, String, arith, ◌∙◌, sym,
  is_some, Option-cases, inl, inr, str_eq_self,
}
use databridge.Value.{Value, Codec, null, boolean, number, text, list, dict, is_structured}
use databridge.Value.Fields.{item_at-set_item, count-set_item, get-put}
use databridge.Extraction.{
  Loc, at_index, at_key, decode, locate, decode_and_index, child, found_child, resolve_field_path,
}
use databridge.Masking.{
  MaskingAction, mask, hash, drop, redact, set_child, apply_action, reserialize, located_value,
  apply_at_path,
}

-- What the descent found: the decoded node, the location in it and the value there.
pub located_lem :
    (c : Codec) (v : Value) (p : String) (d : Value) (l : Loc) (w : Value)
    → located_value (decode_and_index c v p) ≡ some (d, l, w)
    → (decode c v ≡ some d) × (locate d p ≡ some l) × (child d l ≡ some w)
unfolding decode_and_index located_value
located_lem c v p d l w h = ground arith

found_child-none : (r : Value × Loc × Bool) → located_value r ≡ none → found_child r ≡ none
unfolding found_child located_value
found_child-none (d, l, true) h = ground arith
found_child-none (d, l, false) h = refl

found_child-some :
    (r : Value × Loc × Bool) (d : Value) (l : Loc) (w : Value)
    → located_value r ≡ some (d, l, w)
    → found_child r ≡ some w
unfolding found_child located_value
found_child-some (d', l', true) d l w h = ground arith
found_child-some (d', l', false) d l w h = cc

-- A rule is applied exactly when its path resolves.
apply_at_path-found :
    (c : Codec) (v : Value) (p : String) (ps : List String) (a : MaskingAction)
    → (apply_at_path c v p ps a).1 ≡ is_some (resolve_field_path c v (p ∷ ps))
unfolding apply_at_path resolve_field_path
apply_at_path-found c v p [] a = elim (Option-cases (located_value (decode_and_index c v p))) [
  | inl e ↦ rw (e, found_child-none _ e)
  | inr (t, e) ↦ rw (e, found_child-some _ t.0 t.1 t.2 e)
]
apply_at_path-found c v p (q ∷ qs) a =
    elim (Option-cases (located_value (decode_and_index c v p))) [
      | inl e ↦ rw (e, found_child-none _ e)
      | inr (t, e) ↦ rw (e, found_child-some _ t.0 t.1 t.2 e) (apply_at_path-found c t.2 q qs a)
    ]

-- What a write at a found location leaves: the key is found there, with the value that was written.
locate-set_child :
    (d : Value) (p : String) (l : Loc) (w : Value)
    → locate d p ≡ some l
    → (locate (set_child d l w) p ≡ some l)
      × (child (set_child d l w) l ≡ some w)
      × (is_structured (set_child d l w) ≡ true)
unfolding locate child set_child
locate-set_child (list xs) p (at_index i) w h =
    ground (arith, item_at-set_item i w xs, count-set_item i w xs)
locate-set_child (list xs) p (at_key k) w h = ground arith
locate-set_child (dict fs) p (at_index i) w h = ground arith
locate-set_child (dict fs) p (at_key k) w h =
    ground (arith, get-put k p w fs, get-put k k w fs, str_eq_self k, str_eq_self p)
locate-set_child null p l w h = absurd (cc)
locate-set_child (boolean b) p l w h = absurd (cc)
locate-set_child (number t) p l w h = absurd (cc)
locate-set_child (text t) p l w h = absurd (cc)

-- `json.loads` reads a rewritten text node back.
abbrev ReadsBack : Codec → Value → Value → Type 0
ReadsBack c (text s) node = c.loads (c.dumps node) ≡ some node
ReadsBack c container node = Unit

decode-reserialize :
    (c : Codec) (v node : Value)
    → ReadsBack c v node
    → is_structured node ≡ true
    → decode c (reserialize c v node) ≡ some node
unfolding decode reserialize
decode-reserialize c (text s) node h k = h
decode-reserialize c null (list xs) h k = refl
decode-reserialize c v (list xs) h k = ground arith
decode-reserialize c v (dict fs) h k = ground arith
decode-reserialize c v node h k = ground arith

-- A node that holds `w` at the location of the key, written back, is walked to `w`.
decode_and_index_lem :
    (c : Codec) (v node : Value) (p : String) (l : Loc)
    → decode c v ≡ some node
    → locate node p ≡ some l
    → decode_and_index c v p ≡ (node, l, true)
unfolding decode_and_index
decode_and_index_lem c v node p l hd hl = ground arith

resolve-step :
    (c : Codec) (v node : Value) (p : String) (l : Loc) (w : Value) (ps : List String)
    → decode c v ≡ some node
    → locate node p ≡ some l
    → child node l ≡ some w
    → resolve_field_path c v (p ∷ ps) ≡ resolve_field_path c w ps
unfolding resolve_field_path found_child
resolve-step c v node p l w ps hd hl hc = rw (decode_and_index_lem c v node p l hd hl, hc)

resolve-last :
    (c : Codec) (v node : Value) (p : String) (l : Loc) (w : Value)
    → decode c v ≡ some node
    → locate node p ≡ some l
    → child node l ≡ some w
    → resolve_field_path c v (p ∷ []) ≡ some w
unfolding resolve_field_path
resolve-last c v node p l w hd hl hc = resolve-step c v node p l w [] hd hl hc

resolve-missing :
    (c : Codec) (v : Value) (p : String) (ps : List String) (old : Value)
    → located_value (decode_and_index c v p) ≡ none
    → resolve_field_path c v (p ∷ ps) ≡ some old
    → ⊥
unfolding resolve_field_path
resolve-missing c v p ps old e h = cc (rw (found_child-none _ e) at h)

-- What a masked value is replaced by, where the action keeps a value.
abbrev replacement : Codec → MaskingAction → Value → Value
replacement c mask v = text "***"
replacement c hash v = text (c.sha256_hex (c.show v))
replacement c drop v = v
replacement c redact v = text "[REDACTED]"

abbrev ForFound : Option (Value × Loc × Value) → (Value × Loc × Value → Type 0) → Type 0
ForFound none P = Unit
ForFound (some t) P = P t

-- Each text that holds JSON on the path is read back after it is written.
abbrev WritesBack : Codec → Value → String → List String → MaskingAction → Type 0
WritesBack c v p [] a =
    ForFound (located_value (decode_and_index c v p))
      (λ (d, l, w). ReadsBack c v (apply_action c d l a w))
WritesBack c v p (q ∷ qs) a = ForFound (located_value (decode_and_index c v p)) (λ (d, l, w).
    ReadsBack c v (set_child d l (apply_at_path c w q qs a).0) × WritesBack c w q qs a)

apply_action-set :
    (c : Codec) (d : Value) (l : Loc) (a : MaskingAction) (w : Value)
    → a ≢ drop
    → apply_action c d l a w ≡ set_child d l (replacement c a w)
unfolding apply_action
apply_action-set c d l mask w h = refl
apply_action-set c d l hash w h = refl
apply_action-set c d l drop w h = absurd (h refl)
apply_action-set c d l redact w h = refl

replaced :
    (c : Codec) (a : MaskingAction) (w old : Value)
    → some w ≡ some old
    → some (replacement c a w) ≡ some (replacement c a old)
replaced c a w old h = cc

-- Where the path resolves to `old` and the action is not `drop`, the path of the masked container
-- resolves to the replacement of `old`, provided that each text on the path which held JSON is
-- read back as it was written.
pub resolve-apply_at_path :
    (c : Codec) (v : Value) (p : String) (ps : List String) (a : MaskingAction) (old : Value)
    → resolve_field_path c v (p ∷ ps) ≡ some old
    → a ≢ drop
    → WritesBack c v p ps a
    → resolve_field_path c (apply_at_path c v p ps a).0 (p ∷ ps) ≡ some (replacement c a old)
unfolding apply_at_path
resolve-apply_at_path c v p [] a old h n k =
    elim (Option-cases (located_value (decode_and_index c v p))) [
      | inl e ↦ absurd (resolve-missing c v p [] old e h)
      | inr ((d, l, w), e) ↦
          let (hd, hl, hc) = located_lem c v p d l w e in
          let (gl, gc, gs) = locate-set_child d p l (replacement c a w) hl in
          let same : apply_action c d l a w ≡ set_child d l (replacement c a w) =
            apply_action-set c d l a w n in
          let back : ReadsBack c v (set_child d l (replacement c a w)) =
            subst (λ x. ReadsBack c v x) same (rw e at k) in
          rw (e, same)
            (resolve-last c _ _ p l (replacement c a w)
                (decode-reserialize c v (set_child d l (replacement c a w)) back gs) gl gc
              ∙ replaced c a w old (sym (resolve-last c v d p l w hd hl hc) ∙ h))
    ]
resolve-apply_at_path c v p (q ∷ qs) a old h n k =
    elim (Option-cases (located_value (decode_and_index c v p))) [
      | inl e ↦ absurd (resolve-missing c v p (q ∷ qs) old e h)
      | inr ((d, l, w), e) ↦
          let (hd, hl, hc) = located_lem c v p d l w e in
          let w' : Value = (apply_at_path c w q qs a).0 in
          let (back, deeper) = rw e at k in
          let (gl, gc, gs) = locate-set_child d p l w' hl in
          rw e (
            resolve-step c _ _ p l w' (q ∷ qs) (decode-reserialize c v (set_child d l w') back gs)
              gl gc
            ∙ resolve-apply_at_path c w q qs a old
                (sym (resolve-step c v d p l w (q ∷ qs) hd hl hc) ∙ h) n deeper)
    ]
