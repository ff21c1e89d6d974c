-- ===== src/Extraction/Laws.antt =====
-- What the path walk returns.
use databridge.Base.{
  ◌≡◌, refl, true, some, List, [], ◌∷◌, ◌++◌, String, arith, then_option, Option-cases, inl, inr,
}
use databridge.Base.Text.{split}
use databridge.Value.{Value, Codec, text, is_structured}
use databridge.Extraction.{
  resolve_field_path, extract_field_value, found_child, decode_and_index, usable,
}

-- Walking a path in two parts is walking the first part and, if it resolves, the second from there.
resolve_field_path-append :
    (c : Codec) (v : Value) (ps qs : List String)
    → resolve_field_path c v (ps ++ qs)
      ≡ then_option (resolve_field_path c v ps) (λ w. resolve_field_path c w qs)
unfolding resolve_field_path
resolve_field_path-append c v [] qs = refl
resolve_field_path-append c v (p ∷ ps) qs =
    elim (Option-cases (found_child (decode_and_index c v p))) [
      | inl missing ↦ rw missing
      | inr (w, e) ↦ rw e (resolve_field_path-append c w ps qs)
    ]

usable-structured : (c : Codec) (v w : Value) → usable c v ≡ some w → is_structured w ≡ true
usable-structured c (text s) w h = ground arith
usable-structured c _ w h = ground arith

-- Whatever field extraction returns is a dict or a list.
extract_field_value-structured :
    (c : Codec) (v : Value) (path : String) (w : Value)
    → extract_field_value c v path ≡ some w
    → is_structured w ≡ true
unfolding extract_field_value
extract_field_value-structured c v path w h =
    let (key, rest) = split b'.' path in
    elim (Option-cases (resolve_field_path c v (key ∷ rest))) [
      | inl missing ↦ cc
      | inr (u, e) ↦ usable-structured c u w (rw e at h)
    ]
