-- ===== src/Tests/Records.antt =====
-- Extraction, masking and the datasink checks on small records.
use databridge.Base.{◌≡◌, refl, true, none, some, [], ◌∷◌, arith, str_eq, eq_iff, if◌then◌else◌}
use databridge.Base.Text.{split}
use databridge.Value.{Codec, text, number, list, dict, nil, cons, Entries, done, entry, get, put}
use databridge.Extraction.{
  decode, locate, decode_and_index, child, found_child, resolve_field_path, extract_field_value,
}
use databridge.Masking.{
  mask, drop, set_child, apply_action, reserialize, located_value, apply_at_path, apply_masking,
}
use databridge.Masking.Laws.{resolve-apply_at_path}
use databridge.Masking.Rules.{apply_masking-other, drop_shifts_items}
use databridge.Config.Validation.{
  check_datasink, check_datasink-Complete, keys_valid, datasink_valid_keys, Complete, class_of,
  sink_type, has,
}

abbrev body : Entries
body = entry "email" (text "a@b.c") (entry "n" (number "1") done)

abbrev masked_body : Entries
masked_body = entry "email" (text "***") (entry "n" (number "1") done)

-- A stand-in for the standard library: two texts are JSON.
abbrev pub codec : Codec
codec = record {
  loads = λ s.
      if str_eq s "plain"
      then some (dict body)
      else if str_eq s "masked"
      then some (dict masked_body)
      else none;
  dumps = λ v. "masked";
  show = λ v. "shown";
  sha256_hex = λ s. "digest";
}

abbrev sample_record : Entries
sample_record = entry "id" (number "7") (entry "body" (text "plain") done)

masks_inside_json :
    apply_masking codec
      (dict sample_record)
      (record { field_path = "body.email"; action = mask } ∷ [])
    ≡ dict (entry "id" (number "7") (entry "body" (text "masked") done))
unfolding apply_masking apply_at_path split located_value decode_and_index decode locate child
    apply_action set_child put get reserialize
masks_inside_json = refl

extracts_body : extract_field_value codec (dict sample_record) "body" ≡ some (dict body)
unfolding extract_field_value split resolve_field_path found_child decode_and_index decode locate
    child get
extracts_body = refl

resolve-apply_at_path_example :
    resolve_field_path codec
      (apply_at_path codec (dict sample_record) "body" ("email" ∷ []) mask).0
      ("body" ∷ "email" ∷ [])
    ≡ some (text "***")
unfolding resolve_field_path found_child decode_and_index decode locate child get put located_value
    set_child apply_action apply_at_path
resolve-apply_at_path_example =
    resolve-apply_at_path codec (dict sample_record) "body" ("email" ∷ []) mask (text "a@b.c") refl
      (ground arith) (tt, refl)

apply_masking-other_example :
    (gs : Entries) × (apply_masking codec
        (dict sample_record)
        (record { field_path = "body.email"; action = drop } ∷ [])
      ≡ dict gs)
    × (get "id" gs ≡ get "id" sample_record)
unfolding split
apply_masking-other_example =
    apply_masking-other codec sample_record "id"
      (record { field_path = "body.email"; action = drop } ∷ [])
      (ground (arith, eq_iff "body" "id"), tt)

drop_shifts_items_example :
    resolve_field_path codec
      (apply_masking codec (list (cons (text "a") (cons (text "secret") (cons (text "c") nil)))) (
        record { field_path = "0"; action = drop }
        ∷ record { field_path = "1"; action = mask }
        ∷ []))
      ("0" ∷ [])
    ≡ some (text "secret")
drop_shifts_items_example =
    drop_shifts_items codec (text "a") (text "secret") (cons (text "c") nil) mask (ground arith)

abbrev sink_entry : Entries
sink_entry =
    entry "name" (text "out") (entry "type" (text "s3-zip") (entry "bucket" (text "b") done))

check_datasink-Complete_example :
    (keys_valid datasink_valid_keys sink_entry ≡ true)
    × Complete (class_of (sink_type sink_entry)) sink_entry
unfolding check_datasink keys_valid sink_type has get
check_datasink-Complete_example = check_datasink-Complete sink_entry refl
