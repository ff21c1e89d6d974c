-- ===== src/Adapters/Schema/First.antt =====
-- adapters.py: what `_infer_schema` says of a field.
use mathlib.Core.Option
use databridge.Base.{
  ◌≡◌, refl, ap, sym, ◌∙◌, Bool, true, false, Option, none, some, List, [], ◌∷◌, ◌++◌, String,
  str_eq, is_some, arith, if◌then◌else◌, Bool-cases, inl, inr, eq_iff, str_eq_self,
}
use databridge.Value.{Value, Entries, null, boolean, number, text, list, dict, done, entry, get}
use databridge.Adapters.Schema.{
  SchemaField, field_of, SchemaFields, field_at, is_hidden, add_visible, add_entries, add_record,
  infer_from, infer_schema,
}

abbrev first_some {ℓ} : {A : Type ℓ} → Option A → Option A → Option A
first_some (some a) o = some a
first_some none o = o

abbrev entry_value : String → Value → Option Value
entry_value k (dict fs) = get k fs
entry_value k v = none

-- The value of a key in the first dict that has it.
unfoldable pub first_value : String → List Value → Option Value
first_value k [] = none
first_value k (v ∷ vs) = first_some (entry_value k v) (first_value k vs)

field_at-append :
    (k j : String) (f : SchemaField) (schema : SchemaFields)
    → field_at k (schema ++ (j, f) ∷ [])
      ≡ first_some (field_at k schema) (if str_eq j k then some f else none)
unfolding field_at
field_at-append k j f [] = refl
field_at-append k j f ((i, g) ∷ schema) = ground (arith, field_at-append k j f schema)

first_some-none {ℓ} : {A : Type ℓ} (o : Option A) → first_some o none ≡ o
first_some-none none = refl
first_some-none (some a) = refl

first_some_assoc {ℓ} :
    {A : Type ℓ} (a b c : Option A) → first_some (first_some a b) c ≡ first_some a (first_some b c)
first_some_assoc none b c = refl
first_some_assoc (some a) b c = refl

map-first_some {ℓ κ} :
    {A : Type ℓ} {B : Type κ} (f : A → B) (a b : Option A)
    → Option.map f (first_some a b) ≡ first_some (Option.map f a) (Option.map f b)
map-first_some f none b = refl
map-first_some f (some a) b = refl

module _ (k : String) (visible : is_hidden k ≡ false) where
  field_at-add_visible :
      (j : String) (v : Value) (schema : SchemaFields)
      → field_at k (add_visible j v schema)
        ≡ first_some (field_at k schema) (if str_eq j k then some (field_of v) else none)
  field_at-add_visible j v schema = elim (Bool-cases (str_eq j k)) [
    | inl e ↦
        let same : j ≡ k = (eq_iff j k).0 e in
        rw (same, visible, str_eq_self k) (own (field_at k schema) refl)
    | inr e ↦ rw (e, first_some-none) (other e (is_hidden j) (is_some (field_at j schema)))
  ]
    where
      own :
          (o : Option SchemaField)
          → field_at k schema ≡ o
          → field_at k (if is_some o then schema else schema ++ (k, field_of v) ∷ [])
            ≡ first_some o (some (field_of v))
      own none h = field_at-append k k (field_of v) schema ∙ rw (h, str_eq_self k) refl
      own (some f) h = h

      other :
          str_eq j k ≡ false
          → (hidden found : Bool)
          → field_at k
              (if hidden then schema else if found then schema else schema ++ (j, field_of v) ∷ [])
            ≡ field_at k schema
      other e true found = refl
      other e false true = refl
      other e false false =
          field_at-append k j (field_of v) schema ∙ rw e (first_some-none (field_at k schema))

  entry_first :
      (j : String) (v : Value) (fs : Entries)
      → first_some (if str_eq j k then some (field_of v) else none) (Option.map field_of (get k fs))
        ≡ Option.map field_of (if str_eq j k then some v else get k fs)
  entry_first j v fs = elim (Bool-cases (str_eq j k)) [ inl e ↦ rw e refl | inr e ↦ rw e refl ]

  field_at-add_entries :
      (fs : Entries) (schema : SchemaFields)
      → field_at k (add_entries fs schema)
        ≡ first_some (field_at k schema) (Option.map field_of (get k fs))
  unfolding add_entries get
  field_at-add_entries done schema = sym (first_some-none (field_at k schema))
  field_at-add_entries (entry j v fs) schema =
      field_at-add_entries fs (add_visible j v schema)
      ∙ (rw (field_at-add_visible j v schema) (
            first_some_assoc (field_at k schema) (if str_eq j k then some (field_of v) else none)
              (Option.map field_of (get k fs)))
          ∙ ap (first_some (field_at k schema)) (entry_first j v fs))

  field_at-add_record :
      (v : Value) (schema : SchemaFields)
      → field_at k (add_record v schema)
        ≡ first_some (field_at k schema) (Option.map field_of (entry_value k v))
  field_at-add_record (dict fs) schema = field_at-add_entries fs schema
  field_at-add_record null schema = sym (first_some-none (field_at k schema))
  field_at-add_record (boolean b) schema = sym (first_some-none (field_at k schema))
  field_at-add_record (number t) schema = sym (first_some-none (field_at k schema))
  field_at-add_record (text s) schema = sym (first_some-none (field_at k schema))
  field_at-add_record (list xs) schema = sym (first_some-none (field_at k schema))

  field_at-infer_from :
      (vs : List Value) (schema : SchemaFields)
      → field_at k (infer_from schema vs)
        ≡ first_some (field_at k schema) (Option.map field_of (first_value k vs))
  unfolding infer_from first_value
  field_at-infer_from [] schema = sym (first_some-none (field_at k schema))
  field_at-infer_from (v ∷ vs) schema =
      field_at-infer_from vs (add_record v schema)
      ∙ (rw (field_at-add_record v schema) (
            first_some_assoc (field_at k schema) (Option.map field_of (entry_value k v))
              (Option.map field_of (first_value k vs)))
          ∙ ap (first_some (field_at k schema))
              (sym (map-first_some field_of (entry_value k v) (first_value k vs))))

-- The schema of records has, under a key that does not begin with an underscore, the type and the
-- example of the value that the first record with this key has there, and nothing if no record has
-- it; what is no dict counts for nothing.
pub infer_schema-first :
    (k : String) (records : List Value)
    → is_hidden k ≡ false
    → field_at k (infer_schema records) ≡ Option.map field_of (first_value k records)
unfolding infer_schema field_at
infer_schema-first k records visible = field_at-infer_from k visible records []
