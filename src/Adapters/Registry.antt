-- ===== src/Adapters/Registry.antt =====
-- adapters.py: `get_adapter`, `apply_time_field_override` and the schema of `BaseAdapter`.
use databridge.Base.{
  ℕ, zero, suc, ◌+◌, ◌-◌, ◌*◌, Bool, true, false, Option, none, some, List, [], ◌∷◌, ◌++◌, String,
  str_eq, leb, if◌then◌else◌,
}
use databridge.Base.Lists.{length}
use databridge.Value.{Value, Codec, text, Entries, put}
use databridge.Sink.{Try, returns, raises}
use databridge.Sampling.{round}
use databridge.Jobs.{Instant, days}
use databridge.Adapters.Schema.{SchemaFields, infer_schema, infer_schema_nested}

-- The classes of `_REGISTRY`.
pub data AdapterClass : Type 0 where
  clickhouse trino langfuse dataset s3 : AdapterClass

-- `_REGISTRY.get(source_type)`
unfoldable pub registered : String → Option AdapterClass
registered type =
    if str_eq type "clickhouse"
    then some clickhouse
    else if str_eq type "trino"
    then some trino
    else if str_eq type "langfuse"
    then some langfuse
    else if str_eq type "dataset"
    then some dataset
    else if str_eq type "s3"
    then some s3
    else none

abbrev supports_time_field : AdapterClass → Bool
supports_time_field langfuse = false
supports_time_field _ = true

-- An adapter, with the credentials that it was made with.
pub record BoundAdapter : Type 0 where
  pub adapter_class : AdapterClass
  pub creds : Entries

abbrev bind_class : Entries → Option AdapterClass → Try BoundAdapter
bind_class creds none = raises "ValueError"
bind_class creds (some k) = returns (record { adapter_class = k; creds = creds })

-- `get_adapter`
unfoldable pub get_adapter : String → Entries → Try BoundAdapter
get_adapter type creds = bind_class creds (registered type)

-- `apply_time_field_override`
unfoldable pub apply_time_field_override : BoundAdapter → String → Option String → Try BoundAdapter
apply_time_field_override adapter type none = returns adapter
apply_time_field_override adapter type (some time_field) =
    if supports_time_field adapter.adapter_class
    then get_adapter type (put "timestamp_column" (text time_field) adapter.creds)
    else returns adapter

-- `start + (end - start) / 5 * i`: the fifth is rounded to microseconds, a half to the even side,
-- and is negative if the end is before the start
unfoldable pub slice_bound : Instant → Instant → ℕ → Instant
unfolding round
slice_bound start end i =
    if leb start end
    then start + round (record { numerator = end - start; denominator = 5 }) * i
    else start - round (record { numerator = start - end; denominator = 5 }) * i

-- What `preview("", start, end, limit)` of an adapter does.
abbrev Preview : Type 0
Preview = Option Instant → Option Instant → ℕ → Try (List Value)

-- The records of the five previews that returned.
abbrev sampled : Try (List Value) → List Value → List Value
sampled (returns vs) more = vs ++ more
sampled (raises e) more = more

unfoldable pub slices : Preview → Instant → Instant → ℕ → ℕ → List Value
slices preview start end i zero = []
slices preview start end i (suc n) =
    sampled (preview (some (slice_bound start end i)) (some (slice_bound start end (i + 1))) 1)
      (slices preview start end (i + 1) n)

abbrev or_preview : Preview → List Value → Try (List Value)
or_preview preview [] = preview none none 20
or_preview preview (v ∷ vs) = returns (v ∷ vs)

abbrev inferred : (List Value → SchemaFields) → Try (List Value) → Try (SchemaFields × ℕ)
inferred infer (raises e) = raises e
inferred infer (returns vs) = returns (infer vs, length vs)

abbrev infer_with : Codec → Bool → List Value → SchemaFields
infer_with c true vs = infer_schema_nested c vs
infer_with c false vs = infer_schema vs

-- The time range that the schema is sampled from; a start with no end is a TypeError.
abbrev range_of : Instant → Option Instant → Option Instant → Try (Instant × Instant)
range_of now none end = returns (now - days 1, now)
range_of now (some start) (some end) = returns (start, end)
range_of now (some start) none = raises "TypeError"

abbrev schema_in : Codec → Preview → Bool → Try (Instant × Instant) → Try (SchemaFields × ℕ)
schema_in c preview nested (raises e) = raises e
schema_in c preview nested (returns (start, end)) =
    inferred (infer_with c nested) (or_preview preview (slices preview start end 0 5))

-- `BaseAdapter.schema`, at the instant `now`
unfoldable pub schema :
    Codec → Preview → Instant → Option Instant → Option Instant → Bool → Try (SchemaFields × ℕ)
schema c preview now start end nested = schema_in c preview nested (range_of now start end)

-- `S3ConnectionAdapter.schema`
unfoldable pub s3_schema :
    Codec → Preview → Option Instant → Option Instant → Bool → Try (SchemaFields × ℕ)
s3_schema c preview start end nested = inferred (infer_with c nested) (preview start end 20)
