-- ===== src/Routes/Connections/Explore/Own.antt =====
-- routes/connections.py: whose sources a preview reads, and how many URLs a test asks for.
use mathlib.Core.Option
use databridge.Base.{
  ℕ, ◌≡◌, ◌⊎◌, refl, sym, false, Option, none, some, List, String, str_eq, Bool-cases, inl, inr,
}
use databridge.Base.Lists.{take}
use databridge.Value.{Value}
use databridge.Config.{SystemSourceConfig, Settings}
use databridge.Routes.{ok, AuthContext}
use databridge.Connections.{Connection, ConnectionTable, get_connection}
use databridge.Adapters.Schema.{infer_schema, field_at, field_of, is_hidden}
use databridge.Adapters.Schema.First.{first_value, infer_schema-first}
use databridge.Routes.Connections.Explore.{
  Reply, answers, fails, not_implemented, Source, Sources, PreviewRequest, PreviewResponse,
  system_source, preview_connection, previewed, preview_of, safe_count, preview_row, preview_source,
}

-- What an answer holds, if the source is read: its records, the count or 0, and under each key that
-- does not begin with an underscore the field of the first of 20 records that has it.
abbrev pub ReadFrom : PreviewRequest → Source → PreviewResponse → Type 0
ReadFrom body source resp =
    (source.preview body.query body.start body.end body.limit body.sort_by ≡ answers resp.results)
    × (resp.total_count ≡ safe_count (source.count body.query body.start body.end))
    × ((k : String)
        → is_hidden k ≡ false
        → field_at k resp.schema_fields
          ≡ Option.map field_of (first_value k (take 20 resp.results)))

module _ (sources : Sources) (settings : Settings) (id : String) (auth : AuthContext)
    (table : ConnectionTable) (body : PreviewRequest) (resp : PreviewResponse) where
  read_from :
      (code' : ℕ) (source : Source)
      → preview_of sources settings id auth table code' body source ≡ ok resp
      → ReadFrom body source resp
  read_from code' source h =
      by_reply (source.preview body.query body.start body.end body.limit body.sort_by) h
    where
      by_reply :
          (r : Reply (List Value))
          → previewed sources settings id auth table code' r
              (source.count body.query body.start body.end)
            ≡ ok resp
          → (r ≡ answers resp.results)
            × (resp.total_count ≡ safe_count (source.count body.query body.start body.end))
            × ((k : String)
                → is_hidden k ≡ false
                → field_at k resp.schema_fields
                  ≡ Option.map field_of (first_value k (take 20 resp.results)))
      by_reply (answers results) e =
          let made : PreviewResponse = record {
            results = results;
            connection_id = id;
            total_count = safe_count (source.count body.query body.start body.end);
            schema_fields = infer_schema (take 20 results);
          } in
          let same : made ≡ resp = cc in
          rw (sym same) (refl, refl, λ k visible. infer_schema-first k (take 20 results) visible)
      by_reply (fails err) e = cc
      by_reply not_implemented e = cc

  abbrev OfSystem : SystemSourceConfig → Type 0
  OfSystem src =
      (system_source sources settings id auth table ≡ some src)
      × (str_eq src.type "dataset" ≡ false)
      × ReadFrom body (sources.of_system src body.time_field) resp

  abbrev OfOwner : Connection → Type 0
  OfOwner row =
      (get_connection id auth.public_key table ≡ some row)
      × (str_eq row.role "sink" ≡ false)
      × ReadFrom body (sources.of_connection row body.time_field) resp

  preview_row-own :
      preview_row sources settings id auth table body (get_connection id auth.public_key table)
        ≡ ok resp
      → (row : Connection) × OfOwner row
  preview_row-own h = by_row (get_connection id auth.public_key table) refl h
    where
      by_row :
          (o : Option Connection)
          → get_connection id auth.public_key table ≡ o
          → preview_row sources settings id auth table body o ≡ ok resp
          → (row : Connection) × OfOwner row
      by_row none found e = cc
      by_row (some row) found e = elim (Bool-cases (str_eq row.role "sink")) [
        | inl sink ↦ let wrong = rw sink at e in cc
        | inr source ↦ (
          row,
          (
            found,
            source,
            read_from 501 (sources.of_connection row body.time_field) (rw source at e),
          ),
        )
      ]

  -- A preview that is answered was read from a system source of this id that is not of the type
  -- dataset, or else from the caller's own connection of this id, which is not a sink; its records
  -- are those of the source, its total the source's count or 0, and its schema has under each key that
  -- does not begin with an underscore the field of the first of the first 20 records that has the key.
  pub preview_connection-own :
      preview_connection sources settings id auth table body ≡ ok resp
      → ((src : SystemSourceConfig) × OfSystem src) ⊎ ((row : Connection) × OfOwner row)
  unfolding preview_connection
  preview_connection-own h = by_source (system_source sources settings id auth table) refl h
    where
      by_source :
          (o : Option SystemSourceConfig)
          → system_source sources settings id auth table ≡ o
          → preview_source sources settings id auth table body o ≡ ok resp
          → ((src : SystemSourceConfig) × OfSystem src) ⊎ ((row : Connection) × OfOwner row)
      by_source none found e = inr (preview_row-own e)
      by_source (some src) found e = elim (Bool-cases (str_eq src.type "dataset")) [
        | inl dataset ↦ let wrong = rw dataset at e in cc
        | inr other ↦ inl (
          src,
          (found, other, read_from 502 (sources.of_system src body.time_field) (rw other at e)),
        )
      ]
