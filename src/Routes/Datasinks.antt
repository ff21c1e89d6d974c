-- ===== src/Routes/Datasinks.antt =====
-- routes/datasinks.py: the datasinks, their datasets, and the fields of a source that look like URLs
-- of assets. An exception that no handler catches is an answer 500.
use databridge.Base.{
  ℕ, true, Option, none, some, List, map, String, str_eq, ◌&&◌, is_some, not, if◌then◌else◌,
}
use databridge.Base.Lists.{find_first}
use databridge.Base.Text.{is_empty}
use databridge.Value.{Value}
use databridge.Config.{Settings, DatasinkConfig, SystemSourceConfig, find_datasink}
use databridge.Routes.{HttpResult, ok, raise}
use databridge.Asset.{entries_of}
use databridge.Asset.Fields.{detect_asset_url_fields}
use databridge.Adapters.Schema.{SchemaFields}
use databridge.Routes.Connections.Explore.{Reply, answers, Source, Sources}

-- `DatasinkInfo` and `DatasinkDataset`
pub record DatasinkInfo : Type 0 where
  pub name : String
  pub type : String

pub record DatasinkDataset : Type 0 where
  pub name : String
  pub uid : String

-- What `get_sink(cfg).list_datasets()` does: it returns, raises one of the exceptions of a sink that
-- is not reached, or another.
pub data Datasets : Type 0 where
  listed : List DatasinkDataset → Datasets
  unreachable : Datasets
  crashed : Datasets

-- `GET /datasinks`
unfoldable pub list_datasinks : Settings → List DatasinkInfo
list_datasinks settings =
    map (λ (s : DatasinkConfig). record { name = s.name; type = s.type }) settings.datasinks

abbrev datasets_answer : Datasets → HttpResult (List DatasinkDataset)
datasets_answer (listed datasets) = ok datasets
datasets_answer unreachable = raise 502
datasets_answer crashed = raise 500

abbrev datasets_of :
    (DatasinkConfig → Datasets) → Option DatasinkConfig → HttpResult (List DatasinkDataset)
datasets_of sinks none = raise 404
datasets_of sinks (some cfg) = datasets_answer (sinks cfg)

-- `GET /datasinks/{name}/datasets`
unfoldable pub get_datasink_datasets :
    (DatasinkConfig → Datasets) → Settings → String → HttpResult (List DatasinkDataset)
get_datasink_datasets sinks settings name = datasets_of sinks (find_datasink settings name)

-- `AssetFieldDetectRequest`
pub record AssetFieldDetectRequest : Type 0 where
  pub connection_id : Option String
  pub system_source_name : Option String

abbrev detected : Reply (SchemaFields × ℕ) → Reply (List Value) → HttpResult (List String)
detected (answers (schema, size)) (answers records) =
    ok (detect_asset_url_fields schema (map entries_of records))
detected _ _ = raise 500

abbrev detect_in : Option Source → HttpResult (List String)
detect_in none = raise 404
detect_in (some source) =
    detected (source.schema none none true) (source.preview "" none none 20 none)

abbrev source_named : Sources → Settings → String → Option Source
source_named sources settings name =
    elim (find_first (λ (s : SystemSourceConfig). str_eq s.name name) settings.datasources) [
      | none ↦ none
      | some src ↦ some (sources.of_system src none)
    ]

abbrev detect_named : Sources → Settings → Option String → HttpResult (List String)
detect_named sources settings none = raise 501
detect_named sources settings (some name) =
    if is_empty name then raise 501 else detect_in (source_named sources settings name)

-- `POST /datasinks/{name}/detect-asset-fields`
unfoldable pub detect_asset_fields :
    Sources → Settings → AssetFieldDetectRequest → HttpResult (List String)
detect_asset_fields sources settings body =
    if not (is_some body.connection_id) && not (is_some body.system_source_name)
    then raise 400
    else if is_some body.connection_id && is_some body.system_source_name
    then raise 400
    else detect_named sources settings body.system_source_name
