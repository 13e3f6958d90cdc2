-- ===== src/Delivery/File.antt =====
-- The generated-file dicts that the pipeline passes around, and the external code that it reads
-- them with (PyYAML, pathlib and `re`).
use agent_it.Base.{String, Bool, Option, none, some, List, [], ◌∷◌, get_or}

-- `finding_addressed` is a text or a list of texts.
pub data Addressed : Type 0 where
  unaddressed : Addressed
  one_text : String → Addressed
  texts : List String → Addressed

-- portal/delivery.py's taxonomy categories, `CATEGORY_*`.
pub data FileCategory : Type 0 where
  cluster_config cicd_shared_namespace source_patch narrative_report manifest_at_rest
        secret_blocked :
      FileCategory

-- One generated file: a missing key is `none`.
pub record Entry : Type 0 where
  pub path : Option String
  pub target_path : Option String
  pub category : Option String
  pub skill_name : Option String
  pub domain : Option String
  pub description : Option String
  pub content : Option String
  pub finding_addressed : Addressed
  -- `_finding_cluster`, and `_companion_layer`, which stands exactly where `_tier` is "companion"
  pub finding_cluster : Option String
  pub companion_layer : Option FileCategory
  pub edited : Bool

-- `d.get(k) or ""`, and `d.get(k, "")` where no value is None.
abbrev pub text_of : Option String → String
text_of o = get_or "" o

-- A mapping among the documents of a YAML text, as the pipeline reads it: a field that is missing or
-- null is the empty text.
pub record Manifest : Type 0 where
  pub api_version : String
  pub kind : String
  pub has_metadata : Bool
  pub name : String
  pub namespace : String

pub data Document : Type 0 where
  mapping : Manifest → Document
  other : Document

-- What the code calls and does not define. `load_all` is `yaml.safe_load_all`, `none` its YAMLError.
pub record Tools : Type 0 where
  pub load_all : String → Option (List Document)
  -- `Path(p).suffix`
  pub path_suffix : String → String
  -- a match of one of `_PLACEHOLDER_FIELD_PATTERNS`
  pub placeholder_field : String → Bool

abbrev pub mappings : List Document → List Manifest
mappings [] = []
mappings (mapping m ∷ ds) = m ∷ mappings ds
mappings (other ∷ ds) = mappings ds

-- `_parse_manifest` of portal/cluster_apply.py.
unfoldable pub parse_manifest : Tools → String → List Manifest
parse_manifest tools content = elim (tools.load_all content) [ none ↦ [] | some ds ↦ mappings ds ]
