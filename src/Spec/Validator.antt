-- ===== src/Spec/Validator.antt =====
-- The structural checks of the files of a workspace (spec/validator.go). An error keeps its file and
-- its field; its message, which `fmt` prints, is kept as what it reports.
pub mod Valid
use event_spec.Prelude.{
  Bool, true, false, not, ◌&&◌, ◌||◌, List, [], ◌∷◌, ◌++◌, Option, none, some, String, Text, Map,
  any, text_eq, if◌then◌else◌, ◌==◌, ◌*◌, ◌^◌,
}
use event_spec.Prelude.Int.{ℤ, pos, eq_ℤ, ltb_ℤ}
use event_spec.Spec.Schema.{Float64, float_one, PropertyDef, SamplingConfig, EventDef}
use event_spec.Spec.Workspace.{SourceDef, DestinationDef, RegistryConfig, WorkspaceConfig}
use event_spec.Spec.Version.{VersionError, Parsed, ok, err, parse_schema_ver}
use Prim.Native.String.{◌++◌ as append}

-- what a message says
pub data Problem : Type 0 where
  required : Problem
  bad_version : VersionError → Problem
  invalid_value : String → Problem
  out_of_range : Float64 → Problem

-- type ValidationError
pub record ValidationError : Type 0 where
  pub file : String
  pub field : String
  pub problem : Problem

-- `if bad { add(field, msg) }`
unfoldable pub report : String → String → Problem → Bool → List ValidationError
report file field problem bad =
    if bad then record { file = file; field = field; problem = problem } ∷ [] else []

-- whether a `switch` or a set of names has the value
unfoldable pub is_one_of : List String → String → Bool
is_one_of names value = any (λ n. n == value) names

-- A `switch` whose empty case is an error of its own.
unfoldable pub check_required_name : String → String → List String → String → List ValidationError
check_required_name file field names value =
    if value == ""
    then report file field required true
    else report file field (invalid_value value) (not (is_one_of names value))

unfoldable pub check_version : String → Parsed → List ValidationError
check_version file (ok v) = []
check_version file (err e) = report file "version" (bad_version e) true

abbrev pub event_statuses : List String
event_statuses = "draft" ∷ "active" ∷ "deprecated" ∷ "deleted" ∷ []

abbrev pub event_types : List String
event_types = "track" ∷ "page" ∷ "identify" ∷ "group" ∷ "alias" ∷ []

abbrev pub property_types : List String
property_types = "string" ∷ "number" ∷ "integer" ∷ "boolean" ∷ "object" ∷ "array" ∷ []

abbrev pub sampling_strategies : List String
sampling_strategies = "user_id_hash" ∷ "random" ∷ "none" ∷ []

abbrev pub priorities : List String
priorities = "event_wins" ∷ "context_wins" ∷ "merge" ∷ []

unfoldable pub check_properties : String → Map PropertyDef → List ValidationError
check_properties file [] = []
check_properties file ((name, prop) ∷ properties) =
    report file (append "properties." (append name ".type")) (invalid_value prop.type)
      (not (is_one_of property_types prop.type))
    ++ check_properties file properties

-- `x < low || x > high`
unfoldable pub is_outside : ℤ → ℤ → ℤ → Bool
is_outside low high x = ltb_ℤ x low || ltb_ℤ high x

unfoldable pub check_sampling : String → Option SamplingConfig → List ValidationError
check_sampling file none = []
check_sampling file (some s) =
    report file "sampling.strategy" (invalid_value s.strategy)
      (not (is_one_of sampling_strategies s.strategy))
    ++ report file "sampling.rate" (out_of_range s.rate) (is_outside (pos 0) float_one s.rate)

-- func ValidateEventDef
unfoldable pub validate_event_def : EventDef → List ValidationError
validate_event_def def =
    let file = def.source_path in
    report file "name" required (def.name == "")
    ++ ((if text_eq def.version []
          then report file "version" required true
          else check_version file (parse_schema_ver def.version))
        ++ (report file "namespace" required (def.namespace == "")
            ++ (report file "event_name" required (def.event_name == "")
                ++ (check_required_name file "status" event_statuses def.status
                    ++ (check_required_name file "type" event_types def.type
                        ++ (check_properties file def.properties
                            ++ (check_sampling file def.sampling
                                ++ report file "property_priority"
                                    (invalid_value def.property_priority)
                                    (not (def.property_priority == "")
                                      && not (is_one_of priorities def.property_priority)))))))))

abbrev pub languages : List String
languages =
    "go" ∷ "typescript" ∷ "swift" ∷ "kotlin" ∷ "python" ∷ "java" ∷ "rust" ∷ "dart" ∷ "dotnet" ∷ []

-- func ValidateSourceDef
unfoldable pub validate_source_def : SourceDef → List ValidationError
validate_source_def def =
    let file = def.source_path in
    report file "name" required (def.name == "")
    ++ (check_required_name file "language" languages def.language
        ++ (report file "output.path" required (def.output_path == "")
            ++ (report file "mode" (invalid_value def.mode) (
                  not (def.mode == "")
                  && not (is_one_of ("embedded" ∷ "server_proxied" ∷ "hybrid" ∷ []) def.mode))
                ++ report file "runtime_endpoint" required
                    ((def.mode == "server_proxied") && (def.runtime_endpoint == "")))))

-- func ValidateDestinationDef
unfoldable pub validate_destination_def : DestinationDef → List ValidationError
validate_destination_def def =
    report def.source_path "name" required (def.name == "")
    ++ report def.source_path "provider" required (def.provider == "")

-- 100.0
unfoldable pub float_hundred : Float64
float_hundred = pos (100 * 2 ^ 1074)

-- func ValidateWorkspaceConfig
unfoldable pub validate_workspace_config : WorkspaceConfig → String → List ValidationError
validate_workspace_config cfg path =
    report path "version" required (eq_ℤ cfg.version (pos 0))
    ++ (report path "workspace" required (cfg.workspace == "")
        ++ (report path "registry.mode" (invalid_value cfg.registry.mode)
              (not (is_one_of ("local" ∷ "git" ∷ "server" ∷ "" ∷ []) cfg.registry.mode))
            ++ (report path "registry.remote" required
                  ((cfg.registry.mode == "git") && (cfg.registry.remote == ""))
                ++ (report path "registry.url" required
                      ((cfg.registry.mode == "server") && (cfg.registry.url == ""))
                    ++ (report path "audit.report" (invalid_value cfg.audit_report) (
                          not (cfg.audit_report == "")
                          && not (is_one_of ("json" ∷ "text" ∷ "html" ∷ []) cfg.audit_report))
                        ++ (report path "audit.coverage_min" (out_of_range cfg.audit_coverage_min)
                              (is_outside (pos 0) float_hundred cfg.audit_coverage_min)
                            ++ report path "docs.format" (invalid_value cfg.docs_format) (
                                not (cfg.docs_format == "")
                                && not (is_one_of ("html" ∷ "markdown" ∷ []) cfg.docs_format))))))))
