-- ===== src/Spec/Workspace.antt =====
-- The other files of a workspace: sources, destinations and the configuration (spec/schema.go).
-- The fields that no code modelled here reads are left out.
use event_spec.Prelude.{String, List}
use event_spec.Prelude.Int.{ℤ}
use event_spec.Spec.Schema.{Float64}

-- type SourceDef, with the path of type SourceOutput
pub record SourceDef : Type 0 where
  pub name : String
  pub language : String
  pub mode : String
  pub runtime_endpoint : String
  pub events : List String
  pub destinations : List String
  pub output_path : String
  pub source_path : String

-- type DestinationDef
pub record DestinationDef : Type 0 where
  pub name : String
  pub provider : String
  pub source_path : String

-- type RegistryConfig
pub record RegistryConfig : Type 0 where
  pub mode : String
  pub remote : String
  pub url : String

-- type WorkspaceConfig, with AuditConfig and DocsConfig
pub record WorkspaceConfig : Type 0 where
  pub version : ℤ
  pub workspace : String
  pub registry : RegistryConfig
  pub audit_report : String
  pub audit_coverage_min : Float64
  pub docs_format : String
