-- ===== src/Config.antt =====
-- packages/control-plane/src/domain/config.ts: configuration revisions and what they refer to.
pub mod Chain
pub mod Compare
pub mod Tests
use agx.Prelude.{String, Option, Bool, List}
use agx.Facts.{Fact}

pub data CapabilityKind : Type 0 where
  instruction skill mcp hook plugin : CapabilityKind

pub data SourceCategory : Type 0 where
  project_capability project_skill_import project_prompt unknown_source : SourceCategory

pub record CapabilityReference : Type 0 where
  pub kind : CapabilityKind
  pub name : String
  pub source_category : Fact SourceCategory
  pub summary : Fact String
  pub source_ref : Fact String
  pub content_fingerprint : Fact String

pub data TriggerCategory : Type 0 where
  new_scenario known_insufficiency bad_case : TriggerCategory

-- the one value that a known availability has
pub data Availability : Type 0 where
  resolved : Availability

pub record StableConfigRevision : Type 0 where
  pub config_name : String
  pub revision_id : String
  pub default_marker : Fact Bool
  pub scope_boundary : Fact String
  pub availability : Fact Availability
  pub instructions : List CapabilityReference
  pub skills : List CapabilityReference
  pub mcp : List CapabilityReference
  pub hooks : List CapabilityReference
  pub plugins : List CapabilityReference
  pub trigger_category : TriggerCategory
  pub evidence_ref : String
  pub supersedes_revision_id : Option String
