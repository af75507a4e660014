-- ===== src/Claude/Capability.antt =====
-- application/ports.ts: what a probe found out about one capability of the client.
use agx.Prelude.{String, Bool, true, false}
use agx.Launch.World.{ProbeLevel}

pub data ValidationMethod : Type 0 where
  mechanical controlled_integration real_task : ValidationMethod

-- ClaudeCapabilityProbeResult
pub record CapabilityNote : Type 0 where
  pub capability_id : String
  pub subject : String
  pub required : Bool
  pub status : ProbeLevel
  pub validation_method : ValidationMethod
  pub evidence_ref : String
  pub observed_at : String

abbrev pub status_text : ProbeLevel → String
status_text ProbeLevel.supported = "supported"
status_text ProbeLevel.degraded = "degraded"
status_text ProbeLevel.unsupported = "unsupported"
status_text ProbeLevel.unknown = "unknown"

abbrev pub flag_text : Bool → String
flag_text true = "true"
flag_text false = "false"
