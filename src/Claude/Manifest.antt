-- ===== src/Claude/Manifest.antt =====
-- adapters/clients/claude/assembly-manifest.ts: what a configuration needs of the client, and
-- whether the client has it.
pub mod Compiling
use agx.Prelude.{
  ℕ, String, Bool, true, false, ◌==◌, string_eq, Option, none, some, List, [], ◌∷◌, map, keep, find,
  if◌then◌else◌,
}
use agx.Prelude.Text.{texts, join, code_units}
use agx.Facts.{Fact, known, unknown}
use agx.Config.{CapabilityKind, SourceCategory, CapabilityReference, StableConfigRevision}
use agx.Config.Compare.{sort_names}
use agx.Activation.Hash.{hash_units, to_hex}
use agx.Launch.World.{ProbeLevel}
use agx.Claude.Capability.{CapabilityNote, ValidationMethod, status_text, flag_text}

-- manifestStatus
pub data ManifestStatus : Type 0 where
  ready degraded : ManifestStatus

-- ClaudeAssemblyManifest; the client is the constant `claude-code`
pub record Manifest : Type 0 where
  pub revision_id : String
  pub config_name : String
  pub capability_policy : List CapabilityNote
  pub instructions : List CapabilityReference
  pub skills : List CapabilityReference
  pub mcp : List CapabilityReference
  pub manifest_status : ManifestStatus
  pub degraded_capabilities : List String
  pub manifest_hash : String

-- ClaudeAssemblyManifestBlocked
pub record Blocked : Type 0 where
  pub revision_id : String
  pub config_name : String
  pub missing_required : List String

pub data ManifestResult : Type 0 where
  compiled : Manifest → ManifestResult
  blocked : Blocked → ManifestResult

abbrev pub non_empty : List CapabilityReference → Bool
non_empty [] = false
non_empty (r ∷ refs) = true

pub record Rule : Type 0 where
  pub capability_id : String
  pub is_relevant : StableConfigRevision → Bool

-- CAPABILITY_RELEVANCE_RULES
abbrev pub relevance_rules : List Rule
relevance_rules =
    record { capability_id = "claude.permission-mode-control"; is_relevant = λ r. true }
    ∷ record {
      capability_id = "claude.mcp-project-scope-control";
      is_relevant = λ r. non_empty r.mcp;
    }
    ∷ record {
      capability_id = "claude.setting-sources-control";
      is_relevant = λ r. non_empty r.skills;
    }
    ∷ record {
      capability_id = "claude.hook-deny-return-value";
      is_relevant = λ r. non_empty r.hooks;
    }
    ∷ record { capability_id = "claude.plugin-dir-delivery"; is_relevant = λ r. non_empty r.skills }
    ∷ record {
      capability_id = "claude.append-system-prompt-delivery";
      is_relevant = λ r. non_empty r.instructions;
    }
    ∷ []

abbrev found_or_unknown : Option CapabilityNote → String → String → CapabilityNote
found_or_unknown (some note) id now = note
found_or_unknown none id now = record {
  capability_id = id;
  subject = texts ("(缺失) probe 结果未包含此相关 capability：" ∷ id ∷ []);
  required = true;
  status = ProbeLevel.unknown;
  validation_method = ValidationMethod.mechanical;
  evidence_ref = texts (
      "probe 结果里找不到相关 capabilityId \"" ∷ id
      ∷ "\"，按最保守方式处理为 required:true, status:'unknown'，绝不默认为 supported" ∷ []);
  observed_at = now;
}

unfoldable pub resolve_capability_note : List CapabilityNote → String → String → CapabilityNote
resolve_capability_note probed now id =
    found_or_unknown (find (λ (n : CapabilityNote). n.capability_id == id) probed) id now

abbrev kind_text : CapabilityKind → String
kind_text CapabilityKind.instruction = "instruction"
kind_text CapabilityKind.skill = "skill"
kind_text CapabilityKind.mcp = "mcp"
kind_text CapabilityKind.hook = "hook"
kind_text CapabilityKind.plugin = "plugin"

abbrev category_text : SourceCategory → String
category_text SourceCategory.project_capability = "project-capability"
category_text SourceCategory.project_skill_import = "project-skill-import"
category_text SourceCategory.project_prompt = "project-prompt"
category_text SourceCategory.unknown_source = "unknown-source"

abbrev category_fact_text : Fact SourceCategory → String
category_fact_text (known c) = category_text c
category_fact_text (unknown reason at) = texts ("unknown:" ∷ reason ∷ [])

unfoldable pub reference_signature : CapabilityReference → String
reference_signature r =
    texts (kind_text r.kind ∷ ":" ∷ r.name ∷ ":" ∷ category_fact_text r.source_category ∷ [])

abbrev pub note_signature : CapabilityNote → String
note_signature n =
    texts (n.capability_id ∷ "=" ∷ flag_text n.required ∷ "=" ∷ status_text n.status ∷ [])

-- `refs.map(referenceSignature).sort().join(',')`
abbrev pub references_signature : List CapabilityReference → String
references_signature refs = join "," (sort_names (map reference_signature refs))

-- computeClaudeAssemblyManifestHash
unfoldable pub compute_manifest_hash : StableConfigRevision → List CapabilityNote → String
compute_manifest_hash r policy =
    let input = join "||" (
      r.revision_id
      ∷ "claude-code"
      ∷ join ";" (sort_names (map note_signature policy))
      ∷ references_signature r.instructions
      ∷ references_signature r.skills
      ∷ references_signature r.mcp
      ∷ []) in
    texts ("caph_" ∷ to_hex (hash_units 0 (code_units input)) ∷ [])

pub record Sorted : Type 0 where
  pub missing_required : List String
  pub degraded : List String

-- One round of the loop over the policy, before the rounds after it.
add_note : CapabilityNote → ProbeLevel → Bool → Sorted → Sorted
add_note n ProbeLevel.supported required rest = rest
add_note n ProbeLevel.degraded required rest = record rest {
  degraded = n.capability_id ∷ rest.degraded;
}
add_note n _ true rest = record rest { missing_required = n.capability_id ∷ rest.missing_required }
add_note n _ false rest = record rest { degraded = n.capability_id ∷ rest.degraded }

unfoldable pub sort_notes : List CapabilityNote → Sorted
unfolding add_note
sort_notes [] = record { missing_required = []; degraded = [] }
sort_notes (n ∷ policy) = let rest = sort_notes policy in add_note n n.status n.required rest

abbrev pub status_of : List String → ManifestStatus
status_of [] = ManifestStatus.ready
status_of (id ∷ ids) = ManifestStatus.degraded

-- the notes on the capabilities that the configuration needs
unfoldable pub policy_of : StableConfigRevision → List CapabilityNote → String → List CapabilityNote
policy_of r probed now =
    map (λ (rule : Rule). resolve_capability_note probed now rule.capability_id)
      (keep (λ (rule : Rule). rule.is_relevant r) relevance_rules)

compile_sorted :
    StableConfigRevision → List CapabilityNote → List String → List String → ManifestResult
compile_sorted r policy (id ∷ ids) partial = blocked (record {
  revision_id = r.revision_id;
  config_name = r.config_name;
  missing_required = id ∷ ids;
})
compile_sorted r policy [] partial = compiled (record {
  revision_id = r.revision_id;
  config_name = r.config_name;
  capability_policy = policy;
  instructions = r.instructions;
  skills = r.skills;
  mcp = r.mcp;
  manifest_status = status_of partial;
  degraded_capabilities = partial;
  manifest_hash = compute_manifest_hash r policy;
})

-- The notes on what was not probed are stamped with one reading of the clock.
unfoldable pub compile_manifest :
    StableConfigRevision → List CapabilityNote → String → ManifestResult
unfolding compile_sorted
compile_manifest r probed now =
    let policy = policy_of r probed now in
    let sorted = sort_notes policy in
    compile_sorted r policy sorted.missing_required sorted.degraded
