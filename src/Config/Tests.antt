-- ===== src/Config/Tests.antt =====
-- Three revisions of a configuration: the second replaces the first, the third one that is not there.
use agx.Prelude.{
  String, ◌≡◌, refl, none, some, Option, true, List, [], ◌∷◌, map, any, if◌then◌else◌, ◌==◌,
  string_eq,
}
use agx.Prelude.Outcome.{returned}
use agx.Facts.{known, unknown}
use agx.Config.{
  CapabilityKind, SourceCategory, CapabilityReference, TriggerCategory, Availability,
  StableConfigRevision,
}
use agx.Config.Compare.{
  category_eq, Group, ComparisonResult, compare_capability_group, CapabilityComparisonEntry,
  capabilities_of_kind,
}
use agx.Config.Compare.Layout.{Ascending, holds, named, group_names_lem}
use agx.Queries.{Lookup, Repository, compare_config_revisions}
use agx.Queries.Comparing.{revisions_of, failures_of, Compares, Distinct, compare_lem}

abbrev review : CapabilityReference
review = record {
  kind = CapabilityKind.skill;
  name = "review";
  source_category = known SourceCategory.project_capability;
  summary = unknown "not-captured" "2026-01-01T00:00:00.000Z";
  source_ref = known "skills/review";
  content_fingerprint = unknown "not-captured" "2026-01-01T00:00:00.000Z";
}

abbrev revision : String → Option String → List CapabilityReference → StableConfigRevision
revision id old skills = record {
  config_name = "base";
  revision_id = id;
  default_marker = known true;
  scope_boundary = known "all";
  availability = known Availability.resolved;
  instructions = [];
  skills = skills;
  mcp = [];
  hooks = [];
  plugins = [];
  trigger_category = TriggerCategory.new_scenario;
  evidence_ref = "evidence-1";
  supersedes_revision_id = old;
}

abbrev revisions : List StableConfigRevision
revisions =
    revision "rev-1" none []
    ∷ revision "rev-2" (some "rev-1") (review ∷ [])
    ∷ revision "rev-3" (some "rev-0") []
    ∷ []

abbrev groups : List Group
groups =
    record { revision_id = "rev-1"; refs = [] }
    ∷ record { revision_id = "rev-2"; refs = ("review", review) ∷ [] }
    ∷ []

group_names_example :
    let names =
      map
        (λ (c : CapabilityComparisonEntry). c.name)
        (compare_capability_group revisions CapabilityKind.skill).entries in
    Ascending names
    × ((name : String)
        → holds name names
          ≡ any (λ r. named name (capabilities_of_kind r CapabilityKind.skill)) revisions)
group_names_example = group_names_lem revisions CapabilityKind.skill

abbrev table : String → Lookup
table id = if id == "rev-1" then Lookup.revision (revision "rev-1" none []) else Lookup.missing

abbrev repository : Repository Unit
repository = record {
  list_all = λ s. (returned revisions, s);
  find_by_id = λ id s. (returned (table id), s);
}

compare_example :
    (comparison : Option ComparisonResult) × (let unique : List String = "rev-1" ∷ "rev-9" ∷ [] in
      (compare_config_revisions repository ("rev-1" ∷ "rev-9" ∷ "rev-1" ∷ []) tt ≡ (
        returned (record {
          resolved = revisions_of table unique;
          failed = failures_of table unique;
          comparison = comparison;
        }),
        tt,
      ))
      × Compares (revisions_of table unique) comparison
      × Distinct unique
      × ((id : String) → holds id unique ≡ holds id ("rev-1" ∷ "rev-9" ∷ "rev-1" ∷ [])))
compare_example = compare_lem table repository (λ id s. refl) ("rev-1" ∷ "rev-9" ∷ "rev-1" ∷ []) tt
