-- ===== src/Evidence/Validating.antt =====
-- evidence.ts, validateRef and validateObservation: the shape of an observation.
use agx.Prelude.{
  ℕ, ◌^◌, ◌-◌, String, Bool, true, false, not, ◌&&◌, ◌||◌, Option, none, some, ◌∷◌, ◌++◌, StrictEq,
  if◌then◌else◌, nat_beq, nat_eq, string_eq, ◌==◌, leb, arith, ◌≡◌, ◌↔◌,
}
use agx.Prelude.Text.{is_hex, is_hex_any, matches_each, times, literally}
use agx.Time.{DateParse}
use agx.Evidence.{
  EvidenceKind, ResourceType, EvidenceRef, EvidenceObservation, resource_for_kind,
  requires_revision, observation_schema, evaluator_version,
}

abbrev pub resource_tag : ResourceType → ℕ
resource_tag ResourceType.repository = 0
resource_tag ResourceType.project = 1
resource_tag ResourceType.project_item = 2
resource_tag ResourceType.issue = 3
resource_tag ResourceType.commit = 4
resource_tag ResourceType.pull_request = 5
resource_tag ResourceType.check = 6
resource_tag ResourceType.workspace = 7
resource_tag ResourceType.runtime = 8
resource_tag ResourceType.agent = 9
resource_tag ResourceType.task = 10
resource_tag ResourceType.run = 11

pub same_resource_iff :
    (a b : ResourceType) → (nat_beq (resource_tag a) (resource_tag b) ≡ true) ↔ (a ≡ b)
same_resource_iff a b = ground arith

instance abbrev pub resource_eq : StrictEq ResourceType
resource_eq = record {
  same = λ a b. nat_beq (resource_tag a) (resource_tag b);
  same_iff = same_resource_iff;
}

-- hex64, hex40, install and uuid
unfoldable pub is_hex64 : String → Bool
is_hex64 s = matches_each (times 64 is_hex_any) s

unfoldable pub is_hex40 : String → Bool
is_hex40 s = matches_each (times 40 is_hex_any) s

unfoldable pub is_installation : String → Bool
is_installation s = matches_each (literally "install-" ++ times 16 is_hex) s

abbrev dash : ℕ → Bool
dash c = c == b'-'

unfoldable pub is_uuid : String → Bool
is_uuid s =
    matches_each
      (times 8 is_hex_any
        ++ dash ∷ times 4 is_hex_any
        ++ dash ∷ (λ c. leb b'1' c && leb c b'5') ∷ times 3 is_hex_any
        ++ dash
          ∷ (λ c. c == b'8' || c == b'9' || c == b'a' || c == b'b' || c == b'A' || c == b'B')
          ∷ times 3 is_hex_any
        ++ dash ∷ times 12 is_hex_any)
      s

abbrev absent_or : (String → Bool) → Option String → Bool
absent_or p none = true
absent_or p (some s) = p s

abbrev pub is_some : {A : Type 0} → Option A → Bool
is_some none = false
is_some (some a) = true

-- Number.MAX_SAFE_INTEGER
abbrev max_safe : ℕ
max_safe = 2 ^ 53 - 1

abbrev number_ok : Option ℕ → Bool
number_ok none = true
number_ok (some n) = leb n max_safe && not (n == 0)

-- the two tests on a kind's name at the end of `validateRef`
abbrev names_uuid : EvidenceKind → Bool
names_uuid EvidenceKind.workspace = true
names_uuid EvidenceKind.runtime = true
names_uuid EvidenceKind.agent = true
names_uuid _ = false

abbrev names_number : EvidenceKind → Bool
names_number EvidenceKind.contract_issue = true
names_number EvidenceKind.delivery_pr = true
names_number EvidenceKind.delivery_result = true
names_number EvidenceKind.project_item = true
names_number _ = false

abbrev pub same_flag : Bool → Bool → Bool
same_flag true b = b
same_flag false b = not b

-- how the resource is named
abbrev pub named_right : EvidenceKind → EvidenceRef → Bool
named_right kind ref =
    if names_uuid kind
    then is_some ref.uuid && not (is_some ref.identity) && not (is_some ref.number)
    else if names_number kind
    then is_some ref.number && not (is_some ref.uuid) && not (is_some ref.identity)
    else not (same_flag (is_some ref.identity) (is_some ref.uuid)) && not (is_some ref.number)

unfoldable pub validate_ref : EvidenceKind → EvidenceRef → Bool
validate_ref kind ref =
    ref.resource_type == resource_for_kind kind
    && absent_or is_hex64 ref.identity
    && absent_or is_uuid ref.uuid
    && number_ok ref.number
    && absent_or is_hex40 ref.revision
    && same_flag (requires_revision kind) (is_some ref.revision)
    && named_right kind ref

-- The checks that a value is of its type hold of every value here.
unfoldable pub validate_observation : DateParse → EvidenceObservation → Bool
validate_observation parse o =
    o.schema_version == observation_schema
    && o.evaluator_version == evaluator_version
    && is_hex64 o.deployment_digest
    && is_hex64 o.subject_digest
    && is_hex64 o.fingerprint
    && is_some (parse o.observed_at)
    && validate_ref o.kind o.ref
