-- ===== src/Config/Compare.antt =====
-- config.ts, compareRevisions: the fields and the capabilities of revisions, side by side.
pub mod Statuses
pub mod Layout
use agx.Prelude.{
  ℕ, String, Option, none, some, Bool, true, false, not, ◌&&◌, List, [], ◌∷◌, ◌++◌, map, StrictEq,
  nat_eq, string_eq, ◌==◌, if◌then◌else◌, any, all, ◌↔◌, ◌≡◌, refl, arith, eq_iff, nat_beq,
}
use agx.Prelude.Dict.{Dict, get, put}
use agx.Prelude.Text.{lex_before, code_units}
use agx.Facts.{Fact, is_unknown, facts_equal}
use agx.Config.{
  CapabilityKind, SourceCategory, CapabilityReference, Availability, resolved, StableConfigRevision,
}

pub data ScalarFieldName : Type 0 where
  config_name revision_id default_marker scope_boundary availability : ScalarFieldName

pub data ComparisonStatus : Type 0 where
  same different unknown : ComparisonStatus

-- A text or a Boolean; no text has the JSON form of a Boolean.
pub data ScalarValue : Type 0 where
  text : String → ScalarValue
  flag : Bool → ScalarValue

abbrev same_flag : Bool → Bool → Bool
same_flag true b = b
same_flag false b = not b

abbrev same_scalar : ScalarValue → ScalarValue → Bool
same_scalar (text a) (text b) = a == b
same_scalar (flag a) (flag b) = same_flag a b
same_scalar _ _ = false

pub same_scalar_iff : (a b : ScalarValue) → (same_scalar a b ≡ true) ↔ (a ≡ b)
same_scalar_iff (text a) (text b) = ground (arith, eq_iff a b)
same_scalar_iff (flag a) (flag b) = ground arith
same_scalar_iff (text a) (flag b) = ground arith
same_scalar_iff (flag a) (text b) = ground arith

instance abbrev pub scalar_eq : StrictEq ScalarValue
scalar_eq = record { same = same_scalar; same_iff = same_scalar_iff }

abbrev category_tag : SourceCategory → ℕ
category_tag SourceCategory.project_capability = 0
category_tag SourceCategory.project_skill_import = 1
category_tag SourceCategory.project_prompt = 2
category_tag SourceCategory.unknown_source = 3

pub same_category_iff :
    (a b : SourceCategory) → (nat_beq (category_tag a) (category_tag b) ≡ true) ↔ (a ≡ b)
same_category_iff a b = ground arith

instance abbrev pub category_eq : StrictEq SourceCategory
category_eq = record {
  same = λ a b. nat_beq (category_tag a) (category_tag b);
  same_iff = same_category_iff;
}

pub record ScalarFieldEntry : Type 0 where
  pub revision_id : String
  pub value : Fact ScalarValue

pub record ScalarFieldComparison : Type 0 where
  pub field : ScalarFieldName
  pub entries : List ScalarFieldEntry
  pub status : ComparisonStatus

pub record CapabilitySourceEntry : Type 0 where
  pub revision_id : String
  pub source_category : Option (Fact SourceCategory)

pub record CapabilityComparisonEntry : Type 0 where
  pub name : String
  pub present_in : List String
  pub missing_in : List String
  pub source_category_status : ComparisonStatus
  pub source_category_by_revision : List CapabilitySourceEntry

pub record CapabilityGroupComparison : Type 0 where
  pub kind : CapabilityKind
  pub entries : List CapabilityComparisonEntry

pub record ComparisonResult : Type 0 where
  pub revision_ids : List String
  pub scalar_fields : List ScalarFieldComparison
  pub capabilities : List CapabilityGroupComparison

module _ {A : Type 0} ⦃e : StrictEq A⦄ where
  all_like_first : List (Fact A) → ComparisonStatus
  all_like_first [] = same
  all_like_first (first ∷ facts) =
      if all (λ f. facts_equal f first) (first ∷ facts) then same else different

  -- the rule of `scalarStatus`, and of the source categories in `compareCapabilityGroup`
  unfoldable pub fact_status : List (Fact A) → ComparisonStatus
  unfolding all_like_first
  fact_status facts = if any is_unknown facts then unknown else all_like_first facts

abbrev pub scalar_status : List ScalarFieldEntry → ComparisonStatus
scalar_status entries = fact_status (map (λ (entry : ScalarFieldEntry). entry.value) entries)

unfoldable pub compare_scalar_field :
    ScalarFieldName
    → List StableConfigRevision
    → (StableConfigRevision → Fact ScalarValue)
    → ScalarFieldComparison
compare_scalar_field field revisions select =
    let entries =
      map (λ (r : StableConfigRevision). record { revision_id = r.revision_id; value = select r })
        revisions in
    record { field = field; entries = entries; status = scalar_status entries }

unfoldable pub capabilities_of_kind :
    StableConfigRevision → CapabilityKind → List CapabilityReference
capabilities_of_kind r CapabilityKind.instruction = r.instructions
capabilities_of_kind r CapabilityKind.skill = r.skills
capabilities_of_kind r CapabilityKind.mcp = r.mcp
capabilities_of_kind r CapabilityKind.hook = r.hooks
capabilities_of_kind r CapabilityKind.plugin = r.plugins

-- One revision with its capabilities of the kind by their names.
pub record Group : Type 0 where
  pub revision_id : String
  pub refs : Dict CapabilityReference

unfoldable pub refs_by_name :
    List CapabilityReference → Dict CapabilityReference → Dict CapabilityReference
refs_by_name [] m = m
refs_by_name (ref ∷ refs) m = refs_by_name refs (put ref.name ref m)

-- a `Set` of texts, in the order of their first insertion
unfoldable pub add_name : String → List String → List String
add_name name names = if any (λ n. n == name) names then names else names ++ name ∷ []

add_keys : Dict CapabilityReference → List String → List String
add_keys [] names = names
add_keys ((name, ref) ∷ m) names = add_keys m (add_name name names)

unfoldable pub all_names : List Group → List String → List String
unfolding add_keys
all_names [] names = names
all_names (g ∷ groups) names = all_names groups (add_keys g.refs names)

-- the default order of `sort`, by UTF-16 units
unfoldable pub insert_name : String → List String → List String
insert_name name [] = name ∷ []
insert_name name (n ∷ names) =
    let rest = insert_name name names in
    if lex_before (code_units n) (code_units name) then n ∷ rest else name ∷ n ∷ names

unfoldable pub sort_names : List String → List String
sort_names [] = []
sort_names (n ∷ names) = insert_name n (sort_names names)

pub record Columns : Type 0 where
  pub present_in : List String
  pub missing_in : List String
  pub by_revision : List CapabilitySourceEntry

add_column : String → Option CapabilityReference → Columns → Columns
add_column id none c = record {
  present_in = c.present_in;
  missing_in = id ∷ c.missing_in;
  by_revision = record { revision_id = id; source_category = none } ∷ c.by_revision;
}
add_column id (some ref) c = record {
  present_in = id ∷ c.present_in;
  missing_in = c.missing_in;
  by_revision =
      record { revision_id = id; source_category = some ref.source_category } ∷ c.by_revision;
}

-- the loop over the revisions for one name
unfoldable pub columns : String → List Group → Columns
unfolding add_column
columns name [] = record { present_in = []; missing_in = []; by_revision = [] }
columns name (g ∷ groups) = add_column g.revision_id (get name g.refs) (columns name groups)

categories : List CapabilitySourceEntry → List (Fact SourceCategory)
categories [] = []
categories (entry ∷ entries) =
    let rest = categories entries in
    elim entry.source_category [ none ↦ rest | some fact ↦ fact ∷ rest ]

unfoldable pub compare_name : String → List Group → CapabilityComparisonEntry
unfolding categories
compare_name name groups =
    let c = columns name groups in
    record {
      name = name;
      present_in = c.present_in;
      missing_in = c.missing_in;
      source_category_status = fact_status (categories c.by_revision);
      source_category_by_revision = c.by_revision;
    }

abbrev group_of : CapabilityKind → StableConfigRevision → Group
group_of kind r = record {
  revision_id = r.revision_id;
  refs = refs_by_name (capabilities_of_kind r kind) [];
}

unfoldable pub compare_capability_group :
    List StableConfigRevision → CapabilityKind → CapabilityGroupComparison
compare_capability_group revisions kind =
    let groups = map (group_of kind) revisions in
    record {
      kind = kind;
      entries = map (λ name. compare_name name groups) (sort_names (all_names groups []));
    }

abbrev scalar_of_availability : Fact Availability → Fact ScalarValue
scalar_of_availability (Fact.known resolved) = Fact.known (text "resolved")
scalar_of_availability (Fact.unknown reason at) = Fact.unknown reason at

abbrev scalar_of : {A : Type 0} → (A → ScalarValue) → Fact A → Fact ScalarValue
scalar_of f (Fact.known a) = Fact.known (f a)
scalar_of f (Fact.unknown reason at) = Fact.unknown reason at

unfoldable pub compare_revisions : List StableConfigRevision → ComparisonResult
compare_revisions revisions = record {
  revision_ids = map (λ (r : StableConfigRevision). r.revision_id) revisions;
  scalar_fields =
      compare_scalar_field ScalarFieldName.config_name revisions
        (λ r. Fact.known (text r.config_name))
      ∷ compare_scalar_field ScalarFieldName.revision_id revisions
          (λ r. Fact.known (text r.revision_id))
      ∷ compare_scalar_field ScalarFieldName.default_marker revisions
          (λ r. scalar_of flag r.default_marker)
      ∷ compare_scalar_field ScalarFieldName.scope_boundary revisions
          (λ r. scalar_of text r.scope_boundary)
      ∷ compare_scalar_field ScalarFieldName.availability revisions
          (λ r. scalar_of_availability r.availability)
      ∷ [];
  capabilities = map (compare_capability_group revisions) (
      CapabilityKind.instruction ∷ CapabilityKind.skill ∷ CapabilityKind.mcp ∷ CapabilityKind.hook
      ∷ CapabilityKind.plugin ∷ []);
}
