-- ===== src/Config/Compare/Layout.antt =====
-- config.ts, compareCapabilityGroup: which names are compared, and where each is present.
use agx.Prelude.{
  String, ◌≡◌, refl, sym, ap, ap₂, subst, ◌∙◌, Option, none, some, Bool, true, false, not, ◌||◌,
  List, [], ◌∷◌, ◌++◌, map, string_eq, ◌==◌, any, All, arith, Bool-cases, Option-cases, inl, inr,
  eq_iff, keep,
}
use agx.Prelude.Dict.{Dict, get, put, get-put}
use agx.Prelude.Text.{lex_before, code_units}
use agx.Prelude.TextOrder.{lex_before_trans, lex_before_asym}
use agx.Config.{CapabilityReference, StableConfigRevision, CapabilityKind}
use agx.Config.Compare.{
  Group, columns, compare_name, all_names, add_keys, add_name, sort_names, insert_name,
  CapabilitySourceEntry, CapabilityComparisonEntry, compare_capability_group, capabilities_of_kind,
  refs_by_name, group_of,
}

abbrev is_some : {A : Type 0} → Option A → Bool
is_some none = false
is_some (some a) = true

abbrev pub has : String → Group → Bool
has name g = is_some (get name g.refs)

-- The revisions that have a capability of that name, and those that have none.
abbrev pub ids_with : String → List Group → List String
ids_with name groups = map (λ (g : Group). g.revision_id) (keep (has name) groups)

abbrev pub ids_without : String → List Group → List String
ids_without name groups = map (λ (g : Group). g.revision_id) (keep (λ g. not (has name g)) groups)

-- For each name the revisions are split, in their order, into those that have a capability of that
-- name and those that have none, and all of them are listed with the source.
pub compare_name_lem :
    (name : String) (groups : List Group)
    → ((compare_name name groups).present_in ≡ ids_with name groups)
      × ((compare_name name groups).missing_in ≡ ids_without name groups)
      × (map
            (λ (e : CapabilitySourceEntry). e.revision_id)
            (compare_name name groups).source_category_by_revision
          ≡ map (λ (g : Group). g.revision_id) groups)
unfolding compare_name columns
compare_name_lem name [] = (refl, refl, refl)
compare_name_lem name (g ∷ groups) =
    let (present, missing, all_listed) = compare_name_lem name groups in
    elim (Option-cases (get name g.refs)) [
      | inl none_there ↦
          rw none_there
            (present, ap (λ l. g.revision_id ∷ l) missing, ap (λ l. g.revision_id ∷ l) all_listed)
      | inr (ref, there) ↦
          rw there
            (ap (λ l. g.revision_id ∷ l) present, missing, ap (λ l. g.revision_id ∷ l) all_listed)
    ]

get-nil : (name : String) → get {V = CapabilityReference} name [] ≡ none
unfolding get
get-nil name = refl

or-false : (b : Bool) → (b || false) ≡ b
or-false b = ground arith

-- A list of texts holds one.
abbrev pub holds : String → List String → Bool
holds name names = any (λ n. n == name) names

holds-append :
    (name n : String) (names : List String)
    → holds name (names ++ n ∷ []) ≡ (holds name names || n == name)
holds-append name n [] = ground arith
holds-append name n (m ∷ names) = ground (arith, holds-append name n names)

holds-same :
    (name n : String) (names : List String)
    → n ≡ name
    → holds n names ≡ true
    → holds name names ≡ true
holds-same name n names e h = subst (λ t. holds t names ≡ true) e h

holds-add_name :
    (name n : String) (names : List String)
    → holds name (add_name n names) ≡ (n == name || holds name names)
unfolding add_name
holds-add_name name n names = elim (Bool-cases (holds n names)) [
  | inl old ↦ rw old (ground (arith, eq_iff n name, holds-same name n names))
  | inr new ↦ rw new (ground (arith, holds-append name n names))
]

holds-add_keys :
    (name : String) (m : Dict CapabilityReference) (names : List String)
    → holds name (add_keys m names) ≡ (is_some (get name m) || holds name names)
unfolding add_keys get
holds-add_keys name [] names = refl
holds-add_keys name ((k, ref) ∷ m) names =
    holds-add_keys name m (add_name k names)
    ∙ ap (λ b. is_some (get name m) || b) (holds-add_name name k names)
    ∙ ground arith

holds-all_names :
    (name : String) (groups : List Group) (names : List String)
    → holds name (all_names groups names) ≡ (any (has name) groups || holds name names)
unfolding all_names
holds-all_names name [] names = refl
holds-all_names name (g ∷ groups) names =
    holds-all_names name groups (add_keys g.refs names)
    ∙ ap (λ b. any (has name) groups || b) (holds-add_keys name g.refs names)
    ∙ ground arith

holds-insert_name :
    (name n : String) (names : List String)
    → holds name (insert_name n names) ≡ (n == name || holds name names)
unfolding insert_name
holds-insert_name name n [] = refl
holds-insert_name name n (m ∷ names) = ground (arith, holds-insert_name name n names)

holds-sort_names :
    (name : String) (names : List String) → holds name (sort_names names) ≡ holds name names
unfolding sort_names
holds-sort_names name [] = refl
holds-sort_names name (n ∷ names) =
    holds-insert_name name n (sort_names names)
    ∙ ap (λ b. n == name || b) (holds-sort_names name names)

-- Nothing in the list is before its head, and so on.
abbrev pub Ascending : List String → Type 0
Ascending [] = Unit
Ascending (n ∷ names) =
    All (λ k. lex_before (code_units k) (code_units n) ≡ false) names × Ascending names

All-insert_name :
    (P : String → Type 0) (n : String) (names : List String)
    → P n
    → All P names
    → All P (insert_name n names)
unfolding insert_name
All-insert_name P n [] p h = (p, tt)
All-insert_name P n (m ∷ names) p (q, h) =
    elim (Bool-cases (lex_before (code_units m) (code_units n))) [
      | inl before ↦ rw before (q, All-insert_name P n names p h)
      | inr after ↦ rw after (p, (q, h))
    ]

All-above :
    (a b : String) (names : List String)
    → lex_before (code_units b) (code_units a) ≡ false
    → All (λ k. lex_before (code_units k) (code_units b) ≡ false) names
    → All (λ k. lex_before (code_units k) (code_units a) ≡ false) names
All-above a b [] e h = tt
All-above a b (k ∷ names) e (p, h) =
    (lex_before_trans (code_units k) (code_units b) (code_units a) p e, All-above a b names e h)

insert_name-Ascending :
    (n : String) (names : List String) → Ascending names → Ascending (insert_name n names)
unfolding insert_name
insert_name-Ascending n [] h = (tt, tt)
insert_name-Ascending n (m ∷ names) (above, h) =
    elim (Bool-cases (lex_before (code_units m) (code_units n))) [
      | inl before ↦ rw before (
        All-insert_name (λ k. lex_before (code_units k) (code_units m) ≡ false) n names
            (lex_before_asym (code_units m) (code_units n) before) above,
        insert_name-Ascending n names h,
      )
      | inr after ↦ rw after ((after, All-above n m names after above), (above, h))
    ]

sort_names-Ascending : (names : List String) → Ascending (sort_names names)
unfolding sort_names
sort_names-Ascending [] = tt
sort_names-Ascending (n ∷ names) =
    insert_name-Ascending n (sort_names names) (sort_names-Ascending names)

names_back :
    (groups : List Group) (names : List String)
    → map (λ (c : CapabilityComparisonEntry). c.name) (map (λ name. compare_name name groups) names)
      ≡ names
unfolding compare_name
names_back groups [] = refl
names_back groups (n ∷ names) = ap (λ l. n ∷ l) (names_back groups names)

abbrev pub named : String → List CapabilityReference → Bool
named name = any (λ (ref : CapabilityReference). ref.name == name)

has-refs_by_name :
    (name : String) (refs : List CapabilityReference) (m : Dict CapabilityReference)
    → is_some (get name (refs_by_name refs m)) ≡ (named name refs || is_some (get name m))
unfolding refs_by_name
has-refs_by_name name [] m = refl
has-refs_by_name name (ref ∷ refs) m =
    has-refs_by_name name refs (put ref.name ref m)
    ∙ rw (get-put ref.name name ref m) (ground arith)

any-has :
    (name : String) (kind : CapabilityKind) (revisions : List StableConfigRevision)
    → any (has name) (map (group_of kind) revisions)
      ≡ any (λ r. named name (capabilities_of_kind r kind)) revisions
any-has name kind [] = refl
any-has name kind (r ∷ revisions) =
    ap₂ (λ a b. a || b)
      (has-refs_by_name name (capabilities_of_kind r kind) [] ∙ rw (get-nil name) (or-false _))
      (any-has name kind revisions)

-- The names compared for a kind ascend by their UTF-16 units, and a name is compared exactly when
-- some revision has a capability of that kind with that name.
pub group_names_lem :
    (revisions : List StableConfigRevision) (kind : CapabilityKind)
    → let names =
        map
          (λ (c : CapabilityComparisonEntry). c.name)
          (compare_capability_group revisions kind).entries in
      Ascending names
      × ((name : String)
          → holds name names ≡ any (λ r. named name (capabilities_of_kind r kind)) revisions)
unfolding compare_capability_group
group_names_lem revisions kind =
    let groups = map (group_of kind) revisions in
    let listed = names_back groups (sort_names (all_names groups [])) in
    (
      subst Ascending (sym listed) (sort_names-Ascending (all_names groups [])),
      (λ name.
          ap (holds name) listed
          ∙ holds-sort_names name (all_names groups [])
          ∙ holds-all_names name groups []
          ∙ or-false (any (has name) groups)
          ∙ any-has name kind revisions),
    )
