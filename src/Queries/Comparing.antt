-- ===== src/Queries/Comparing.antt =====
-- queries.ts, compareConfigRevisions: every id is looked up once, and no failure stops the others.
use mathlib.Core.List.{append_assoc, append-nil}
use agx.Prelude.{
  String, ◌≡◌, refl, sym, ap, ap₂, subst, ◌∙◌, Bool, true, false, ◌||◌, List, [], ◌∷◌, ◌++◌, any,
  string_eq, if◌then◌else◌, Option, some, none, ◌==◌, arith, eq_iff, Bool-cases, inl, inr, ◌⊎◌,
}
use agx.Prelude.Outcome.{returned}
use agx.Config.{StableConfigRevision}
use agx.Config.Compare.{ComparisonResult, compare_revisions}
use agx.Queries.{
  Lookup, Repository, Detail, detail, no_detail, detail_of, CompareFailure, unique_ids, compared,
  resolve_ids, compare_config_revisions,
}

abbrev pub holds : String → List String → Bool
holds id ids = any (λ t. t == id) ids

-- No id is in the list twice.
abbrev pub Distinct : List String → Type 0
Distinct [] = Unit
Distinct (id ∷ ids) = (holds id ids ≡ false) × Distinct ids

holds-append :
    (id new : String) (ids : List String) → holds id (ids ++ new ∷ []) ≡ (holds id ids || new == id)
holds-append id new [] = ground arith
holds-append id new (t ∷ ids) = ground (arith, holds-append id new ids)

Distinct-append :
    (new : String) (ids : List String)
    → holds new ids ≡ false
    → Distinct ids
    → Distinct (ids ++ new ∷ [])
Distinct-append new [] n d = (refl, tt)
Distinct-append new (t ∷ ids) n (m, d) = (
  ground (arith, holds-append t new ids, eq_iff t new, eq_iff new t),
  Distinct-append new ids (ground arith) d,
)

unique_ids-Distinct : (there ids : List String) → Distinct there → Distinct (unique_ids there ids)
unfolding unique_ids
unique_ids-Distinct there [] d = d
unique_ids-Distinct there (id ∷ ids) d = elim (Bool-cases (holds id there)) [
  | inl old ↦ rw old (unique_ids-Distinct there ids d)
  | inr new ↦ rw new (unique_ids-Distinct (there ++ id ∷ []) ids (Distinct-append id there new d))
]

holds-known :
    (id other : String) (ids : List String)
    → holds id ids ≡ true
    → id ≡ other
    → holds other ids ≡ true
holds-known id other ids h e = subst (λ t. holds t ids ≡ true) e h

holds-unique_ids :
    (id : String) (there ids : List String)
    → holds id (unique_ids there ids) ≡ (holds id there || holds id ids)
unfolding unique_ids
holds-unique_ids id there [] = ground arith
holds-unique_ids id there (t ∷ ids) = elim (Bool-cases (holds t there)) [
  | inl old ↦
      rw old
        (holds-unique_ids id there ids ∙ ground (arith, eq_iff t id, holds-known t id there old))
  | inr new ↦
      rw new (holds-unique_ids id (there ++ t ∷ []) ids ∙ ground (arith, holds-append id t there))
]

-- The ids other than the one.
abbrev pub without : String → List String → List String
without id [] = []
without id (t ∷ ids) = if t == id then without id ids else t ∷ without id ids

-- Every id of the list at its first place.
abbrev pub first_places : List String → List String
first_places [] = []
first_places (id ∷ ids) = id ∷ without id (first_places ids)

-- The ids that are not there yet.
abbrev new_to : List String → List String → List String
new_to there [] = []
new_to there (id ∷ ids) = if holds id there then new_to there ids else id ∷ new_to there ids

new_to-nothing : (ids : List String) → new_to [] ids ≡ ids
new_to-nothing [] = refl
new_to-nothing (id ∷ ids) = ap (λ l. id ∷ l) (new_to-nothing ids)

new_to-without :
    (id : String) (there ids : List String)
    → holds id there ≡ true
    → new_to there (without id ids) ≡ new_to there ids
new_to-without id there [] h = refl
new_to-without id there (t ∷ ids) h =
    ground (arith, eq_iff t id, new_to-without id there ids h, holds-known id t there h)

new_to-append :
    (id : String) (there ids : List String)
    → new_to (there ++ id ∷ []) ids ≡ new_to there (without id ids)
new_to-append id there [] = refl
new_to-append id there (t ∷ ids) =
    ground (arith, eq_iff t id, eq_iff id t, holds-append t id there, new_to-append id there ids)

-- The loop over the ids gives each at its first place.
unique_ids-first_places :
    (there ids : List String) → unique_ids there ids ≡ there ++ new_to there (first_places ids)
unfolding unique_ids
unique_ids-first_places there [] = sym (append-nil there)
unique_ids-first_places there (id ∷ ids) = elim (Bool-cases (holds id there)) [
  | inl old ↦ rw old (
      unique_ids-first_places there ids
      ∙ ap (λ l. there ++ l) (sym (new_to-without id there (first_places ids) old)))
  | inr new ↦ rw new (
      unique_ids-first_places (there ++ id ∷ []) ids
      ∙ append_assoc there (id ∷ []) _
      ∙ ap (λ l. there ++ id ∷ l) (new_to-append id there (first_places ids)))
]

unique_ids_lem : (ids : List String) → unique_ids [] ids ≡ first_places ids
unique_ids_lem ids = unique_ids-first_places [] ids ∙ new_to-nothing (first_places ids)

-- A result that compares the revisions, and compares nothing if there is none.
abbrev pub Compares : List StableConfigRevision → Option ComparisonResult → Type 0
Compares [] comparison = comparison ≡ none
Compares (r ∷ rs) comparison = comparison ≡ some (compare_revisions (r ∷ rs))

compared-Compares :
    (revisions : List StableConfigRevision) → Compares revisions (compared revisions)
compared-Compares [] = refl
compared-Compares (r ∷ rs) = refl

Detail-cases :
    (d : Detail)
    → ((r : StableConfigRevision) × (d ≡ detail r)) ⊎ ((m : String) × (d ≡ no_detail m))
Detail-cases (detail r) = inl (r, refl)
Detail-cases (no_detail m) = inr (m, refl)

module _ (table : String → Lookup) where
  -- The revisions that the ids lead to, and the failures of the others.
  abbrev pub revisions_of : List String → List StableConfigRevision
  revisions_of [] = []
  revisions_of (id ∷ ids) = elim (detail_of id (table id)) [
    | detail r ↦ r ∷ revisions_of ids
    | no_detail message ↦ revisions_of ids
  ]

  abbrev pub failures_of : List String → List CompareFailure
  failures_of [] = []
  failures_of (id ∷ ids) = elim (detail_of id (table id)) [
    | detail r ↦ failures_of ids
    | no_detail message ↦ record { revision_id = id; error = message } ∷ failures_of ids
  ]

  found_cons :
      (id : String) (ids : List String) (r : StableConfigRevision)
      → detail_of id (table id) ≡ detail r
      → (r ∷ revisions_of ids ≡ revisions_of (id ∷ ids))
        × (failures_of ids ≡ failures_of (id ∷ ids))
  found_cons id ids r e = (ground arith, ground arith)

  lost_cons :
      (id : String) (ids : List String) (message : String)
      → detail_of id (table id) ≡ no_detail message
      → (revisions_of ids ≡ revisions_of (id ∷ ids))
        × (record { revision_id = id; error = message } ∷ failures_of ids ≡ failures_of (id ∷ ids))
  lost_cons id ids message e = (ground arith, ground arith)

  module _ {S : Type 0} (repository : Repository S)
      (quiet : (id : String) (s : S) → repository.find_by_id id s ≡ (returned (table id), s)) where
    resolve_ids_lem :
        (ids : List String) (resolved : List StableConfigRevision) (failed : List CompareFailure)
        (s : S)
        → resolve_ids repository ids (resolved, failed) s
          ≡ (returned (resolved ++ revisions_of ids, failed ++ failures_of ids), s)
    unfolding resolve_ids
    resolve_ids_lem [] resolved failed s =
        ap₂ (λ a b. (returned (a, b), s)) (sym (append-nil resolved)) (sym (append-nil failed))
    resolve_ids_lem (id ∷ ids) resolved failed s = elim (Detail-cases (detail_of id (table id))) [
      | inl (r, found) ↦
          rw (quiet id s, found)
            (resolve_ids_lem ids (resolved ++ r ∷ []) failed s
              ∙ ap (λ l. (returned (l, failed ++ failures_of ids), s))
                  (append_assoc resolved (r ∷ []) (revisions_of ids))
              ∙ ap₂ (λ a b. (returned (resolved ++ a, failed ++ b), s))
                  (found_cons id ids r found).0 (found_cons id ids r found).1)
      | inr (message, lost) ↦
          rw (quiet id s, lost)
            (resolve_ids_lem ids resolved
                (failed ++ record { revision_id = id; error = message } ∷ []) s
              ∙ ap (λ l. (returned (resolved ++ revisions_of ids, l), s))
                  (append_assoc failed (record { revision_id = id; error = message } ∷ [])
                    (failures_of ids))
              ∙ ap₂ (λ a b. (returned (resolved ++ a, failed ++ b), s))
                  (lost_cons id ids message lost).0 (lost_cons id ids message lost).1)
    ]

    -- When the repository answers without changing anything, the comparison returns: each id is
    -- looked up once, at its first place; the revisions found are compared, and every other id is
    -- reported with its error. There is no comparison exactly when no revision is found.
    pub compare_lem :
        (ids : List String) (s : S)
        → (comparison : Option ComparisonResult) × (let unique = first_places ids in
            (compare_config_revisions repository ids s ≡ (
              returned (record {
                resolved = revisions_of unique;
                failed = failures_of unique;
                comparison = comparison;
              }),
              s,
            ))
            × Compares (revisions_of unique) comparison
            × Distinct unique
            × ((id : String) → holds id unique ≡ holds id ids))
    unfolding compare_config_revisions
    compare_lem ids s =
        subst
          (λ unique.
            (comparison : Option ComparisonResult) × ((compare_config_revisions repository ids s ≡ (
              returned (record {
                resolved = revisions_of unique;
                failed = failures_of unique;
                comparison = comparison;
              }),
              s,
            ))
              × Compares (revisions_of unique) comparison
              × Distinct unique
              × ((id : String) → holds id unique ≡ holds id ids)))
          (unique_ids_lem ids)
          (
            compared (revisions_of (unique_ids [] ids)),
            (
              rw (resolve_ids_lem (unique_ids [] ids) [] [] s) refl,
              compared-Compares (revisions_of (unique_ids [] ids)),
              unique_ids-Distinct [] ids tt,
              (λ id. holds-unique_ids id [] ids),
            ),
          )
