-- ===== src/Claude/Manifest/Compiling.antt =====
-- assembly-manifest.ts, compileClaudeAssemblyManifest: when a configuration cannot be launched.
use agx.Prelude.{
  String, ◌≡◌, ◌≢◌, ◌↔◌, refl, sym, ap, ◌∙◌, Bool-cases, eq_iff, string_eq, ◌==◌, Bool, true, false,
  not, ◌&&◌, ◌⊎◌, inl, inr, List, [], ◌∷◌, map, keep, arith,
}
use agx.Prelude.Dict.{get}
use agx.Config.{StableConfigRevision}
use agx.Launch.World.{ProbeLevel}
use agx.Claude.Capability.{CapabilityNote}
use agx.Claude.AdapterPlan.{is_usable, build_argv, compile_adapter_plan}
use agx.Claude.Manifest.{
  Manifest, compiled, blocked, ManifestStatus, add_note, sort_notes, status_of, policy_of,
  resolve_capability_note, compile_sorted, compile_manifest,
}

abbrev id_of : CapabilityNote → String
id_of n = n.capability_id

-- The capability can neither be used nor done without.
abbrev pub is_missing : CapabilityNote → Bool
is_missing n = n.required && not (is_usable n.status)

abbrev is_supported : ProbeLevel → Bool
is_supported ProbeLevel.supported = true
is_supported _ = false

-- The launch can do with what there is of the capability.
abbrev pub is_reduced : CapabilityNote → Bool
is_reduced n = not (is_missing n) && not (is_supported n.status)

add_note_lem :
    (n : CapabilityNote) (policy : List CapabilityNote)
    → add_note n n.status n.required (record {
      missing_required = map id_of (keep is_missing policy);
      degraded = map id_of (keep is_reduced policy);
    })
      ≡ record {
        missing_required = map id_of (keep is_missing (n ∷ policy));
        degraded = map id_of (keep is_reduced (n ∷ policy));
      }
unfolding add_note
add_note_lem n policy = ground arith

sort_notes_lem :
    (policy : List CapabilityNote)
    → sort_notes policy ≡ record {
      missing_required = map id_of (keep is_missing policy);
      degraded = map id_of (keep is_reduced policy);
    }
unfolding sort_notes
sort_notes_lem [] = refl
sort_notes_lem (n ∷ policy) = rw (sort_notes_lem policy) (add_note_lem n policy)

-- What a manifest takes from the configuration and from the notes on the client.
pub record Manifests (r : StableConfigRevision) (policy : List CapabilityNote) (m : Manifest)
    : Type 0 where
  pub same_revision : m.revision_id ≡ r.revision_id
  pub same_policy : m.capability_policy ≡ policy
  pub reduced : m.degraded_capabilities ≡ map id_of (keep is_reduced policy)
  pub none_missing : keep is_missing policy ≡ []
  pub ready_iff : (m.manifest_status ≡ ManifestStatus.ready) ↔ (keep is_reduced policy ≡ [])

status_of_iff :
    (notes : List CapabilityNote)
    → (status_of (map id_of notes) ≡ ManifestStatus.ready) ↔ (notes ≡ [])
status_of_iff [] = ((λ e. refl), (λ e. refl))
status_of_iff (n ∷ notes) = ((λ e. absurd (cc)), (λ e. absurd (cc)))

compile_sorted_lem :
    (r : StableConfigRevision) (policy missing : List CapabilityNote)
    → keep is_missing policy ≡ missing
    → ((m : Manifest) × (compile_sorted r policy
            (map id_of missing)
            (map id_of (keep is_reduced policy))
          ≡ compiled m)
        × Manifests r policy m)
      ⊎ ((missing ≢ [])
          × (compile_sorted r policy (map id_of missing) (map id_of (keep is_reduced policy))
              ≡ blocked (record {
                revision_id = r.revision_id;
                config_name = r.config_name;
                missing_required = map id_of missing;
              })))
unfolding compile_sorted
compile_sorted_lem r policy [] e = inl (
  _,
  refl,
  record {
    same_revision = refl;
    same_policy = refl;
    reduced = refl;
    none_missing = e;
    ready_iff = status_of_iff (keep is_reduced policy);
  },
)
compile_sorted_lem r policy (n ∷ missing) e = inr ((λ e. cc), refl)

-- A configuration is blocked exactly when it needs a capability that is required and can neither
-- be used nor used in part, and the answer names those capabilities; otherwise its manifest lists
-- what is reduced, and is ready exactly when nothing is.
pub compile_manifest_lem :
    (r : StableConfigRevision) (probed : List CapabilityNote) (now : String)
    → let policy = policy_of r probed now in
      ((m : Manifest) × (compile_manifest r probed now ≡ compiled m) × Manifests r policy m)
      ⊎ ((keep is_missing policy ≢ [])
          × (compile_manifest r probed now
              ≡ blocked (record {
                revision_id = r.revision_id;
                config_name = r.config_name;
                missing_required = map id_of (keep is_missing policy);
              })))
unfolding compile_manifest
compile_manifest_lem r probed now =
    let policy = policy_of r probed now in
    rw (sort_notes_lem policy) (compile_sorted_lem r policy (keep is_missing policy) refl)

find_id :
    (probed : List CapabilityNote) (id now : String)
    → (resolve_capability_note probed now id).capability_id ≡ id
unfolding resolve_capability_note
find_id [] id now = refl
find_id (n ∷ probed) id now = elim (Bool-cases (n.capability_id == id)) [
  | inl same ↦ rw same ((eq_iff n.capability_id id).0 same)
  | inr other ↦ rw other (find_id probed id now)
]

abbrev permission_mode : String
permission_mode = "claude.permission-mode-control"

permission_argv :
    (n : CapabilityNote) (policy : List CapabilityNote)
    → n.capability_id ≡ permission_mode
    → n.required ≡ true
    → keep is_missing (n ∷ policy) ≡ []
    → build_argv (n ∷ policy) ≡ "--permission-mode" ∷ "manual" ∷ build_argv policy
unfolding build_argv get
permission_argv n policy e required none_missing =
    let usable : is_usable n.status ≡ true = ground arith in rw (usable, e) refl

policy_first :
    (r : StableConfigRevision) (probed : List CapabilityNote) (now : String)
    → (others : List CapabilityNote) × (policy_of r probed now
        ≡ resolve_capability_note probed now permission_mode ∷ others)
unfolding policy_of
policy_first r probed now = (_, refl)

-- A manifest for a client whose permission mode is required to be controlled is only compiled into
-- a command line that sets it, first of all.
pub permission_lem :
    (r : StableConfigRevision) (probed : List CapabilityNote) (now : String) (m : Manifest)
    → (resolve_capability_note probed now permission_mode).required ≡ true
    → compile_manifest r probed now ≡ compiled m
    → (rest : List String) × ((compile_adapter_plan m).argv ≡ "--permission-mode" ∷ "manual" ∷ rest)
unfolding compile_adapter_plan
permission_lem r probed now m required e = elim (compile_manifest_lem r probed now) [
  | inl (m', f, takes) ↦
      let same : m ≡ m' = cc in
      let (others, first) = policy_first r probed now in
      let note = resolve_capability_note probed now permission_mode in
      (
        build_argv others,
        ap (λ (x : Manifest). build_argv x.capability_policy) same
            ∙ ap build_argv (takes.same_policy ∙ first)
            ∙ permission_argv note others (find_id probed permission_mode now) required
                (ap (keep is_missing) (sym first) ∙ takes.none_missing),
      )
  | inr (some_missing, f) ↦ absurd (cc)
]
