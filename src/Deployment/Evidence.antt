-- ===== src/Deployment/Evidence.antt =====
-- deployment.ts: what a valid observation is, and who may change a resource.
use agx.Prelude.{ℕ, ◌≤◌, ◌<◌, ◌≡◌, ◌≢◌, ◌↔◌, refl, String, false, Option, some, arith, string_eq}
use agx.Prelude.Text.{is_blank}
use agx.Prelude.Checked.{ok}
use agx.Facts.{Fact, known, unknown}
use agx.Deployment.{
  Ownership, created_by_configs, pre_existing, unknown_owner, ResourceBinding, OwnershipAction,
  read, mutate, delete, authorize_ownership, authorize_own, authorize_owned,
}

-- The instants exist, and the observation was made, then verified, no later than now, and has not
-- expired.
abbrev pub Current : (o e v n : Option ℕ) → Type 0
Current o e v n =
    (o' : ℕ) × (e' : ℕ) × (v' : ℕ) × (n' : ℕ) × (o ≡ some o')
    × (e ≡ some e')
    × (v ≡ some v')
    × (n ≡ some n')
    × (o' ≤ v')
    × (v' ≤ n')
    × (n' < e')

abbrev Mine : Ownership → Fact String → Type 0
Mine ownership fingerprint =
    (ownership ≡ Ownership.created_by_configs)
    × ((value : String) × (fingerprint ≡ known value) × (is_blank value ≡ false))

owned_iff :
    (ownership : Ownership) (fingerprint : Fact String)
    → (authorize_owned ownership fingerprint ≡ ok tt) ↔ Mine ownership fingerprint
unfolding authorize_own authorize_owned
owned_iff created_by_configs (known value) =
    ((λ e. (refl, (value, refl, ground arith))), (λ (a, (v, b, c)). ground arith))
owned_iff created_by_configs (unknown reason at) =
    ((λ e. absurd (cc)), (λ (a, (v, b, c)). absurd (cc)))
owned_iff pre_existing fingerprint = ((λ e. absurd (cc)), (λ (a, (v, b, c)). absurd (cc)))
owned_iff unknown_owner fingerprint = ((λ e. absurd (cc)), (λ (a, (v, b, c)). absurd (cc)))

-- Reading is always allowed; changing or deleting a resource is allowed exactly when this program
-- created it and its fingerprint is known and not blank.
pub authorize_iff :
    (resource : ResourceBinding) (action : OwnershipAction)
    → (authorize_ownership resource action ≡ ok tt) ↔ (
        action ≢ OwnershipAction.read
        → (resource.ownership ≡ Ownership.created_by_configs)
          × ((value : String) × (resource.fingerprint ≡ known value) × (is_blank value ≡ false)))
unfolding authorize_ownership
authorize_iff resource read = ((λ e ne. absurd (ne refl)), (λ h. refl))
authorize_iff resource mutate =
    let owned = owned_iff resource.ownership resource.fingerprint in
    ((λ e ne. owned.0 e), (λ h. owned.1 (h (λ e. cc))))
authorize_iff resource delete =
    let owned = owned_iff resource.ownership resource.fingerprint in
    ((λ e ne. owned.0 e), (λ h. owned.1 (h (λ e. cc))))
