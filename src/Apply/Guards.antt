-- ===== src/Apply/Guards.antt =====
-- deployment-apply.ts: calls that are about the wrong operation change nothing.
use agx.Prelude.{
  String, ◌≡◌, ◌≢◌, refl, none, some, false, arith, eq_iff, text-ne, text-eq, string_eq, ◌==◌, ◌⊎◌,
  ◌&&◌,
}
use agx.Prelude.Dict.{get, put}
use agx.Prelude.Outcome.{returned, thrown}
use agx.Time.{DateParse}
use agx.Journal.{Journal, Resolution}
use agx.Journal.Resolve.{resolve_inconclusive}
use agx.JournalStore
use agx.Apply.{
  State, ApplyKind, result, resolved_kind, apply_deployment_plan, recover_deployment_operation,
  resolve_deployment_operation, recover_found,
}
use agx.Apply.Remote.{Targets, Ports}

module _ {W R P : Type 0} (targets : Targets R P) (ports : Ports W R P) where
  -- Recovering an operation applies it if it is stored under that deployment. Otherwise the answer
  -- is `blocked`, with the reason as the next action, and neither journal nor remote side changes.
  pub recover_lem :
      (id deployment_id : String) (s : State W)
      → (get id s.store ≡ none
          → recover_deployment_operation targets ports id deployment_id s
            ≡ (returned (result ApplyKind.blocked none (some "operation-not-found")), s))
        × ((op : Journal)
            → get id s.store ≡ some op
            → (op.deployment_id ≡ deployment_id
                → recover_deployment_operation targets ports id deployment_id s
                  ≡ apply_deployment_plan targets ports id s)
              × (op.deployment_id ≢ deployment_id
                  → recover_deployment_operation targets ports id deployment_id s ≡ (
                    returned
                        (result ApplyKind.blocked (some op) (some "operation-identity-mismatch")),
                    s,
                  )))
  unfolding recover_deployment_operation
  recover_lem id deployment_id s = (
    (λ missing. rw missing refl),
    (λ op found. (
      (λ same. rw (found, text-eq op.deployment_id deployment_id same) refl),
      (λ other. rw found (mismatch op other)),
    )),
  )
    where
      mismatch :
          (op : Journal)
          → op.deployment_id ≢ deployment_id
          → recover_found targets ports (some op) id deployment_id s ≡ (
            returned (result ApplyKind.blocked (some op) (some "operation-identity-mismatch")),
            s,
          )
      mismatch op other = rw (text-ne op.deployment_id deployment_id other) refl

-- Resolving through the deployment: a resolution about another operation or deployment is answered
-- as inconclusive, with the entry if there is one; without an entry, or if the journal refuses the
-- resolution, the call throws, the refusal as it is; in all these cases nothing changes. Otherwise
-- only the entry is replaced, by the journal's answer. The remote side never changes.
pub resolve_deployment_lem :
    {W : Type 0} (parse : DateParse) (id deployment_id : String) (res : Resolution) (now : String)
    (s : State W)
    → ((res.operation_id ≢ id) ⊎ (res.deployment_id ≢ deployment_id)
        → resolve_deployment_operation parse id deployment_id res now s ≡ (
          returned (result ApplyKind.inconclusive (get id s.store) (some "observe-remote-state")),
          s,
        ))
      × ((op op' : Journal)
          → res.operation_id ≡ id
          → res.deployment_id ≡ deployment_id
          → get id s.store ≡ some op
          → resolve_inconclusive parse op res now ≡ returned op'
          → resolve_deployment_operation parse id deployment_id res now s ≡ (
            returned (result (resolved_kind op'.phase) (some op') none),
            record s { store = put id op' s.store },
          ))
      × (res.operation_id ≡ id
          → res.deployment_id ≡ deployment_id
          → get id s.store ≡ none
          → resolve_deployment_operation parse id deployment_id res now s
            ≡ (thrown "operation not found", s))
      × ((op : Journal) (e : String)
          → res.operation_id ≡ id
          → res.deployment_id ≡ deployment_id
          → get id s.store ≡ some op
          → resolve_inconclusive parse op res now ≡ thrown e
          → resolve_deployment_operation parse id deployment_id res now s ≡ (thrown e, s))
unfolding resolve_deployment_operation JournalStore.resolve JournalStore.edit
resolve_deployment_lem parse id deployment_id res now s = (
  (λ other.
      let differs : (res.operation_id == id && res.deployment_id == deployment_id) ≡ false =
        ground (arith, eq_iff res.operation_id id, eq_iff res.deployment_id deployment_id) in
      rw differs refl),
  (λ op op' same_id same_deployment found e.
      rw
        (
          text-eq res.operation_id id same_id,
          text-eq res.deployment_id deployment_id same_deployment,
        )
        (rw (found, e) refl)),
  (λ same_id same_deployment missing.
      rw
        (
          text-eq res.operation_id id same_id,
          text-eq res.deployment_id deployment_id same_deployment,
          missing,
        )
        refl),
  (λ op e same_id same_deployment found refused.
      rw
        (
          text-eq res.operation_id id same_id,
          text-eq res.deployment_id deployment_id same_deployment,
          found,
          refused,
        )
        refl),
)
