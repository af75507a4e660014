-- ===== src/JournalStore/Keeping.antt =====
-- in-memory-journal.ts: an operation touches the entry of its own operation, if it succeeds.
use agx.Prelude.{String, ◌≡◌, some, arith, Option-cases, inl, inr, string_eq, ◌==◌, if◌then◌else◌}
use agx.Prelude.Dict.{get, put, get-put}
use agx.Prelude.Outcome.{Outcome, returned, thrown}
use agx.Journal.{Journal}
use agx.JournalStore.{Store, edit}

pub edit_lem :
    (f : Journal → Outcome Journal) (id : String) (m : Store) (r r' : Journal)
    → get id m ≡ some r
    → f r ≡ returned r'
    → edit f id m ≡ (returned r', put id r' m)
unfolding edit
edit_lem f id m r r' found e = ground arith

-- A successful edit stores what it returns, made from the entry that was there, and leaves every
-- other entry; a failed one leaves the map as it was.
pub edit_iff :
    (f : Journal → Outcome Journal) (id : String) (m : Store)
    → ((r' : Journal)
        → (edit f id m).0 ≡ returned r'
        → ((r : Journal) × (get id m ≡ some r) × (f r ≡ returned r'))
          × ((j : String) → get j (edit f id m).1 ≡ (if id == j then some r' else get j m)))
      × ((e : String) → (edit f id m).0 ≡ thrown e → (edit f id m).1 ≡ m)
unfolding edit
edit_iff f id m = elim (Option-cases (get id m)) [
  | inl nothing ↦ ((λ r' e. absurd (ground arith)), (λ e h. ground arith))
  | inr (r, found) ↦ (
    (λ r' e. ((r, found, ground arith), (λ j. ground (arith, get-put id j r' m)))),
    (λ e h. ground arith),
  )
]
