-- ===== src/Journal/Front.antt =====
-- operation-journal.ts: the first step that passes a test, at the front of those still to come.
use agx.Prelude.{◌≡◌, some, Bool, true, false, List, [], ◌∷◌, ◌++◌, arith, find, All, if◌then◌else◌}
use agx.Journal.{Step, is_pending}
use agx.Journal.Numbering.{change_first}

module _ (test : Step → Bool) where
  abbrev pub AllMiss : List Step → Type 0
  AllMiss = All (λ s. test s ≡ false)

  pub find-front :
      (done : List Step) (s : Step) (rest : List Step)
      → AllMiss done
      → test s ≡ true
      → find test (done ++ s ∷ rest) ≡ some s
  find-front [] s rest h p = ground arith
  find-front (d ∷ done) s rest (q, h) p = ground (arith, find-front done s rest h p)

  pub change_first-front :
      (f : Step → Step) (done : List Step) (s : Step) (rest : List Step)
      → AllMiss done
      → test s ≡ true
      → change_first test f (done ++ s ∷ rest) ≡ done ++ f s ∷ rest
  unfolding change_first
  change_first-front f [] s rest h p = ground arith
  change_first-front f (d ∷ done) s rest (q, h) p =
      ground (arith, change_first-front f done s rest h p)

  pub All-change_first :
      (P : Step → Type 0) (f : Step → Step) (steps : List Step)
      → ((s : Step) → P s → P (f s))
      → All P steps
      → All P (change_first test f steps)
  unfolding change_first
  All-change_first P f [] k h = tt
  All-change_first P f (s ∷ steps) k (p, h) =
      elim (test s) as (λ b. All P (if b then f s ∷ steps else s ∷ change_first test f steps)) [
        | true ↦ (k s p, h)
        | false ↦ (p, All-change_first P f steps k h)
      ]

abbrev pub AllSettled : List Step → Type 0
AllSettled = AllMiss is_pending
