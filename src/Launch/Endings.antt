-- ===== src/Launch/Endings.antt =====
-- launch.ts and claude-launch.ts: what the end of a process stands for, written down once more.
use agx.Prelude.{
  String, ◌≡◌, refl, Option, some, none, Bool, true, false, ◌||◌, List, [], ◌∷◌, ◌++◌,
}
use agx.Prelude.Text.{texts}
use agx.Activation.{ObservedOutcome}
use agx.Activation.Projection.{Applied}
use agx.Launch.World.{ExitCode}

abbrev pub has_any {ℓ} : {A : Type ℓ} → List A → Bool
has_any [] = false
has_any (a ∷ rest) = true

pub has_any-append {ℓ} :
    {A : Type ℓ} (xs ys : List A) → has_any (xs ++ ys) ≡ (has_any xs || has_any ys)
has_any-append [] ys = refl
has_any-append (x ∷ xs) ys = refl

-- Whether a part of the configuration is left out of the launch, as the result is called.
abbrev pub applied_but : Bool → Applied
applied_but false = Applied.applied
applied_but true = Applied.degraded

-- The outcome and the reason that the end of a process stands for: by its exit code and signal, and
-- by whether a part of the configuration is left out. The first two texts begin the reasons.
abbrev pub end_of :
    String → String → Option ExitCode → Option String → Bool → ObservedOutcome × Option String
end_of exited ended (some ExitCode.zero) signal false = (ObservedOutcome.succeeded, none)
end_of exited ended (some ExitCode.zero) signal true = (ObservedOutcome.degraded, none)
end_of exited ended (some (ExitCode.other code)) signal left_out =
    (ObservedOutcome.failed, some (texts (exited ∷ code ∷ [])))
end_of exited ended none (some signal) left_out =
    (ObservedOutcome.incomplete, some (texts (ended ∷ signal ∷ ")" ∷ [])))
end_of exited ended none none left_out =
    (ObservedOutcome.incomplete, some (texts (ended ∷ "unknown" ∷ ")" ∷ [])))
