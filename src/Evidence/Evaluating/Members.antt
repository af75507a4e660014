-- ===== src/Evidence/Evaluating/Members.antt =====
-- evidence.ts, evaluateEvidence: the observations that the loops go through are those of the input.
use agx.Prelude.{
  ◌≡◌, refl, sym, subst, Bool, Option, none, some, List, [], ◌∷◌, find, All, ◌⊎◌, ◌↔◌, inl, inr,
  Bool-cases,
}
use mathlib.Core.List.{Memᴰ}
use mathlib.Core.List.Memᴰ
use mathlib.Core.List.Memᴰ.{head, tail}
use agx.Evidence.{EvidenceObservation}
use agx.Evidence.Comparing.{same_key, same_observation, same_observation_eq}
use agx.Evidence.Evaluating.{insert_by, sort_by}
use agx.Evidence.Tallying.{Identified, identify, identify_at}
use agx.Evidence.Evaluating.Silence.{append-nil, identify-silent}

module _ {A : Type 0} where
  pub find-Mem : (p : A → Bool) (xs : List A) (x : A) → find p xs ≡ some x → Memᴰ x xs
  find-Mem p [] x e = absurd (cc)
  find-Mem p (y ∷ ys) x e = elim (Bool-cases (p y)) [
    | inl here ↦ head (cc (rw here at e))
    | inr there ↦ tail (find-Mem p ys x (rw there at e))
  ]

  pub All-Mem : (P : A → Type 0) (xs : List A) → ((x : A) → Memᴰ x xs → P x) → All P xs
  All-Mem P [] f = tt
  All-Mem P (x ∷ xs) f = (f x (head refl), All-Mem P xs (λ y m. f y (tail m)))

  pub Mem-All : (P : A → Type 0) (xs : List A) (x : A) → Memᴰ x xs → All P xs → P x
  Mem-All P [] x m h = absurd (Memᴰ.not-nil m)
  Mem-All P (y ∷ ys) x (head e) (p, h) = subst P (sym e) p
  Mem-All P (y ∷ ys) x (tail m) (p, h) = Mem-All P ys x m h

module _ (before : EvidenceObservation → EvidenceObservation → Bool) where
  insert_by-Mem :
      (o x : EvidenceObservation) (os : List EvidenceObservation)
      → Memᴰ x (insert_by before o os)
      → (x ≡ o) ⊎ Memᴰ x os
  unfolding insert_by
  insert_by-Mem o x [] m = Memᴰ.cases_cons m
  insert_by-Mem o x (p ∷ os) m = elim (Bool-cases (before p o)) [
    | inl later ↦ elim (Memᴰ.cases_cons (rw later at m)) [
      | inl e ↦ inr (head e)
      | inr n ↦ elim (insert_by-Mem o x os n) [ inl e ↦ inl e | inr k ↦ inr (tail k) ]
    ]
    | inr here ↦ Memᴰ.cases_cons (rw here at m)
  ]

  Mem-insert_by :
      (o x : EvidenceObservation) (os : List EvidenceObservation)
      → (x ≡ o) ⊎ Memᴰ x os
      → Memᴰ x (insert_by before o os)
  unfolding insert_by
  Mem-insert_by o x [] (inl e) = head e
  Mem-insert_by o x [] (inr m) = tail m
  Mem-insert_by o x (p ∷ os) m = elim (Bool-cases (before p o)) [
    | inl later ↦ rw later (elim m [
      | inl e ↦ tail (Mem-insert_by o x os (inl e))
      | inr n ↦ elim (Memᴰ.cases_cons n) [
        | inl e ↦ head e
        | inr k ↦ tail (Mem-insert_by o x os (inr k))
      ]
    ])
    | inr here ↦ rw here (elim m [ inl e ↦ head e | inr n ↦ tail n ])
  ]

  -- Sorting keeps the members.
  pub sort_by-Mem :
      (x : EvidenceObservation) (os : List EvidenceObservation)
      → Memᴰ x (sort_by before os) ↔ Memᴰ x os
  unfolding sort_by
  sort_by-Mem x [] = ((λ m. m), (λ m. m))
  sort_by-Mem x (o ∷ os) =
      let (there, back) = sort_by-Mem x os in
      (
        (λ m. elim (insert_by-Mem o x (sort_by before os) m) [
          | inl e ↦ head e
          | inr n ↦ tail (there n)
        ]),
        (λ m. elim (Memᴰ.cases_cons m) [
          | inl e ↦ Mem-insert_by o x (sort_by before os) (inl e)
          | inr n ↦ Mem-insert_by o x (sort_by before os) (inr (back n))
        ]),
      )

identify_at-Mem :
    (p : Option EvidenceObservation) (o x : EvidenceObservation) (st : Identified)
    → Memᴰ x (identify_at p o st).identity
    → Memᴰ x st.identity ⊎ (x ≡ o)
unfolding identify_at
identify_at-Mem none o x st m = elim (Memᴰ.append_cases st.identity m) [
  | inl k ↦ inl k
  | inr k ↦ elim (Memᴰ.cases_cons k) [ inl e ↦ inr e | inr n ↦ absurd (Memᴰ.not-nil n) ]
]
identify_at-Mem (some previous) o x st m = elim (Bool-cases (same_observation previous o)) [
  | inl same ↦ inl (rw same at m)
  | inr other ↦ inl (rw other at m)
]

-- What is identified was there, or comes from the input.
pub identify-Mem :
    (os : List EvidenceObservation) (x : EvidenceObservation) (st : Identified)
    → Memᴰ x (identify os st).identity
    → Memᴰ x st.identity ⊎ Memᴰ x os
unfolding identify
identify-Mem [] x st m = inl m
identify-Mem (o ∷ os) x st m = elim (identify-Mem os x _ m) [
  | inl k ↦ elim (identify_at-Mem _ o x st k) [ inl n ↦ inl n | inr e ↦ inr (head e) ]
  | inr k ↦ inr (tail k)
]

identify_at-keeps :
    (p : Option EvidenceObservation) (o x : EvidenceObservation) (st : Identified)
    → Memᴰ x st.identity
    → Memᴰ x (identify_at p o st).identity
unfolding identify_at
identify_at-keeps none o x st m = Memᴰ.append_left (o ∷ []) m
identify_at-keeps (some previous) o x st m = elim (Bool-cases (same_observation previous o)) [
  | inl same ↦ rw same m
  | inr other ↦ rw other m
]

identify-keeps :
    (os : List EvidenceObservation) (x : EvidenceObservation) (st : Identified)
    → Memᴰ x st.identity
    → Memᴰ x (identify os st).identity
unfolding identify
identify-keeps [] x st m = m
identify-keeps (o ∷ os) x st m = identify-keeps os x _ (identify_at-keeps _ o x st m)

identify_at-has :
    (o : EvidenceObservation) (st : Identified)
    → (identify_at (find (λ previous. same_key previous o) st.identity) o st).diagnostics ≡ []
    → Memᴰ o (identify_at (find (λ previous. same_key previous o) st.identity) o st).identity
unfolding identify_at
identify_at-has o st e = at (find (λ previous. same_key previous o) st.identity) refl e
  where
    at :
        (p : Option EvidenceObservation)
        → find (λ previous. same_key previous o) st.identity ≡ p
        → (identify_at p o st).diagnostics ≡ []
        → Memᴰ o (identify_at p o st).identity
    at none f e = Memᴰ.append_right st.identity (head refl)
    at (some previous) f e = elim (Bool-cases (same_observation previous o)) [
      | inl same ↦ rw same (
          Memᴰ.cast (sym (same_observation_eq previous o same)) (find-Mem _ st.identity previous f))
      | inr other ↦ absurd (append-nil st.diagnostics _ (rw other at e))
    ]

-- If nothing is contradicted, every observation is identified.
pub identify-has :
    (os : List EvidenceObservation) (x : EvidenceObservation) (st : Identified)
    → (identify os st).diagnostics ≡ []
    → Memᴰ x os
    → Memᴰ x (identify os st).identity
unfolding identify
identify-has [] x st e m = absurd (Memᴰ.not-nil m)
identify-has (o ∷ os) x st e (head same) =
    Memᴰ.cast same (identify-keeps os o _ (identify_at-has o st (identify-silent os _ e).0))
identify-has (o ∷ os) x st e (tail m) = identify-has os x _ e m
