-- ===== src/Compose/Correlate/First.antt =====
-- The first mount of the containers of a service that matches a declared one, by where it stands.
use docker_map.Common.{
  ◌≡◌, refl, ap, ◌∙◌, subst, sym, Bool, true, false, inl, inr, List, [], ◌∷◌, ◌++◌, filter, none,
  some, Option-cases, Bool-cases, All,
}
use docker_map.Models.{ContainerMount, ContainerRecord}
use docker_map.Models.Compose.{ComposeMount}
use docker_map.Compose.Correlate.{mounts_match, find_match, container_matches_service}
use docker_map.Common.Members.{find}

-- The element has the property and stands in the list after elements that do not have it.
pub record IsFirst {A : Type 0} (p : A → Bool) (xs : List A) (a : A) : Type 0 where
  pub earlier : List A
  pub later : List A
  pub split : xs ≡ earlier ++ a ∷ later
  pub fails : All (λ x. p x ≡ false) earlier
  pub holds : p a ≡ true

module _ {A : Type 0} (p : A → Bool) where
  find-IsFirst : (xs : List A) (a : A) → find p xs ≡ some a → IsFirst p xs a
  find-IsFirst [] a h = absurd (cc h)
  find-IsFirst (x ∷ xs) a h = elim (Bool-cases (p x)) [
    | inl ok ↦
        let same : x ≡ a = cc (rw ok at h) in
        record {
          earlier = [];
          later = xs;
          split = ap (λ y. y ∷ xs) same;
          fails = tt;
          holds = ap p (sym same) ∙ ok;
        }
    | inr fails ↦
        let w = find-IsFirst xs a (rw fails at h) in
        record {
          earlier = x ∷ w.earlier;
          later = w.later;
          split = ap (◌∷◌ x) w.split;
          fails = (fails, w.fails);
          holds = w.holds;
        }
  ]

  find-after :
      (earlier later : List A) (a : A)
      → All (λ x. p x ≡ false) earlier
      → p a ≡ true
      → find p (earlier ++ a ∷ later) ≡ some a
  find-after [] later a f h = rw h refl
  find-after (x ∷ xs) later a f h = rw f.0 (find-after xs later a f.1 h)

  find-fails : (xs : List A) → All (λ x. p x ≡ false) xs → find p xs ≡ none
  find-fails [] f = refl
  find-fails (x ∷ xs) f = rw f.0 (find-fails xs f.1)

  fails-find : (xs : List A) → find p xs ≡ none → All (λ x. p x ≡ false) xs
  fails-find [] h = tt
  fails-find (x ∷ xs) h = elim (Bool-cases (p x)) [
    | inl ok ↦ absurd (cc (rw ok at h))
    | inr fails ↦ (fails, fails-find xs (rw fails at h))
  ]

module _ (mount : ComposeMount) where
  -- A container that is not of the service, or has no mount that matches.
  abbrev pub HasNone : ContainerRecord → Type 0
  HasNone d =
      container_matches_service d mount.service ≡ true
      → All (λ r. mounts_match mount r ≡ false) d.mounts

  -- The mount is the first that matches, of the first container of the service that has any.
  pub record IsFirstMatch (containers : List ContainerRecord) (c : ContainerRecord)
      (r : ContainerMount) : Type 0 where
    pub before : List ContainerRecord
    pub after : List ContainerRecord
    pub split : containers ≡ before ++ c ∷ after
    pub passed : All HasNone before
    pub runs : container_matches_service c mount.service ≡ true
    pub first : IsFirst (mounts_match mount) c.mounts r

  abbrev of_service : List ContainerRecord → List ContainerRecord
  of_service = filter (λ container. container_matches_service container mount.service)

  IsFirstMatch-later :
      (d : ContainerRecord) (containers : List ContainerRecord) (c : ContainerRecord)
      (r : ContainerMount)
      → HasNone d
      → IsFirstMatch containers c r
      → IsFirstMatch (d ∷ containers) c r
  IsFirstMatch-later d containers c r none_here w = record {
    before = d ∷ w.before;
    after = w.after;
    split = ap (◌∷◌ d) w.split;
    passed = (none_here, w.passed);
    runs = w.runs;
    first = w.first;
  }

  pub find_match-IsFirstMatch :
      (containers : List ContainerRecord) (c : ContainerRecord) (r : ContainerMount)
      → find_match mount (of_service containers) ≡ some (c, r)
      → IsFirstMatch containers c r
  unfolding find_match
  find_match-IsFirstMatch [] c r h = absurd (cc h)
  find_match-IsFirstMatch (d ∷ containers) c r h =
      elim (Bool-cases (container_matches_service d mount.service)) [
        | inr other ↦
            IsFirstMatch-later d containers c r (λ t. absurd (cc (t, other)))
              (find_match-IsFirstMatch containers c r (rw other at h))
        | inl ours ↦ elim (Option-cases (find (mounts_match mount) d.mounts)) [
          | inl nowhere ↦
              IsFirstMatch-later d containers c r
                (λ t. fails-find (mounts_match mount) d.mounts nowhere)
                (find_match-IsFirstMatch containers c r (rw (ours, find_match, nowhere) at h))
          | inr (s, e) ↦
              let same : ◌≡◌ {A = ContainerRecord × ContainerMount} (d, s) (c, r) =
                cc (rw (ours, find_match, e) at h) in
              subst (λ q. IsFirstMatch (d ∷ containers) q.0 q.1) same
                (record {
                  before = [];
                  after = containers;
                  split = refl;
                  passed = tt;
                  runs = ours;
                  first = find-IsFirst (mounts_match mount) d.mounts s e;
                })
        ]
      ]

  find_match-after :
      (before after : List ContainerRecord) (c : ContainerRecord) (r : ContainerMount)
      → All HasNone before
      → container_matches_service c mount.service ≡ true
      → find (mounts_match mount) c.mounts ≡ some r
      → find_match mount (of_service (before ++ c ∷ after)) ≡ some (c, r)
  unfolding find_match
  find_match-after [] after c r passed runs e = rw runs (rw (e, find_match) refl)
  find_match-after (d ∷ before) after c r passed runs e =
      elim (Bool-cases (container_matches_service d mount.service)) [
        | inr other ↦ rw other (find_match-after before after c r passed.1 runs e)
        | inl ours ↦
            let nowhere = find-fails (mounts_match mount) d.mounts (passed.0 ours) in
            rw ours (rw (nowhere, find_match) (find_match-after before after c r passed.1 runs e))
      ]

  pub IsFirstMatch-find_match :
      (containers : List ContainerRecord) (c : ContainerRecord) (r : ContainerMount)
      → IsFirstMatch containers c r
      → find_match mount (of_service containers) ≡ some (c, r)
  IsFirstMatch-find_match containers c r w =
      ap (λ l. find_match mount (of_service l)) w.split
      ∙ find_match-after w.before w.after c r w.passed w.runs (
          ap (find (mounts_match mount)) w.first.split
          ∙ find-after (mounts_match mount) w.first.earlier w.first.later r w.first.fails
              w.first.holds)
