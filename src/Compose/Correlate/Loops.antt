-- ===== src/Compose/Correlate/Loops.antt =====
-- The loops of `correlate_compose_runtime`.
use docker_map.Common.{
  ◌≡◌, ◌↔◌, refl, sym, ap, ◌∙◌, subst, ◌⊎◌, inl, inr, true, false, not, List, [], ◌∷◌, ◌++◌, map,
  filter, Option, none, some, Bool-cases, Occurs, Text, text_eq, text_eq_iff, text_eq_sound, arith,
  append-nil, append_assoc,
}
use docker_map.Common.Maps.{Set, contains_key, get-insert, text_Ord}
use docker_map.Models.{ContainerMount, ContainerRecord, DockerSnapshot}
use docker_map.Models.Compose.{ComposeMount, ComposeService, ComposeScan, MountCorrelation}
use docker_map.Compose.Correlate.{
  container_matches_service, mounts_match, find_match, containers_of, matched_correlation,
  missing_correlation, extra_correlation, Correlating, tell_mount, correlate_mounts, extras,
}
use docker_map.Compose.Correlate.Found.{find_match-none}
use docker_map.Common.Members.{
  filter_complete, filter_sound, flat_map_complete, flat_map_sound, map_complete, map_sound,
}

module _ (snapshot : DockerSnapshot) where
  -- The container is taken for one of the service.
  abbrev pub Runs : Text → ContainerRecord → Type 0
  Runs service c = Occurs c snapshot.containers × (container_matches_service c service ≡ true)

  abbrev pub IsMatch : ComposeMount → ContainerRecord → ContainerMount → Type 0
  IsMatch mount c r = Runs mount.service c × Occurs r c.mounts × (mounts_match mount r ≡ true)

  abbrev pub IsUnmatched : ComposeMount → Type 0
  IsUnmatched mount = (c : ContainerRecord) (r : ContainerMount) → IsMatch mount c r → ⊥

  -- A declared mount takes the first mount that matches it, which has the identity.
  abbrev pub Claims : List ComposeMount → Text → Type 0
  Claims mounts id =
      (mount : ComposeMount) × Occurs mount mounts
      × ((found : ContainerRecord × ContainerMount) × (find_match mount
              (containers_of snapshot mount.service)
            ≡ some found)
          × (found.1.id ≡ id))

  -- A mount of a container is told to be declared nowhere.
  abbrev pub TellsExtra : ComposeScan → MountCorrelation → Type 0
  TellsExtra scan f =
      (service : ComposeService) × (c : ContainerRecord) × (r : ContainerMount) × Occurs service
        scan.services
      × Runs service.name c
      × Occurs r c.mounts
      × (Claims scan.mounts r.id → ⊥)
      × (f ≡ extra_correlation service c r)

  unfoldable pub tell :
      (mount : ComposeMount) → Option (ContainerRecord × ContainerMount) → MountCorrelation
  tell mount none = missing_correlation mount (containers_of snapshot mount.service)
  tell mount (some found) = matched_correlation mount found

  abbrev pub told : ComposeMount → MountCorrelation
  told mount = tell mount (find_match mount (containers_of snapshot mount.service))

  pub find_match-IsUnmatched :
      (mount : ComposeMount)
      → find_match mount (containers_of snapshot mount.service) ≡ none
      → IsUnmatched mount
  find_match-IsUnmatched mount nowhere c r (runs, o, m) = absurd (
      cc (
        m,
        find_match-none mount (containers_of snapshot mount.service) c r nowhere
            (filter_complete (λ d. container_matches_service d mount.service) c snapshot.containers
              runs.0 runs.1)
            o,
      ))

  tell_mount-tell :
      (mount : ComposeMount) (found : Option (ContainerRecord × ContainerMount)) (c : Correlating)
      → (tell_mount mount (containers_of snapshot mount.service) found c).1
        ≡ c.1 ++ tell mount found ∷ []
  unfolding tell
  tell_mount-tell mount none (matched, correlations) = refl
  tell_mount-tell mount (some found) (matched, correlations) = refl

  pub correlate_mounts-told :
      (c : Correlating) (mounts : List ComposeMount)
      → (correlate_mounts snapshot c mounts).1 ≡ c.1 ++ map told mounts
  unfolding correlate_mounts
  correlate_mounts-told c [] = sym (append-nil c.1)
  correlate_mounts-told c (mount ∷ mounts) =
      let found = find_match mount (containers_of snapshot mount.service) in
      correlate_mounts-told (tell_mount mount (containers_of snapshot mount.service) found c) mounts
      ∙ ap (λ cs. cs ++ map told mounts) (tell_mount-tell mount found c)
      ∙ append_assoc c.1 (told mount ∷ []) (map told mounts)

  -- The identity is that of the mount that was found.
  abbrev Takes : Option (ContainerRecord × ContainerMount) → Text → Type 0
  Takes none id = ⊥
  Takes (some found) id = found.1.id ≡ id

  tell_mount-Takes :
      (mount : ComposeMount) (containers : List ContainerRecord)
      (found : Option (ContainerRecord × ContainerMount)) (c : Correlating) (id : Text)
      → (contains_key id (tell_mount mount containers found c).0 ≡ true)
        ↔ ((contains_key id c.0 ≡ true) ⊎ Takes found id)
  tell_mount-Takes mount containers none (matched, correlations) id =
      (λ h. inl h, λ h. elim h [ inl t ↦ t | inr o ↦ absurd o ])
  tell_mount-Takes mount containers (some found) (matched, correlations) id =
      let now = get-insert found.1.id id tt matched in
      (
        λ h. elim (Bool-cases (text_eq id found.1.id)) [
          | inl same ↦ inr (sym (text_eq_sound id found.1.id same))
          | inr other ↦ inl (ground arith)
        ],
        λ h. elim h [
          | inl t ↦ ground arith
          | inr e ↦
              let same : text_eq id found.1.id ≡ true = (text_eq_iff _ _).1 (sym e) in ground arith
        ],
      )

  Claims-later :
      (mount : ComposeMount) (mounts : List ComposeMount) (id : Text)
      → Claims mounts id
      → Claims (mount ∷ mounts) id
  Claims-later mount mounts id (m, o, t) = (m, inr o, t)

  Takes-Claims :
      (mount : ComposeMount) (mounts : List ComposeMount) (id : Text)
      (found : Option (ContainerRecord × ContainerMount))
      → find_match mount (containers_of snapshot mount.service) ≡ found
      → Takes found id
      → Claims (mount ∷ mounts) id
  Takes-Claims mount mounts id none e t = absurd t
  Takes-Claims mount mounts id (some found) e t = (mount, inl refl, (found, e, t))

  Claims-first :
      (mount : ComposeMount) (mounts : List ComposeMount) (id : Text)
      → Claims (mount ∷ mounts) id
      → Takes (find_match mount (containers_of snapshot mount.service)) id ⊎ Claims mounts id
  Claims-first mount mounts id (m, inr o, t) = inr (m, o, t)
  Claims-first mount mounts id (m, inl same, (found, e, t)) =
      let here : find_match mount (containers_of snapshot mount.service) ≡ some found =
        ap (λ x. find_match x (containers_of snapshot x.service)) (sym same) ∙ e in
      inl (subst (λ o. Takes o id) (sym here) t)

  pub correlate_mounts-claims :
      (c : Correlating) (mounts : List ComposeMount) (id : Text)
      → (contains_key id (correlate_mounts snapshot c mounts).0 ≡ true)
        ↔ ((contains_key id c.0 ≡ true) ⊎ Claims mounts id)
  unfolding correlate_mounts
  correlate_mounts-claims c [] id = (λ h. inl h, λ h. elim h [ inl t ↦ t | inr t ↦ absurd t.1 ])
  correlate_mounts-claims c (mount ∷ mounts) id =
      let containers = containers_of snapshot mount.service in
      let found = find_match mount containers in
      let step = tell_mount-Takes mount containers found c id in
      let later = correlate_mounts-claims (tell_mount mount containers found c) mounts id in
      (
        λ h. elim (later.0 h) [
          | inl t ↦ elim (step.0 t) [
            | inl t' ↦ inl t'
            | inr t' ↦ inr (Takes-Claims mount mounts id found refl t')
          ]
          | inr t ↦ inr (Claims-later mount mounts id t)
        ],
        λ h. elim h [
          | inl t ↦ later.1 (inl (step.1 (inl t)))
          | inr t ↦ elim (Claims-first mount mounts id t) [
            | inl t' ↦ later.1 (inl (step.1 (inr t')))
            | inr t' ↦ later.1 (inr t')
          ]
        ],
      )

  pub extras_sound :
      (scan : ComposeScan) (matched : Set Text) (f : MountCorrelation)
      → ((id : Text) → contains_key id matched ≡ false → Claims scan.mounts id → ⊥)
      → Occurs f (extras snapshot matched scan.services)
      → TellsExtra scan f
  unfolding extras
  extras_sound scan matched f free o =
      let (service, so, o') = flat_map_sound _ f scan.services o in
      let (c, co, o'') = flat_map_sound _ f (containers_of snapshot service.name) o' in
      let (r, ro, e) = map_sound (extra_correlation service c) f _ o'' in
      let (ro', unclaimed) = filter_sound (λ x. not (contains_key x.id matched)) c.mounts r ro in
      (
        service,
        c,
        r,
        so,
        filter_sound (λ d. container_matches_service d service.name) snapshot.containers c co,
        ro',
        free r.id (ground arith),
        e,
      )

  pub extras_complete :
      (scan : ComposeScan) (matched : Set Text) (f : MountCorrelation)
      → ((id : Text) → contains_key id matched ≡ true → Claims scan.mounts id)
      → TellsExtra scan f
      → Occurs f (extras snapshot matched scan.services)
  unfolding extras
  extras_complete scan matched f claimed (service, c, r, so, runs, ro, unclaimed, e) =
      let kept : (not (contains_key r.id matched)) ≡ true =
        elim (Bool-cases (contains_key r.id matched)) [
          | inl there ↦ absurd (unclaimed (claimed r.id there))
          | inr absent ↦ rw absent refl
        ] in
      flat_map_complete _ f service scan.services so (
        flat_map_complete _ f c (containers_of snapshot service.name)
          (filter_complete (λ d. container_matches_service d service.name) c snapshot.containers
            runs.0 runs.1)
          (subst
            (λ x. Occurs x (
              map (extra_correlation service c)
                (filter (λ y. not (contains_key y.id matched)) c.mounts)))
            (sym e)
            (map_complete (extra_correlation service c) r _
              (filter_complete (λ x. not (contains_key x.id matched)) r c.mounts ro kept))))
