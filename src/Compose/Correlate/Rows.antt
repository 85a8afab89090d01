-- ===== src/Compose/Correlate/Rows.antt =====
-- What each correlation of `correlate_compose_runtime` tells, field by field.
use docker_map.Common.{
  ◌≡◌, ◌⊎◌, inl, inr, refl, ap, sym, subst, ◌++◌, List, [], ◌∷◌, Option, none, some, Occurs, Text,
  codes, false, All, filter, Bool-cases, Option-cases,
}
use docker_map.Models.{ContainerMount, ContainerRecord, DockerSnapshot}
use docker_map.Models.Compose.{
  ComposeMount, ComposeService, ComposeScan, MountCorrelation, MountCorrelationStatus,
}
use docker_map.Compose.Correlate.{
  container_matches_service, declared_mount_source, name_of, containers_of, find_match,
}
use docker_map.Findings.Shapes.{first}
use docker_map.Compose.Correlate.First.{
  IsFirst, IsFirstMatch, find_match-IsFirstMatch, IsFirstMatch-find_match,
}
use docker_map.Compose.Correlate.Loops.{
  Runs, IsUnmatched, Claims, TellsExtra, tell, told, find_match-IsUnmatched,
}

-- The row tells of the declared mount, under the prefix and with the status.
pub record IsOfMount (prefix : Text) (told_as : MountCorrelationStatus) (mount : ComposeMount)
    (f : MountCorrelation) : Type 0 where
  pub id : f.id ≡ prefix ++ mount.id
  pub service : f.service ≡ mount.service
  pub compose_mount_id : f.compose_mount_id ≡ some mount.id
  pub kind : f.kind ≡ mount.kind
  pub target : f.target ≡ mount.target
  pub declared_source : f.declared_source ≡ declared_mount_source mount
  pub status : f.status ≡ told_as

-- The row tells of the mount of a container, as one that is declared nowhere.
pub record IsOfExtra (owner : ComposeService) (c : ContainerRecord) (r : ContainerMount)
    (f : MountCorrelation) : Type 0 where
  pub id : f.id ≡ codes "extra:" ++ c.id ++ codes ":" ++ r.id
  pub service : f.service ≡ owner.name
  pub container : f.container ≡ some c.name
  pub compose_mount_id : f.compose_mount_id ≡ none
  pub kind : f.kind ≡ r.kind
  pub target : f.target ≡ r.target
  pub declared_source : f.declared_source ≡ none
  pub runtime_source : f.runtime_source ≡ r.source
  pub status : f.status ≡ MountCorrelationStatus.extra

-- The name is that of the first container of the service, if it has any.
abbrev pub IsFirstName : List ContainerRecord → Text → Option Text → Type 0
IsFirstName containers service none =
    All (λ c. container_matches_service c service ≡ false) containers
IsFirstName containers service (some name) =
    (c : ContainerRecord) × IsFirst (λ d. container_matches_service d service) containers c
    × (name ≡ c.name)

IsFirstName-later :
    (d : ContainerRecord) (containers : List ContainerRecord) (service : Text)
    → container_matches_service d service ≡ false
    → (n : Option Text) → IsFirstName containers service n
    → IsFirstName (d ∷ containers) service n
IsFirstName-later d containers service other none w = (other, w)
IsFirstName-later d containers service other (some name) (c, w, e) = (
  c,
  record {
    earlier = d ∷ w.earlier;
    later = w.later;
    split = ap (◌∷◌ d) w.split;
    fails = (other, w.fails);
    holds = w.holds;
  },
  e,
)

name_of-IsFirstName :
    (containers : List ContainerRecord) (service : Text)
    → IsFirstName containers service
        (name_of (first (filter (λ d. container_matches_service d service) containers)))
name_of-IsFirstName [] service = tt
name_of-IsFirstName (d ∷ containers) service =
    elim (Bool-cases (container_matches_service d service)) [
      | inl ours ↦ rw ours (
        d,
        record { earlier = []; later = containers; split = refl; fails = tt; holds = ours },
        refl,
      )
      | inr other ↦
          rw other (
            IsFirstName-later d containers service other _ (name_of-IsFirstName containers service))
    ]

module _ (snapshot : DockerSnapshot) where
  -- The declared mount is told by this row: as matched by the first mount of a container of its
  -- service that matches it, or as missing where there is none.
  abbrev pub IsDeclaredRow : ComposeMount → MountCorrelation → Type 0
  IsDeclaredRow mount f =
      ((c : ContainerRecord) × (r : ContainerMount) × IsFirstMatch mount snapshot.containers c r
        × IsOfMount (codes "matched:") MountCorrelationStatus.matched mount f
        × (f.container ≡ some c.name)
        × (f.runtime_source ≡ r.source))
      ⊎ (IsUnmatched snapshot mount
          × IsOfMount (codes "missing:") MountCorrelationStatus.missing mount f
          × IsFirstName snapshot.containers mount.service f.container
          × (f.runtime_source ≡ none))

  -- The identity is that of the first match of a declared mount.
  abbrev pub IsTaken : List ComposeMount → Text → Type 0
  IsTaken mounts id =
      (mount : ComposeMount) × (c : ContainerRecord) × (r : ContainerMount) × Occurs mount mounts
      × IsFirstMatch mount snapshot.containers c r
      × (r.id ≡ id)

  -- A mount of a container of a service, whose identity no declared mount takes.
  abbrev pub IsExtraRow : ComposeScan → MountCorrelation → Type 0
  IsExtraRow scan f =
      (service : ComposeService) × (c : ContainerRecord) × (r : ContainerMount) × Occurs service
        scan.services
      × Runs snapshot service.name c
      × Occurs r c.mounts
      × (IsTaken scan.mounts r.id → ⊥)
      × IsOfExtra service c r f

  Claims-IsTaken :
      (mounts : List ComposeMount) (id : Text) → Claims snapshot mounts id → IsTaken mounts id
  Claims-IsTaken mounts id (mount, o, (found, e, same)) = (
    mount,
    found.0,
    found.1,
    o,
    find_match-IsFirstMatch mount snapshot.containers found.0 found.1 e,
    same,
  )

  IsTaken-Claims :
      (mounts : List ComposeMount) (id : Text) → IsTaken mounts id → Claims snapshot mounts id
  IsTaken-Claims mounts id (mount, c, r, o, w, same) =
      (mount, o, ((c, r), IsFirstMatch-find_match mount snapshot.containers c r w, same))

  pub TellsExtra-IsExtraRow :
      (scan : ComposeScan) (f : MountCorrelation) → TellsExtra snapshot scan f → IsExtraRow scan f
  TellsExtra-IsExtraRow scan f (service, c, r, so, runs, ro, free, e) = (
    service,
    c,
    r,
    so,
    runs,
    ro,
    λ t. free (IsTaken-Claims scan.mounts r.id t),
    subst (IsOfExtra service c r) (sym e) (record {
      id = refl;
      service = refl;
      container = refl;
      compose_mount_id = refl;
      kind = refl;
      target = refl;
      declared_source = refl;
      runtime_source = refl;
      status = refl;
    }),
  )

  pub IsExtraRow-TellsExtra :
      (scan : ComposeScan) (f : MountCorrelation) → IsExtraRow scan f → TellsExtra snapshot scan f
  IsExtraRow-TellsExtra scan f (service, c, r, so, runs, ro, free, e) = (
    service,
    c,
    r,
    so,
    runs,
    ro,
    λ t. free (Claims-IsTaken scan.mounts r.id t),
    cc (
      e.id, e.service, e.container, e.compose_mount_id, e.kind, e.target, e.declared_source,
      e.runtime_source, e.status,
    ),
  )

  pub told-IsDeclaredRow : (mount : ComposeMount) → IsDeclaredRow mount (told snapshot mount)
  unfolding tell
  told-IsDeclaredRow mount =
      elim (Option-cases (find_match mount (containers_of snapshot mount.service))) [
        | inl nowhere ↦ rw nowhere (
            inr (
              find_match-IsUnmatched snapshot mount nowhere,
              record {
                id = refl;
                service = refl;
                compose_mount_id = refl;
                kind = refl;
                target = refl;
                declared_source = refl;
                status = refl;
              },
              name_of-IsFirstName snapshot.containers mount.service,
              refl,
            ))
        | inr ((c, r), e) ↦ rw e (
            inl (
              c,
              r,
              find_match-IsFirstMatch mount snapshot.containers c r e,
              record {
                id = refl;
                service = refl;
                compose_mount_id = refl;
                kind = refl;
                target = refl;
                declared_source = refl;
                status = refl;
              },
              refl,
              refl,
            ))
      ]
