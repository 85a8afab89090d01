-- ===== src/Compose/Correlate/Told.antt =====
-- `correlate_compose_runtime` (crates/dockermap-core/src/compose.rs) as a whole.
use docker_map.Common.{◌≡◌, ◌↔◌, inl, inr, true, false, List, [], ◌∷◌, ◌++◌, map, Occurs, Text}
use docker_map.Common.Maps.{get, contains_key, text_Ord}
use docker_map.Common.Sort.{IsOrdered, sort_by_key-IsOrdered, sort_by_key-perm}
use mathlib.Core.List.{Perm}
use docker_map.Models.{DockerSnapshot}
use docker_map.Models.Compose.{ComposeMount, ComposeScan, MountCorrelation}
use docker_map.Compose.Correlate.{Correlating, correlate_mounts, extras, correlate_compose_runtime}
use docker_map.Compose.Correlate.Loops.{
  Claims, told, correlate_mounts-told, correlate_mounts-claims, extras_sound, extras_complete,
}
use docker_map.Compose.Correlate.Rows.{
  IsDeclaredRow, IsExtraRow, TellsExtra-IsExtraRow, IsExtraRow-TellsExtra, told-IsDeclaredRow,
}

module _ (snapshot : DockerSnapshot) where
  -- One row for each declared mount, in their order.
  abbrev pub AreDeclaredRows : List ComposeMount → List MountCorrelation → Type 0
  AreDeclaredRows [] [] = Unit
  AreDeclaredRows [] (f ∷ fs) = ⊥
  AreDeclaredRows (mount ∷ mounts) [] = ⊥
  AreDeclaredRows (mount ∷ mounts) (f ∷ fs) =
      IsDeclaredRow snapshot mount f × AreDeclaredRows mounts fs

  map-AreDeclaredRows :
      (mounts : List ComposeMount) → AreDeclaredRows mounts (map (told snapshot) mounts)
  map-AreDeclaredRows [] = tt
  map-AreDeclaredRows (mount ∷ mounts) =
      (told-IsDeclaredRow snapshot mount, map-AreDeclaredRows mounts)

  module _ (scan : ComposeScan) where
    abbrev loop : Correlating
    loop = correlate_mounts snapshot ([], []) scan.mounts

    claimed : (id : Text) → contains_key id loop.0 ≡ true → Claims snapshot scan.mounts id
    unfolding get
    claimed id h = elim ((correlate_mounts-claims snapshot ([], []) scan.mounts id).0 h) [
      | inl t ↦ absurd (cc t)
      | inr t ↦ t
    ]

    free : (id : Text) → contains_key id loop.0 ≡ false → Claims snapshot scan.mounts id → ⊥
    free id h t =
        let there : contains_key id loop.0 ≡ true =
          (correlate_mounts-claims snapshot ([], []) scan.mounts id).1 (inr t) in
        absurd (cc (h, there))

-- The correlations, in the order of their identities, are one row for each declared mount and the
-- rows of the mounts that are declared nowhere. The row of a declared mount tells it, field by
-- field, as matched by the first mount that matches it of the containers of its service, or as
-- missing where none matches; and a row is one of the others exactly when it tells a mount of a
-- container of a service of the scan whose identity is not that of the first match of any declared
-- mount.
pub correlate_compose_runtime_lem :
    (scan : ComposeScan) (snapshot : DockerSnapshot)
    → (rows : List MountCorrelation) × (others : List MountCorrelation) × Perm
        (correlate_compose_runtime scan snapshot)
        (rows ++ others)
      × IsOrdered (λ c. c.id) (correlate_compose_runtime scan snapshot)
      × AreDeclaredRows snapshot scan.mounts rows
      × ((f : MountCorrelation) → Occurs f others ↔ IsExtraRow snapshot scan f)
unfolding correlate_compose_runtime
correlate_compose_runtime_lem scan snapshot =
    let (matched, correlations) = loop snapshot scan in
    let others = extras snapshot matched scan.services in
    (
      correlations,
      others,
      sort_by_key-perm (λ c. c.id) (correlations ++ others),
      sort_by_key-IsOrdered (λ c. c.id) (correlations ++ others),
      rw (correlate_mounts-told snapshot ([], []) scan.mounts)
          (map-AreDeclaredRows snapshot scan.mounts),
      λ f. (
        λ o.
            TellsExtra-IsExtraRow snapshot scan f
              (extras_sound snapshot scan matched f (free snapshot scan) o),
        λ t.
            extras_complete snapshot scan matched f (claimed snapshot scan)
              (IsExtraRow-TellsExtra snapshot scan f t),
      ),
    )
