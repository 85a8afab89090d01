-- ===== src/Compose/Correlate/Found.antt =====
-- The first mount that matches, and what the adaptors of iterators yield.
use docker_map.Common.{◌≡◌, subst, inl, inr, false, List, [], ◌∷◌, none, Option-cases, Occurs}
use docker_map.Common.Maps.{text_Ord}
use docker_map.Models.{ContainerMount, ContainerRecord}
use docker_map.Models.Compose.{ComposeMount}
use docker_map.Compose.Correlate.{mounts_match, find_match}
use docker_map.Common.Members.{find, find-none}

pub find_match-none :
    (mount : ComposeMount) (containers : List ContainerRecord) (c : ContainerRecord)
    (r : ContainerMount)
    → find_match mount containers ≡ none
    → Occurs c containers
    → Occurs r c.mounts
    → mounts_match mount r ≡ false
unfolding find_match
find_match-none mount [] c r h o m = absurd o
find_match-none mount (d ∷ containers) c r h o m =
    elim (Option-cases (find (mounts_match mount) d.mounts)) [
      | inl nowhere ↦ elim o [
        | inl e ↦
            find-none (mounts_match mount) r d.mounts nowhere (subst (λ x. Occurs r x.mounts) e m)
        | inr later ↦ find_match-none mount containers c r (rw (nowhere, find_match) at h) later m
      ]
      | inr (s, e) ↦ absurd (cc (rw (e, find_match) at h))
    ]
