-- ===== src/History/Inventory.antt =====
-- The inventory of a snapshot: opaque identities, closed status classes, and the identities that
-- more than one container has.
pub mod Groups
use docker_map.Common.{
  ℕ, ◌+◌, ◌-◌, ◌/◌, ◌%◌, ◌≡◌, refl, Bool, true, false, ◌&&◌, ◌||◌, List, [], ◌∷◌, ◌++◌, map, Option,
  none, some, ltb, if◌then◌else◌, unwrap_or, Text, codes, text_eq, contains, starts_with, trim,
  to_ascii_lowercase,
}
use docker_map.Common.Maps.{Map, Set, get, insert, alter, text_Ord}
use docker_map.Models.{
  ContainerRecord, DockerSnapshot, ObservedContainerStatus, running, stopped, other,
}

pub record ObservedContainerInventory : Type 0 where
  pub containers : Map Text ObservedContainerStatus
  pub ambiguous_ids : Set Text

abbrev lower_hex : ℕ → ℕ
lower_hex d = if ltb d 10 then b'0' + d else b'a' + (d - 10)

-- `{byte:02x}` for each byte.
abbrev pub hex : List ℕ → Text
hex [] = []
hex (byte ∷ bytes) = lower_hex (byte / 16 % 16) ∷ lower_hex (byte % 16) ∷ hex bytes

unfoldable pub observed_status_class : Text → ObservedContainerStatus
unfolding trim to_ascii_lowercase contains starts_with text_eq
observed_status_class status =
    let normalized = map to_ascii_lowercase (trim status) in
    if text_eq normalized (codes "paused")
      || (starts_with (codes "up ") normalized && contains (codes "(paused)") normalized)
    then other
    else if text_eq normalized (codes "running") || starts_with (codes "up ") normalized
    then running
    else if text_eq normalized (codes "exited")
        || (text_eq normalized (codes "dead") || starts_with (codes "exited ") normalized)
    then stopped
    else other

-- The entries of `candidates`, one after another.
unfoldable pub divide :
    Map Text (List ContainerRecord)
    → Map Text ObservedContainerStatus
    → Set Text
    → ObservedContainerInventory
divide [] containers ambiguous_ids = record {
  containers = containers;
  ambiguous_ids = ambiguous_ids;
}
divide ((id, c ∷ []) ∷ m) containers ambiguous_ids =
    divide m (insert id (observed_status_class c.status) containers) ambiguous_ids
divide ((id, _) ∷ m) containers ambiguous_ids = divide m containers (insert id tt ambiguous_ids)

-- The digest of `sha2`.
module _ (sha256 : Text → List ℕ) where
  unfoldable pub observed_container_identity : Text → Text
  observed_container_identity raw_container_id =
      codes "docker_container_" ++ hex (sha256 raw_container_id)

  unfoldable pub candidates :
      List ContainerRecord → Map Text (List ContainerRecord) → Map Text (List ContainerRecord)
  candidates [] m = m
  candidates (c ∷ cs) m =
      candidates cs
        (alter (observed_container_identity c.id) (λ records. unwrap_or [] records ++ c ∷ []) m)

  unfoldable pub observed_container_inventory : DockerSnapshot → ObservedContainerInventory
  observed_container_inventory snapshot = divide (candidates snapshot.containers []) [] []
