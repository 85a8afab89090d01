-- ===== src/Publication/Again.antt =====
-- The redaction of each entity of publication.rs, applied to what it has redacted.
use docker_map.Common.{◌≡◌, refl, List, [], ◌∷◌, map, Option, none, some, Text, ap}
use docker_map.Common.Maps.{Map}
use docker_map.Models.{DockerSnapshot}
use docker_map.Publication.Safe.{redact_runtime_display_text_clean}
use docker_map.Publication.Sensitive.{redact_runtime_display_text}
use docker_map.Publication.Entities.{
  within, redact_values, redact_ownership, redact_location, redact_health, redact_log,
  redact_service_entity, redact_advisory, redact_update, redact_package_entity, redact_runtime_node,
}
use docker_map.Publication.Snapshot.{
  redact_mount, redact_container_record, redact_image, redact_network, redact_volume,
  redact_docker_snapshot,
}

-- A second pass changes nothing.
abbrev IsStable : {A : Type 0} → (A → A) → Type 0
IsStable {A} f = (a : A) → f (f a) ≡ f a

display-IsStable : IsStable redact_runtime_display_text
display-IsStable value = (redact_runtime_display_text_clean value).2

within-stable :
    {A : Type 0} (f : A → A) → IsStable f → (o : Option A) → within f (within f o) ≡ within f o
within-stable f h none = refl
within-stable f h (some a) = ap some (h a)

map-stable : {A : Type 0} (f : A → A) → IsStable f → (xs : List A) → map f (map f xs) ≡ map f xs
map-stable f h [] = refl
map-stable f h (x ∷ xs) = cc (h x, map-stable f h xs)

values-stable : (m : Map Text Text) → redact_values (redact_values m) ≡ redact_values m
values-stable [] = refl
values-stable ((k, v) ∷ m) = cc (display-IsStable v, values-stable m)

optional-stable :
    (o : Option Text)
    → within redact_runtime_display_text (within redact_runtime_display_text o)
      ≡ within redact_runtime_display_text o
optional-stable = within-stable redact_runtime_display_text display-IsStable

listed-stable :
    (xs : List Text)
    → map redact_runtime_display_text (map redact_runtime_display_text xs)
      ≡ map redact_runtime_display_text xs
listed-stable = map-stable redact_runtime_display_text display-IsStable

ruleset texts_stable = (display-IsStable, optional-stable, listed-stable, values-stable)

redact_mount-IsStable : IsStable redact_mount
unfolding redact_mount
redact_mount-IsStable a = simp (texts_stable)

redact_container_record-IsStable : IsStable redact_container_record
unfolding redact_container_record
redact_container_record-IsStable a =
    simp (texts_stable, map-stable redact_mount redact_mount-IsStable)

redact_image-IsStable : IsStable redact_image
unfolding redact_image
redact_image-IsStable a = simp (texts_stable)

redact_network-IsStable : IsStable redact_network
unfolding redact_network
redact_network-IsStable a = simp (texts_stable)

redact_volume-IsStable : IsStable redact_volume
unfolding redact_volume
redact_volume-IsStable a = simp (texts_stable)

-- Publishing an inventory that was already published changes nothing.
pub redact_docker_snapshot-IsStable :
    (snapshot : DockerSnapshot)
    → redact_docker_snapshot (redact_docker_snapshot snapshot) ≡ redact_docker_snapshot snapshot
unfolding redact_docker_snapshot
redact_docker_snapshot-IsStable snapshot = simp (
  map-stable redact_container_record redact_container_record-IsStable,
  map-stable redact_image redact_image-IsStable,
  map-stable redact_network redact_network-IsStable,
  map-stable redact_volume redact_volume-IsStable,
)

redact_ownership-IsStable : IsStable redact_ownership
unfolding redact_ownership
redact_ownership-IsStable a = simp (texts_stable)

redact_location-IsStable : IsStable redact_location
unfolding redact_location
redact_location-IsStable a = simp (texts_stable)

redact_health-IsStable : IsStable redact_health
unfolding redact_health
redact_health-IsStable a = simp (texts_stable)

redact_log-IsStable : IsStable redact_log
unfolding redact_log
redact_log-IsStable a = simp (texts_stable)

redact_service_entity-IsStable : IsStable redact_service_entity
unfolding redact_service_entity
redact_service_entity-IsStable a = simp (
  texts_stable,
  within-stable redact_health redact_health-IsStable,
  map-stable redact_log redact_log-IsStable,
  within-stable redact_ownership redact_ownership-IsStable,
  within-stable redact_location redact_location-IsStable,
)

redact_advisory-IsStable : IsStable redact_advisory
unfolding redact_advisory
redact_advisory-IsStable a = simp (texts_stable)

redact_update-IsStable : IsStable redact_update
unfolding redact_update
redact_update-IsStable a = simp (texts_stable, map-stable redact_advisory redact_advisory-IsStable)

redact_package_entity-IsStable : IsStable redact_package_entity
unfolding redact_package_entity
redact_package_entity-IsStable a = simp (
  texts_stable,
  within-stable redact_update redact_update-IsStable,
  within-stable redact_ownership redact_ownership-IsStable,
  within-stable redact_location redact_location-IsStable,
)

pub redact_runtime_node-IsStable : IsStable redact_runtime_node
unfolding redact_runtime_node
redact_runtime_node-IsStable a = simp (
  texts_stable,
  within-stable redact_service_entity redact_service_entity-IsStable,
  within-stable redact_package_entity redact_package_entity-IsStable,
)
