-- ===== src/Publication/Told.antt =====
-- The texts of an entity of the runtime map that a provider controls, in the order in which
-- publication.rs goes through them.
use docker_map.Common.{◌≡◌, refl, ap, List, [], ◌∷◌, ◌++◌, map, Option, none, some, Text}
use mathlib.Core.List.{map-append}
use docker_map.Common.Maps.{Map}
use docker_map.Models.Runtime.{
  RuntimeHealth, RuntimeLogRef, RuntimeOwnership, RuntimeLocation, RuntimeServiceEntity,
  RuntimePackageAdvisory, RuntimePackageUpdate, RuntimePackageEntity, RuntimeMapNode,
}
use docker_map.Publication.Sensitive.{redact_runtime_display_text}
use docker_map.Publication.Entities.{
  within, redact_values, redact_ownership, redact_location, redact_health, redact_log,
  redact_service_entity, redact_advisory, redact_update, redact_package_entity, redact_runtime_node,
}

abbrev pub in_option : {A : Type 0} → (A → List Text) → Option A → List Text
in_option texts none = []
in_option texts (some a) = texts a

abbrev pub in_list : {A : Type 0} → (A → List Text) → List A → List Text
in_list texts [] = []
in_list texts (a ∷ xs) = texts a ++ in_list texts xs

abbrev pub value_texts : Map Text Text → List Text
value_texts [] = []
value_texts ((k, v) ∷ m) = v ∷ value_texts m

abbrev pub one_text : Text → List Text
one_text t = t ∷ []

abbrev pub ownership_texts : RuntimeOwnership → List Text
ownership_texts owner = owner.name ∷ in_option one_text owner.id

abbrev pub location_texts : RuntimeLocation → List Text
location_texts location = location.value ∷ in_option one_text location.detail

abbrev pub health_texts : RuntimeHealth → List Text
health_texts health = in_option one_text health.source ++ in_option one_text health.message

abbrev pub log_texts : RuntimeLogRef → List Text
log_texts log = log.id ∷ log.source ∷ []

abbrev pub service_texts : RuntimeServiceEntity → List Text
service_texts service =
    service.name ∷ service.dependencies
    ++ (service.dependents
        ++ (in_option health_texts service.health
            ++ (in_list log_texts service.logs
                ++ (in_option ownership_texts service.owner
                    ++ in_option location_texts service.location))))

abbrev pub advisory_texts : RuntimePackageAdvisory → List Text
advisory_texts advisory =
    advisory.id ∷ advisory.title ∷ advisory.source ∷ in_option one_text advisory.fixed_version
    ++ in_option one_text advisory.url

abbrev pub update_texts : RuntimePackageUpdate → List Text
update_texts update =
    update.current_version ∷ in_option one_text update.latest_version
    ++ in_list advisory_texts update.advisories

abbrev pub package_texts : RuntimePackageEntity → List Text
package_texts package_entity =
    package_entity.name ∷ package_entity.version ∷ package_entity.dependencies
    ++ (package_entity.dependents
        ++ (in_option update_texts package_entity.update
            ++ (in_option ownership_texts package_entity.owner
                ++ in_option location_texts package_entity.location)))

abbrev pub node_texts : RuntimeMapNode → List Text
node_texts node =
    node.id ∷ node.label ∷ in_option one_text node.status
    ++ (value_texts node.metadata
        ++ (in_option service_texts node.service ++ in_option package_texts node.package_entity))

abbrev D : Text → Text
D = redact_runtime_display_text

-- The redaction of an entity is that of its texts.
abbrev Redacts : {A : Type 0} → (A → List Text) → (A → A) → Type 0
Redacts {A} texts redact = (a : A) → texts (redact a) ≡ map D (texts a)

in_option-Redacts :
    {A : Type 0} (texts : A → List Text) (redact : A → A)
    → Redacts texts redact
    → Redacts (in_option texts) (within redact)
in_option-Redacts texts redact h none = refl
in_option-Redacts texts redact h (some a) = h a

in_list-Redacts :
    {A : Type 0} (texts : A → List Text) (redact : A → A)
    → Redacts texts redact
    → Redacts (in_list texts) (map redact)
in_list-Redacts texts redact h [] = refl
in_list-Redacts texts redact h (a ∷ xs) =
    simp (h a, in_list-Redacts texts redact h xs, map-append D)

one-Redacts : Redacts (in_option one_text) (within D)
one-Redacts = in_option-Redacts one_text D (λ t. refl)

pub values-Redacts : Redacts value_texts redact_values
values-Redacts [] = refl
values-Redacts ((k, v) ∷ m) = ap (◌∷◌ (D v)) (values-Redacts m)

ownership-Redacts : Redacts ownership_texts redact_ownership
unfolding redact_ownership
ownership-Redacts owner = simp (one-Redacts)

location-Redacts : Redacts location_texts redact_location
unfolding redact_location
location-Redacts location = simp (one-Redacts)

health-Redacts : Redacts health_texts redact_health
unfolding redact_health
health-Redacts health = simp (one-Redacts, map-append D)

log-Redacts : Redacts log_texts redact_log
unfolding redact_log
log-Redacts log = refl

service-Redacts : Redacts service_texts redact_service_entity
unfolding redact_service_entity
service-Redacts service = simp (
  map-append D,
  in_option-Redacts health_texts redact_health health-Redacts,
  in_list-Redacts log_texts redact_log log-Redacts,
  in_option-Redacts ownership_texts redact_ownership ownership-Redacts,
  in_option-Redacts location_texts redact_location location-Redacts,
)

advisory-Redacts : Redacts advisory_texts redact_advisory
unfolding redact_advisory
advisory-Redacts advisory = simp (one-Redacts, map-append D)

update-Redacts : Redacts update_texts redact_update
unfolding redact_update
update-Redacts update =
    simp
      (one-Redacts, map-append D, in_list-Redacts advisory_texts redact_advisory advisory-Redacts)

package-Redacts : Redacts package_texts redact_package_entity
unfolding redact_package_entity
package-Redacts package_entity = simp (
  map-append D,
  in_option-Redacts update_texts redact_update update-Redacts,
  in_option-Redacts ownership_texts redact_ownership ownership-Redacts,
  in_option-Redacts location_texts redact_location location-Redacts,
)

pub node-Redacts : Redacts node_texts redact_runtime_node
unfolding redact_runtime_node
node-Redacts node = simp (
  one-Redacts,
  map-append D,
  values-Redacts,
  in_option-Redacts service_texts redact_service_entity service-Redacts,
  in_option-Redacts package_texts redact_package_entity package-Redacts,
)
