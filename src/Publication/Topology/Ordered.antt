-- ===== src/Publication/Topology/Ordered.antt =====
-- The loops of `redact_runtime_map` keep what holds of each edge, and the order.
use docker_map.Common.{
  ◌≡◌, refl, inl, inr, Bool, true, false, List, [], ◌∷◌, map, filter, All, Text, text_lt,
  Bool-cases,
}
use docker_map.Common.Maps.{text_Ord}
use docker_map.Common.Sort.{IsOrdered}
use docker_map.Models.Runtime.{RuntimeEvidenceRef, RuntimeMapEdge}
use docker_map.Models.Evidence.{has_valid_evidence_refs}
use docker_map.Publication.Entities.{attesting, redact_runtime_edge}
use docker_map.Models.Kinds.{runtime_relationship_kind_Enum}
use docker_map.Publication.Topology.{edge_eq, dedup_after, dedup}

module _ (P : RuntimeMapEdge → Type 0) where
  All-dedup_after :
      (last : RuntimeMapEdge) (edges : List RuntimeMapEdge)
      → All P edges
      → All P (dedup_after last edges)
  unfolding dedup_after
  All-dedup_after last [] h = tt
  All-dedup_after last (edge ∷ edges) h = elim (Bool-cases (edge_eq last edge)) [
    | inl same ↦ rw same (All-dedup_after last edges h.1)
    | inr new ↦ rw new (h.0, All-dedup_after edge edges h.1)
  ]

  pub All-dedup : (edges : List RuntimeMapEdge) → All P edges → All P (dedup edges)
  unfolding dedup
  All-dedup [] h = tt
  All-dedup (edge ∷ edges) h = (h.0, All-dedup_after edge edges h.1)

module _ (edge_key : RuntimeMapEdge → Text) where
  dedup_after-IsOrdered :
      (last : RuntimeMapEdge) (edges : List RuntimeMapEdge)
      → IsOrdered edge_key edges
      → IsOrdered edge_key (dedup_after last edges)
  unfolding dedup_after
  dedup_after-IsOrdered last [] h = tt
  dedup_after-IsOrdered last (edge ∷ edges) h = elim (Bool-cases (edge_eq last edge)) [
    | inl same ↦ rw same (dedup_after-IsOrdered last edges h.1)
    | inr new ↦ rw new (
      All-dedup_after (λ y. text_lt (edge_key y) (edge_key edge) ≡ false) edge edges h.0,
      dedup_after-IsOrdered edge edges h.1,
    )
  ]

  pub dedup-IsOrdered :
      (edges : List RuntimeMapEdge) → IsOrdered edge_key edges → IsOrdered edge_key (dedup edges)
  unfolding dedup
  dedup-IsOrdered [] h = tt
  dedup-IsOrdered (edge ∷ edges) h = (
    All-dedup_after (λ y. text_lt (edge_key y) (edge_key edge) ≡ false) edge edges h.0,
    dedup_after-IsOrdered edge edges h.1,
  )

pub All-map :
    {A : Type 0} (P : A → Type 0) (f : A → A)
    → ((a : A) → P (f a))
    → (xs : List A) → All P (map f xs)
All-map P f h [] = tt
All-map P f h (x ∷ xs) = (h x, All-map P f h xs)

pub All-filter :
    {A : Type 0} (P : A → Type 0) (p : A → Bool) (xs : List A)
    → All P xs
    → All (λ x. P x × (p x ≡ true)) (filter p xs)
All-filter P p [] h = tt
All-filter P p (x ∷ xs) h = elim (Bool-cases (p x)) [
  | inl in_ ↦ rw in_ ((h.0, in_), All-filter P p xs h.1)
  | inr out ↦ rw out (All-filter P p xs h.1)
]

attesting-valid : (edge : RuntimeMapEdge) → has_valid_evidence_refs (attesting edge) ≡ true
unfolding attesting
attesting-valid edge = elim (Bool-cases (has_valid_evidence_refs edge)) [
  | inl e ↦ rw e e
  | inr e ↦ rw e no_evidence
]
  where
    no_evidence : has_valid_evidence_refs (record edge { evidence_refs = [] }) ≡ true
    no_evidence = unfold has_valid_evidence_refs in refl

pub redact_runtime_edge-valid :
    (evidence_key : RuntimeEvidenceRef → Text) (edge : RuntimeMapEdge)
    → has_valid_evidence_refs (redact_runtime_edge evidence_key edge) ≡ true
unfolding redact_runtime_edge
redact_runtime_edge-valid evidence_key edge = attesting-valid _

pub All-weaken :
    {A : Type 0} (P Q : A → Type 0) → ((a : A) → P a → Q a) → (xs : List A) → All P xs → All Q xs
All-weaken P Q f [] h = tt
All-weaken P Q f (x ∷ xs) h = (f x h.0, All-weaken P Q f xs h.1)
