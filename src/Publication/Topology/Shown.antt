-- ===== src/Publication/Topology/Shown.antt =====
-- What a node, an edge and a diagnostic of the published map say, beside those that they come from.
use docker_map.Common.{
  ◌≡◌, refl, inl, inr, true, false, List, [], ◌∷◌, map, All, Text, arith, Bool-cases,
}
use docker_map.Common.Maps.{text_Ord}
use docker_map.Models.Runtime.{RuntimeMapNode, RuntimeEvidenceRef, RuntimeMapEdge}
use docker_map.Models.Evidence.{has_valid_evidence_refs}
use docker_map.Publication.Entities.{attesting, redact_runtime_node, redact_runtime_edge}
use docker_map.Publication.Sensitive.{is_sensitive_text, redact_runtime_display_text}
use docker_map.Publication.Safe.{IsDisplayable, redact_runtime_display_text_clean}
use docker_map.Publication.Told.{node_texts, value_texts, node-Redacts, values-Redacts}
use docker_map.Publication.Entities.{redact_diagnostic}
use docker_map.Models.Kinds.{
  RuntimeProviderKind, RuntimeNodeKind, RuntimeNodeLayer, runtime_relationship_kind_Enum,
}
use docker_map.Models.Runtime.{DiagnosticSeverity, RuntimeMapDiagnostic}
use docker_map.Common.Enums.{=?_sound}
use docker_map.Common.{Option, Occurs, ap, sym, subst, ◌∙◌, text_eq_sound}
use docker_map.Publication.Topology.{edge_eq, dedup_after, dedup}

-- The text is fit to be shown, and does not look like a secret.
abbrev pub IsClean : Text → Type 0
IsClean t = IsDisplayable t × (is_sensitive_text t ≡ false)

display-IsClean : (t : Text) → IsClean (redact_runtime_display_text t)
display-IsClean t = let (shown, plain, _) = redact_runtime_display_text_clean t in (shown, plain)

display-All : (ts : List Text) → All IsClean (map redact_runtime_display_text ts)
display-All [] = tt
display-All (t ∷ ts) = (display-IsClean t, display-All ts)

-- What a node says: its texts, and its provider, kind and layer.
abbrev pub Said : Type 0
Said = List Text × (RuntimeProviderKind × (RuntimeNodeKind × Option RuntimeNodeLayer))

abbrev pub said : RuntimeMapNode → Said
said node = (node_texts node, (node.provider, (node.kind, node.layer)))

-- The same with each text as it may be shown.
abbrev pub shown_of : RuntimeMapNode → Said
shown_of node =
    (map redact_runtime_display_text (node_texts node), (node.provider, (node.kind, node.layer)))

node-said : (node : RuntimeMapNode) → said (redact_runtime_node node) ≡ shown_of node
unfolding redact_runtime_node
node-said node =
    ap (λ (ts : List Text). (ts, (node.provider, (node.kind, node.layer)))) (node-Redacts node)

pub nodes-said :
    (nodes : List RuntimeMapNode) → map said (map redact_runtime_node nodes) ≡ map shown_of nodes
nodes-said [] = refl
nodes-said (node ∷ nodes) = cc (node-said node, nodes-said nodes)

pub node-IsClean : (node : RuntimeMapNode) → All IsClean (node_texts (redact_runtime_node node))
node-IsClean node = subst (All IsClean) (sym (node-Redacts node)) (display-All (node_texts node))

-- What a diagnostic says.
abbrev pub diagnosed : RuntimeMapDiagnostic → RuntimeProviderKind × (DiagnosticSeverity × Text)
diagnosed d = (d.provider, (d.severity, d.message))

abbrev pub diagnosed_shown :
    RuntimeMapDiagnostic → RuntimeProviderKind × (DiagnosticSeverity × Text)
diagnosed_shown d = (d.provider, (d.severity, redact_runtime_display_text d.message))

pub diagnostics-said :
    (ds : List RuntimeMapDiagnostic)
    → map diagnosed (map redact_diagnostic ds) ≡ map diagnosed_shown ds
unfolding redact_diagnostic
diagnostics-said [] = refl
diagnostics-said (d ∷ ds) = ap (◌∷◌ (diagnosed_shown d)) (diagnostics-said ds)

-- The second edge leads, with each end as it may be shown, where the first does.
abbrev pub IsShownEdge : RuntimeMapEdge → RuntimeMapEdge → Type 0
IsShownEdge e e' =
    (e'.source ≡ redact_runtime_display_text e.source)
    × (e'.target ≡ redact_runtime_display_text e.target)
    × (e'.relationship ≡ e.relationship)

abbrev IsAlike : RuntimeMapEdge → RuntimeMapEdge → Type 0
IsAlike e e' = (e'.source ≡ e.source) × (e'.target ≡ e.target) × (e'.relationship ≡ e.relationship)

edge_eq-IsAlike : (e e' : RuntimeMapEdge) → edge_eq e' e ≡ true → IsAlike e e'
unfolding edge_eq
edge_eq-IsAlike e e' h = (
  text_eq_sound e'.source e.source (ground arith),
  text_eq_sound e'.target e.target (ground arith),
  =?_sound e'.relationship e.relationship (ground arith),
)

IsAlike-trans : (a b d : RuntimeMapEdge) → IsAlike a b → IsAlike b d → IsAlike a d
IsAlike-trans a b d h k = (k.0 ∙ h.0, k.1 ∙ h.1, k.2 ∙ h.2)

-- Of what `dedup` drops, it keeps a like edge.
abbrev Stays : RuntimeMapEdge → List RuntimeMapEdge → Type 0
Stays e edges = (e' : RuntimeMapEdge) × Occurs e' edges × IsAlike e e'

Stays-later :
    (e x : RuntimeMapEdge) (edges : List RuntimeMapEdge) → Stays e edges → Stays e (x ∷ edges)
Stays-later e x edges (e', o, same) = (e', inr o, same)

dedup_after-Stays :
    (last e : RuntimeMapEdge) (edges : List RuntimeMapEdge)
    → Occurs e edges
    → Stays e (last ∷ dedup_after last edges)
unfolding dedup_after
dedup_after-Stays last e [] o = absurd o
dedup_after-Stays last e (edge ∷ edges) o = elim (Bool-cases (edge_eq last edge)) [
  | inl same ↦ rw same (elim o [
    | inl here ↦
        (last, inl refl, subst (λ x. IsAlike x last) (sym here) (edge_eq-IsAlike edge last same))
    | inr later ↦ dedup_after-Stays last e edges later
  ])
  | inr new ↦ rw new (elim o [
    | inl here ↦ (edge, inr (inl refl), subst (λ x. IsAlike x edge) (sym here) (refl, refl, refl))
    | inr later ↦
        Stays-later e last (edge ∷ dedup_after edge edges) (dedup_after-Stays edge e edges later)
  ])
]

pub dedup-Stays :
    (e : RuntimeMapEdge) (edges : List RuntimeMapEdge) → Occurs e edges → Stays e (dedup edges)
unfolding dedup
dedup-Stays e [] o = absurd o
dedup-Stays e (edge ∷ edges) (inl here) =
    (edge, inl refl, subst (λ x. IsAlike x edge) (sym here) (refl, refl, refl))
dedup-Stays e (edge ∷ edges) (inr later) = dedup_after-Stays edge e edges later

attesting-IsAlike :
    (e : RuntimeMapEdge) → IsAlike e (attesting e) × ((attesting e).metadata ≡ e.metadata)
unfolding attesting
attesting-IsAlike e = elim (Bool-cases (has_valid_evidence_refs e)) [
  | inl h ↦ rw h ((refl, refl, refl), refl)
  | inr h ↦ rw h ((refl, refl, refl), refl)
]

module _ (evidence_key : RuntimeEvidenceRef → Text) where
  pub redact_runtime_edge-IsShownEdge :
      (e : RuntimeMapEdge) → IsShownEdge e (redact_runtime_edge evidence_key e)
  unfolding redact_runtime_edge
  redact_runtime_edge-IsShownEdge e = (attesting-IsAlike _).0

  pub redact_runtime_edge-IsClean :
      (e : RuntimeMapEdge) → All IsClean (value_texts (redact_runtime_edge evidence_key e).metadata)
  unfolding redact_runtime_edge
  redact_runtime_edge-IsClean e =
      subst (λ m. All IsClean (value_texts m)) (sym (attesting-IsAlike _).1)
        (subst (All IsClean) (sym (values-Redacts e.metadata))
          (display-All (value_texts e.metadata)))
