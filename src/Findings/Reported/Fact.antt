-- ===== src/Findings/Reported/Fact.antt =====
-- The fact that publication.rs appends for a collision, and the rule of findings.rs that reads it.
use docker_map.Common.{
  ◌≢◌, ℕ, ◌≡◌, inl, inr, refl, sym, ap, subst, ◌∙◌, Bool, true, false, ◌||◌, List, [], ◌∷◌, ◌++◌,
  Option, none, some, arith, filter, length, any, All, Occurs, Occurs-right, Text, codes, text_eq,
  text_eq_iff, text_eq_refl, Bool-cases, is_empty, ◌>>=◌,
}
use docker_map.Common.Maps.{get, text_Ord}
use docker_map.Common.Decimal.{to_string}
use docker_map.Common.Pairs.{pair_Ord}
use docker_map.Common.Sort.{sort_by_key, length-filter-sort_by_key, Occurs-sort_by_key}
use docker_map.Models.{RuntimeMode}
use docker_map.Models.Runtime.{
  RuntimeMapNode, RuntimeMapEdge, RuntimeMap, Finding, FindingSeverity, FindingRule,
}
use docker_map.Models.EvidenceKinds.{
  RuntimeEvidenceKind, RuntimeEvidenceProvider, RuntimeEvidenceAssertionKind,
  RuntimeEvidenceFreshness,
}
use docker_map.Models.Evidence.{
  has_valid_versioned_shape, has_valid_evidence_refs, evidence_ref_matches_edge, is_evidence_text,
  versioned_shape, row_matches_edge,
}
use docker_map.Publication.Topology.{
  scope_id, risk_id, scope_node, risk_node, collision_edge, collision_evidence, collision_summary,
  is_reserved, append_runtime_identity_collision_fact,
}
use docker_map.Publication.Topology.Closed.{Names, IsPublishedEdge}
use docker_map.Findings.Shapes.{
  runtime_integrity_scope_id, runtime_identity_collision_risk_id,
  runtime_identity_collision_evidence_summary, Nodes,
}
use docker_map.Findings.Candidates.{
  is_candidate_runtime_identity_collision, is_runtime_integrity_scope,
  is_runtime_identity_collision_risk, is_identity_collision_evidence,
}
use docker_map.Findings.Survey.{Survey, survey, unique_nodes, is_integrity_edge}
use docker_map.Findings.Texts.{
  runtime_identity_collision_summary, runtime_identity_collision_recommendation,
}
use docker_map.Findings.Ends.{about, for_each}
use docker_map.Findings.Rules.{identity_collision}
use docker_map.Findings.Derive.{rules, all_rules, finding_key, unless_mock, derive_findings}
use docker_map.Findings.Attested.All.{derive_findings_sound}
use docker_map.Findings.Reported.Lookup.{body_some, Occurs-for_each}
use docker_map.Findings.Reported.Appended.{IsUnreserved, with_fact, get-reserved}

unnamed :
    (k : Text) (nodes : List RuntimeMapNode)
    → (k ≡ scope_id)
    → IsUnreserved nodes
    → Names k nodes
    → ⊥
unnamed k [] e free n = n
unnamed k (x ∷ nodes) e free (inl same) =
    absurd (ground (arith, (text_eq_iff x.id scope_id).1 (sym same ∙ e)))
unnamed k (x ∷ nodes) e free (inr n) = unnamed k nodes e (ground arith) n

same_scope : runtime_integrity_scope_id ≡ scope_id
unfolding runtime_integrity_scope_id scope_id
same_scope = refl

same_summary : text_eq collision_summary runtime_identity_collision_evidence_summary ≡ true
unfolding collision_summary runtime_identity_collision_evidence_summary text_eq
same_summary = refl

published-not_integrity :
    (nodes : List RuntimeMapNode) (e : RuntimeMapEdge)
    → IsUnreserved nodes
    → IsPublishedEdge nodes e
    → is_integrity_edge e ≡ false
published-not_integrity nodes e free h =
    elim (Bool-cases (text_eq e.source runtime_integrity_scope_id)) [
      | inl scope ↦
          absurd (unnamed e.source nodes ((text_eq_iff _ _).0 scope ∙ same_scope) free h.0)
      | inr other ↦ rw other refl
    ]

module _ (provider_revision : Text) (collected_at : ℕ) where
  abbrev pub fact : RuntimeMapEdge
  fact = collision_edge provider_revision collected_at

  fact-is_integrity : is_integrity_edge fact ≡ true
  unfolding runtime_integrity_scope_id runtime_identity_collision_risk_id scope_id risk_id text_eq
  fact-is_integrity = refl

  count_integrity :
      (nodes : List RuntimeMapNode) (edges : List RuntimeMapEdge)
      → IsUnreserved nodes
      → All (IsPublishedEdge nodes) edges
      → length (filter is_integrity_edge (edges ++ (fact ∷ []))) ≡ 1
  count_integrity nodes [] free h = rw fact-is_integrity refl
  count_integrity nodes (e ∷ edges) free h =
      rw (published-not_integrity nodes e free h.0) (count_integrity nodes edges free h.1)

  -- What the revision must be for the fact to stand: a text of evidence, and not the time.
  abbrev pub IsRevision : Type 0
  IsRevision =
      (is_evidence_text provider_revision ≡ true)
      × (text_eq provider_revision (to_string collected_at) ≡ false)

  id-text : is_evidence_text (collision_evidence provider_revision collected_at).id ≡ true
  unfolding is_evidence_text is_empty
  id-text = refl

  summary-text : is_evidence_text collision_summary ≡ true
  unfolding is_evidence_text collision_summary is_empty
  summary-text = refl

  fact-shape : has_valid_versioned_shape (collision_evidence provider_revision collected_at) ≡ true
  unfolding versioned_shape
  fact-shape = refl

  fact-row :
      row_matches_edge fact RuntimeEvidenceKind.runtime_identity_collision
        RuntimeEvidenceProvider.dockermap RuntimeEvidenceAssertionKind.observed
        RuntimeEvidenceFreshness.fresh none 7
      ≡ true
  unfolding row_matches_edge scope_id risk_id text_eq
  fact-row = refl

  fact-valid : is_evidence_text provider_revision ≡ true → has_valid_evidence_refs fact ≡ true
  unfolding has_valid_evidence_refs evidence_ref_matches_edge
  fact-valid revised =
      rw (id-text, summary-text, revised, text_eq_refl scope_id, fact-shape, fact-row) refl

  revision-not_empty :
      is_evidence_text provider_revision ≡ true → is_empty provider_revision ≡ false
  unfolding is_evidence_text
  revision-not_empty revised = ground arith

  scope-shape : is_runtime_integrity_scope scope_node ≡ true
  unfolding is_runtime_integrity_scope runtime_integrity_scope_id scope_id text_eq
  scope-shape = refl

  risk-shape : is_runtime_identity_collision_risk risk_node ≡ true
  unfolding is_runtime_identity_collision_risk runtime_identity_collision_risk_id risk_id text_eq
  risk-shape = refl

  evidence-shape :
      IsRevision
      → is_identity_collision_evidence fact (collision_evidence provider_revision collected_at)
        ≡ true
  unfolding is_identity_collision_evidence
  evidence-shape revised =
      rw
        (
          text_eq_refl (codes "dockermap_evidence_runtime_identity_collision"),
          same_summary,
          text_eq_refl scope_id,
          revision-not_empty revised.0,
          revised.1,
        )
        refl

  fact-candidate :
      (nodes : Nodes)
      → IsRevision
      → get scope_id nodes ≡ some scope_node
      → get risk_id nodes ≡ some risk_node
      → is_candidate_runtime_identity_collision fact nodes ≡ true
  unfolding is_candidate_runtime_identity_collision
  fact-candidate nodes revised scope risk =
      rw (scope, risk, scope-shape, risk-shape, fact-valid revised.0, evidence-shape revised) refl

unsorted :
    (mode : Option RuntimeMode) (r : Option (List Finding)) (findings : List Finding)
    → mode ≢ some RuntimeMode.mock
    → unless_mock mode (r >>= λ u. some (sort_by_key finding_key u)) ≡ some findings
    → (u : List Finding) × (r ≡ some u) × (findings ≡ sort_by_key finding_key u)
unfolding unless_mock
unsorted none none findings h e = absurd (cc)
unsorted none (some u) findings h e = (u, refl, cc)
unsorted (some RuntimeMode.mock) r findings h e = absurd (h refl)
unsorted (some RuntimeMode.docker) none findings h e = absurd (cc)
unsorted (some RuntimeMode.docker) (some u) findings h e = (u, refl, cc)

module _ (digest : Text → Text) (node_key : RuntimeMapNode → Text)
    (edge_key : RuntimeMapEdge → Text) (runtime_map : RuntimeMap) (provider_revision : Text)
    (collected_at : ℕ) where
  abbrev pub appended : RuntimeMap × Bool
  appended =
      append_runtime_identity_collision_fact node_key edge_key runtime_map provider_revision
        collected_at

  abbrev fact_here : RuntimeMapEdge
  fact_here = fact provider_revision collected_at

  abbrev new_map : RuntimeMap
  new_map = record runtime_map {
    nodes = sort_by_key node_key (with_fact runtime_map.nodes);
    edges = sort_by_key edge_key (runtime_map.edges ++ (fact_here ∷ []));
  }

  append_done : appended.1 ≡ true → IsUnreserved runtime_map.nodes × (appended.0 ≡ new_map)
  unfolding append_runtime_identity_collision_fact
  append_done h =
      elim (Bool-cases (is_empty provider_revision || any is_reserved runtime_map.nodes)) [
        | inl refused ↦ absurd (ground arith)
        | inr free ↦ (ground arith, rw free refl)
      ]

  abbrev finding : Finding
  finding =
      about fact_here (codes "finding_runtime_identity_collision_detected")
        FindingRule.runtime_identity_collision_detected FindingSeverity.advisory
        runtime_identity_collision_summary runtime_identity_collision_recommendation
        (collision_evidence provider_revision collected_at ∷ [])

  rule_says :
      IsUnreserved runtime_map.nodes
      → All (IsPublishedEdge runtime_map.nodes) runtime_map.edges
      → IsRevision provider_revision collected_at
      → identity_collision digest (survey new_map) fact_here ≡ some (finding ∷ [])
  unfolding identity_collision survey
  rule_says free closed revised =
      let one =
        length-filter-sort_by_key edge_key is_integrity_edge (runtime_map.edges ++ (fact_here ∷ []))
        ∙ count_integrity provider_revision collected_at runtime_map.nodes runtime_map.edges free
            closed in
      let candidate =
        fact-candidate provider_revision collected_at (unique_nodes new_map.nodes) revised
          (get-reserved node_key scope_id scope_node runtime_map.nodes (inl (refl, refl)) free)
          (get-reserved node_key risk_id risk_node runtime_map.nodes (inr (refl, refl)) free) in
      rw (one, candidate) refl

  found :
      (u : List Finding)
      → all_rules digest (survey new_map) new_map.edges ≡ some u
      → identity_collision digest (survey new_map) fact_here ≡ some (finding ∷ [])
      → Occurs finding u
  unfolding all_rules
  found u e says =
      let s = survey new_map in
      let body = λ (rule : Survey → RuntimeMapEdge → Option (List Finding)).
        for_each (rule s) new_map.edges in
      let listed : Occurs (identity_collision digest) (rules digest) = inr (inl refl) in
      let (said, here) = body_some body (rules digest) (identity_collision digest) u e listed in
      let there =
        Occurs-sort_by_key edge_key fact_here (runtime_map.edges ++ (fact_here ∷ []))
          (Occurs-right fact_here runtime_map.edges (fact_here ∷ []) (inl refl)) in
      Occurs-for_each body (rules digest) (identity_collision digest) finding said u e listed here (
        Occurs-for_each (identity_collision digest s) new_map.edges fact_here finding (finding ∷ [])
          said here there says (inl refl))

  reported_in :
      (m : RuntimeMap)
      → m ≡ new_map
      → runtime_map.source ≢ some RuntimeMode.mock
      → IsUnreserved runtime_map.nodes
      → All (IsPublishedEdge runtime_map.nodes) runtime_map.edges
      → IsRevision provider_revision collected_at
      → (findings : List Finding) × (derive_findings digest m ≡ some findings)
        × Occurs finding findings
  unfolding derive_findings
  reported_in m same live free closed revised =
      let (findings, e, attested, ordered) = derive_findings_sound digest new_map in
      let (u, all_u, sorted) =
        unsorted runtime_map.source (all_rules digest (survey new_map) new_map.edges) findings live
          e in
      let inside =
        Occurs-sort_by_key finding_key finding u (found u all_u (rule_says free closed revised)) in
      (findings, ap (derive_findings digest) same ∙ e, subst (Occurs finding) (sym sorted) inside)

  -- An appended collision is reported: where the append succeeds on a map that is not stamped as mock
  -- data (the cached map is not stamped at all) and whose edges are published, with a revision that is a text of evidence and not the time of the collection,
  -- the findings of the new map hold one of the rule for colliding identities, from the reserved
  -- scope to the reserved risk.
  pub appended_fact_reported :
      runtime_map.source ≢ some RuntimeMode.mock
      → All (IsPublishedEdge runtime_map.nodes) runtime_map.edges
      → IsRevision provider_revision collected_at
      → appended.1 ≡ true
      → (findings : List Finding) × (f : Finding) × (derive_findings digest appended.0
          ≡ some findings)
        × Occurs f findings
        × (f.rule_id ≡ FindingRule.runtime_identity_collision_detected)
        × (f.subject_ref ≡ scope_id)
        × (f.target_ref ≡ risk_id)
  appended_fact_reported live closed revised done =
      let (free, same) = append_done done in
      let (findings, e, inside) = reported_in appended.0 same live free closed revised in
      (findings, finding, e, inside, refl, refl, refl)
