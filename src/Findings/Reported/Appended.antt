-- ===== src/Findings/Reported/Appended.antt =====
-- The map with the appended fact: its reserved nodes, its one integrity edge, and the finding.
use docker_map.Common.{
  ◌≡◌, ◌⊎◌, inl, inr, refl, sym, ap, subst, ◌∙◌, Bool, true, false, ◌&&◌, List, [], ◌∷◌, ◌++◌, some,
  arith, any, All, Text, text_eq, text_eq_iff, ◌==◌,
}
use docker_map.Common.Maps.{get, text_Ord}
use docker_map.Common.Counts.{counts_by, is_one, is_one-counts_by}
use docker_map.Common.Sort.{sort_by_key, All-sort_by_key, length-filter-sort_by_key}
use docker_map.Models.Runtime.{RuntimeMapNode}
use docker_map.Publication.Topology.{scope_id, risk_id, scope_node, risk_node, is_reserved}
use docker_map.Findings.Survey.{unique_nodes}
use docker_map.Findings.Attested.Nodes.{count_id}
use docker_map.Findings.Reported.Lookup.{IsOnly, get-collect_only}

-- No node has a reserved identity.
abbrev pub IsUnreserved : List RuntimeMapNode → Type 0
IsUnreserved nodes = any is_reserved nodes ≡ false

-- The two reserved identities, and the node of each.
abbrev pub IsReservedPair : Text → RuntimeMapNode → Type 0
IsReservedPair k n = ((k ≡ scope_id) × (n ≡ scope_node)) ⊎ ((k ≡ risk_id) × (n ≡ risk_node))

apart :
    (k : Text) (n x : RuntimeMapNode) (nodes : List RuntimeMapNode)
    → IsReservedPair k n
    → IsUnreserved (x ∷ nodes)
    → (text_eq x.id k ≡ false) × IsUnreserved nodes
apart k n x nodes (inl (e, w)) free = rw e (ground arith, ground arith)
apart k n x nodes (inr (e, w)) free = rw e (ground arith, ground arith)

abbrev pub with_fact : List RuntimeMapNode → List RuntimeMapNode
with_fact nodes = nodes ++ (scope_node ∷ risk_node ∷ [])

count_id-base : (k : Text) (n : RuntimeMapNode) → IsReservedPair k n → count_id k (with_fact []) ≡ 1
unfolding scope_id risk_id text_eq
count_id-base k n (inl (e, w)) = rw e refl
count_id-base k n (inr (e, w)) = rw e refl

count_id-with_fact :
    (k : Text) (n : RuntimeMapNode) (nodes : List RuntimeMapNode)
    → IsReservedPair k n
    → IsUnreserved nodes
    → count_id k (with_fact nodes) ≡ 1
count_id-with_fact k n [] which free = count_id-base k n which
count_id-with_fact k n (x ∷ nodes) which free =
    ground (arith, apart k n x nodes which free, count_id-with_fact k n nodes which)

distinct : text_eq scope_id risk_id ≡ false
unfolding scope_id risk_id text_eq
distinct = refl

clash : scope_id ≡ risk_id → ⊥
clash h = let bad : true ≡ false = sym ((text_eq_iff _ _).1 h) ∙ distinct in absurd (cc)

-- Both reserved nodes answer to their own identity alone.
IsOnly-base :
    (keep : RuntimeMapNode → Bool) (k : Text) (n : RuntimeMapNode)
    → IsReservedPair k n
    → keep n ≡ true
    → All (IsOnly keep k n) (with_fact [])
IsOnly-base keep k n (inl (e, w)) kept = (
  λ same. (sym w, subst (λ m. keep m ≡ true) w kept),
  ((λ same. absurd (clash (sym e ∙ sym same))), tt),
)
IsOnly-base keep k n (inr (e, w)) kept =
    (λ same. absurd (clash (same ∙ e)), ((λ same. (sym w, subst (λ m. keep m ≡ true) w kept)), tt))

IsOnly-with_fact :
    (keep : RuntimeMapNode → Bool) (k : Text) (n : RuntimeMapNode) (nodes : List RuntimeMapNode)
    → IsReservedPair k n
    → IsUnreserved nodes
    → keep n ≡ true
    → All (IsOnly keep k n) (with_fact nodes)
IsOnly-with_fact keep k n [] which free kept = IsOnly-base keep k n which kept
IsOnly-with_fact keep k n (x ∷ nodes) which free kept =
    let other = apart k n x nodes which free in
    (
      λ same. absurd (cc (other.0, (text_eq_iff x.id k).1 same)),
      IsOnly-with_fact keep k n nodes which other.1 kept,
    )

id-reserved : (k : Text) (n : RuntimeMapNode) → IsReservedPair k n → n.id ≡ k
id-reserved k n (inl (e, w)) = ap (λ (m : RuntimeMapNode). m.id) w ∙ sym e
id-reserved k n (inr (e, w)) = ap (λ (m : RuntimeMapNode). m.id) w ∙ sym e

module _ (node_key : RuntimeMapNode → Text) where
  -- After the append the reserved nodes are found by their identities.
  pub get-reserved :
      (k : Text) (n : RuntimeMapNode) (nodes : List RuntimeMapNode)
      → IsReservedPair k n
      → IsUnreserved nodes
      → get k (unique_nodes (sort_by_key node_key (with_fact nodes))) ≡ some n
  unfolding unique_nodes
  get-reserved k n nodes which free =
      let sorted = sort_by_key node_key (with_fact nodes) in
      let one : count_id k sorted ≡ 1 =
        length-filter-sort_by_key node_key (λ m. true && text_eq m.id k) (with_fact nodes)
        ∙ count_id-with_fact k n nodes which free in
      let keep =
        λ (m : RuntimeMapNode). is_one (get m.id (counts_by (λ m'. m'.id) (λ m'. true) sorted)) in
      let kept : keep n ≡ true =
        subst (λ id. is_one (get id (counts_by (λ m'. m'.id) (λ m'. true) sorted)) ≡ true)
          (sym (id-reserved k n which))
          (is_one-counts_by (λ m'. m'.id) (λ m'. true) k sorted ∙ ap (λ c. c == 1) one) in
      get-collect_only keep k n [] sorted
        (All-sort_by_key node_key (IsOnly keep k n) (with_fact nodes)
          (IsOnly-with_fact keep k n nodes which free kept))
        (inl (omega arith))
