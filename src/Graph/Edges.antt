-- ===== src/Graph/Edges.antt =====
-- Every edge of the graph joins two nodes that its identities name without doubt.
use docker_map.Common.{
  ◌≡◌, ◌≢◌, refl, Bool, true, false, not, ◌||◌, List, [], ◌∷◌, Option, none, some, arith, ◌==◌,
  if◌then◌else◌, unwrap_or, All, All-append, Bool-cases, inl, inr, Text, text_lt,
}
use docker_map.Common.Maps.{Map, get, text_Ord}
use docker_map.Models.{
  ContainerRecord, VolumeRecord, DockerSnapshot, GraphNode, GraphEdge, connected_to, mounts_on,
}
use docker_map.Graph.{
  edge, volumes_by_container, network_edges, volume_edges, dependency_edges, container_edges, place,
  sort_by_key, dedup, edge_eq, derive_graph,
}
use docker_map.Graph.Identity.{
  from_snapshot, has_unique_container_id, occurrences, node_ids_of, has_unique_node_id_sound,
}
use docker_map.Graph.Aliases.{
  ContainerRef, ContainerAliases, from_containers, has_unique_name, resolve_dependency, enumerate,
}

-- A text that is the identity of exactly one node.
abbrev pub IsNode : DockerSnapshot → Text → Type 0
IsNode s id = (id ≢ []) × (occurrences id (node_ids_of s) ≡ 1)

abbrev pub IsResolved : DockerSnapshot → GraphEdge → Type 0
IsResolved s e = IsNode s e.source × IsNode s e.target

module _ (s : DockerSnapshot) where
  container-IsNode :
      (c : ContainerRecord) → has_unique_container_id (from_snapshot s) c ≡ true → IsNode s c.id
  unfolding has_unique_container_id
  container-IsNode c h = has_unique_node_id_sound s c.id (ground arith)

  one_edge :
      (b : Bool) (e : GraphEdge)
      → (b ≡ true → IsResolved s e)
      → All (IsResolved s) (if b then e ∷ [] else [])
  one_edge true e h = (h refl, tt)
  one_edge false e h = tt

  network_edges-IsResolved :
      (c : ContainerRecord) (networks : List Text)
      → All (IsResolved s) (network_edges (from_snapshot s) c networks)
  unfolding network_edges
  network_edges-IsResolved c [] = tt
  network_edges-IsResolved c (network ∷ rest) =
      All-append (IsResolved s) _ (network_edges (from_snapshot s) c rest)
        (one_edge _ (edge c.id network connected_to) (λ h.
          (container-IsNode c (ground arith), has_unique_node_id_sound s network (ground arith))))
        (network_edges-IsResolved c rest)

  volume_edges-IsResolved :
      (c : ContainerRecord) (vs : List VolumeRecord)
      → All (IsResolved s) (volume_edges (from_snapshot s) c vs)
  unfolding volume_edges
  volume_edges-IsResolved c [] = tt
  volume_edges-IsResolved c (v ∷ vs) =
      All-append (IsResolved s) _ (volume_edges (from_snapshot s) c vs)
        (one_edge _ (edge c.id v.id mounts_on) (λ h.
          (container-IsNode c (ground arith), has_unique_node_id_sound s v.id (ground arith))))
        (volume_edges-IsResolved c vs)

  dependency_step : Option ContainerRef → ContainerRef → List GraphEdge
  dependency_step resolved (i, c) = elim resolved [
    | none ↦ []
    | some (j, target) ↦
        if not (has_unique_container_id (from_snapshot s) c)
          || (not (has_unique_container_id (from_snapshot s) target) || i == j)
        then []
        else edge c.id target.id connected_to ∷ []
  ]

  dependency_step-IsResolved :
      (resolved : Option ContainerRef) (c : ContainerRef)
      → All (IsResolved s) (dependency_step resolved c)
  unfolding dependency_step
  dependency_step-IsResolved none (i, c) = tt
  dependency_step-IsResolved (some (j, target)) (i, c) =
      elim (Bool-cases (
        not (has_unique_container_id (from_snapshot s) c)
        || (not (has_unique_container_id (from_snapshot s) target) || i == j))) [
          | inl skip ↦ rw skip tt
          | inr pass ↦
              rw pass
                ((container-IsNode c (ground arith), container-IsNode target (ground arith)), tt)
        ]

  dependency_edges-IsResolved :
      (aliases : ContainerAliases) (c : ContainerRef) (dependencies : List Text)
      → All (IsResolved s) (dependency_edges aliases (from_snapshot s) c dependencies)
  unfolding dependency_edges dependency_step
  dependency_edges-IsResolved aliases (i, c) [] = tt
  dependency_edges-IsResolved aliases (i, c) (dependency ∷ rest) =
      All-append (IsResolved s) (dependency_step (resolve_dependency aliases dependency) (i, c))
        (dependency_edges aliases (from_snapshot s) (i, c) rest)
        (dependency_step-IsResolved (resolve_dependency aliases dependency) (i, c))
        (dependency_edges-IsResolved aliases (i, c) rest)

  some_edges :
      (b : Bool) (es : List GraphEdge)
      → All (IsResolved s) es
      → All (IsResolved s) (if b then es else [])
  some_edges true es h = h
  some_edges false es h = tt

  container_edges-IsResolved :
      (aliases : ContainerAliases) (volumes : Map Text (List VolumeRecord))
      (refs : List ContainerRef)
      → All (IsResolved s) (container_edges aliases (from_snapshot s) volumes refs)
  unfolding container_edges
  container_edges-IsResolved aliases volumes [] = tt
  container_edges-IsResolved aliases volumes ((i, c) ∷ rest) =
      All-append (IsResolved s) (network_edges (from_snapshot s) c c.networks) _
        (network_edges-IsResolved c c.networks)
        (All-append (IsResolved s) _ _
          (some_edges (has_unique_name aliases (i, c))
            (volume_edges (from_snapshot s) c (unwrap_or [] (get c.name volumes)))
            (volume_edges-IsResolved c (unwrap_or [] (get c.name volumes))))
          (All-append (IsResolved s)
            (dependency_edges aliases (from_snapshot s) (i, c) c.depends_on) _
            (dependency_edges-IsResolved aliases (i, c) c.depends_on)
            (container_edges-IsResolved aliases volumes rest)))

module _ {A : Type 0} (key : A → Text) (same : A → A → Bool) (P : A → Type 0) where
  place-All : (a : A) (xs : List A) → P a → All P xs → All P (place key same a xs)
  unfolding place
  place-All a [] h w = (h, tt)
  place-All a (x ∷ xs) h w = elim (Bool-cases (text_lt (key x) (key a))) [
    | inl later ↦ rw later (w.0, place-All a xs h w.1)
    | inr here ↦ rw here (h, w)
  ]

  sort_by_key-All : (xs : List A) → All P xs → All P (sort_by_key key same xs)
  unfolding sort_by_key
  sort_by_key-All [] w = tt
  sort_by_key-All (x ∷ xs) w = place-All x (sort_by_key key same xs) w.0 (sort_by_key-All xs w.1)

  dedup-All : (xs : List A) → All P xs → All P (dedup key same xs)
  unfolding dedup
  dedup-All [] w = tt
  dedup-All (x ∷ []) w = w
  dedup-All (x ∷ y ∷ xs) w = elim (Bool-cases (same x y)) [
    | inl again ↦ rw again (dedup-All (y ∷ xs) w.1)
    | inr new ↦ rw new (w.0, dedup-All (y ∷ xs) w.1)
  ]

-- Whatever a snapshot holds, with identities empty, repeated or used by several kinds of node, each
-- end of each edge of its graph is an identity that is not empty and that exactly one container,
-- network or volume has.
pub derive_graph-IsResolved :
    (node_key : GraphNode → Text) (edge_key : GraphEdge → Text) (s : DockerSnapshot)
    → All (IsResolved s) (derive_graph node_key edge_key s).edges
unfolding derive_graph
derive_graph-IsResolved node_key edge_key s =
    let refs = enumerate 0 s.containers in
    let edges =
      container_edges (from_containers refs) (from_snapshot s) (volumes_by_container s.volumes [])
        refs in
    dedup-All edge_key edge_eq (IsResolved s) (sort_by_key edge_key edge_eq edges) (
      sort_by_key-All edge_key edge_eq (IsResolved s) edges (
        container_edges-IsResolved s (from_containers refs) (volumes_by_container s.volumes [])
          refs))
