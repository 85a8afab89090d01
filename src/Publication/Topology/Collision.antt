-- ===== src/Publication/Topology/Collision.antt =====
-- `runtime_map_has_identity_collision` of publication.rs and the nodes that share an identity.
use docker_map.Common.{
  ℕ, ◌≡◌, ◌<◌, ◌↔◌, refl, sym, ap, subst, ◌∙◌, ◌⊎◌, inl, inr, Bool, true, List, [], ◌∷◌, some, none,
  Option, filter, any, All, Text, text_eq, text_eq_iff, arith, Bool-cases, ltb, unwrap_or,
}
use docker_map.Common.Maps.{Map, get, text_Ord, entries-get}
use docker_map.Common.Counts.{counts_by, count_at, unwrap_or-counts_by, counts_by-IsSorted}
use docker_map.Models.Runtime.{RuntimeMapNode, RuntimeMap}
use docker_map.Publication.Topology.{duplicate_runtime_node_ids, runtime_map_has_identity_collision}

-- How many nodes have an identity.
abbrev pub holders : Text → List RuntimeMapNode → ℕ
holders id nodes = count_at (λ n. n.id) (λ n. true) id nodes

any-filter : {A : Type 0} (p : A → Bool) (xs : List A) → any (λ x. true) (filter p xs) ≡ any p xs
any-filter p [] = refl
any-filter p (x ∷ xs) = ground (arith, any-filter p xs)

abbrev is_many : Text × ℕ → Bool
is_many entry = ltb 1 entry.1

some_entry :
    (counts m : Map Text ℕ)
    → All (λ e. get e.0 counts ≡ some e.1) m
    → any is_many m ≡ true
    → (k : Text) × (c : ℕ) × (get k counts ≡ some c) × (1 < c)
some_entry counts [] h t = absurd (cc)
some_entry counts ((k, c) ∷ m) h t = elim (Bool-cases (ltb 1 c)) [
  | inl many ↦ (k, c, h.0, ground arith)
  | inr few ↦ some_entry counts m h.1 (ground arith)
]

entry_of : (k : Text) (c : ℕ) (m : Map Text ℕ) → get k m ≡ some c → 1 < c → any is_many m ≡ true
unfolding get
entry_of k c [] h t = absurd (cc)
entry_of k c ((k', c') ∷ m) h t = ground (arith, entry_of k c m)

-- A node that shares its identity.
abbrev pub Shares : List RuntimeMapNode → RuntimeMapNode → Type 0
Shares nodes node = 1 < holders node.id nodes

abbrev pub Some : {A : Type 0} → (A → Type 0) → List A → Type 0
Some P [] = ⊥
Some P (x ∷ xs) = P x ⊎ Some P xs

holder :
    (k : Text) (P : RuntimeMapNode → Type 0) (nodes : List RuntimeMapNode)
    → ((n : RuntimeMapNode) → n.id ≡ k → P n)
    → 0 < holders k nodes
    → Some P nodes
holder k P [] f h = absurd (omega arith)
holder k P (n ∷ nodes) f h = elim (Bool-cases (text_eq n.id k)) [
  | inl same ↦ inl (f n ((text_eq_iff n.id k).0 same))
  | inr other ↦ inr (holder k P nodes f (ground arith))
]

shared :
    (all_nodes nodes : List RuntimeMapNode)
    → Some (Shares all_nodes) nodes
    → (n : RuntimeMapNode) × Shares all_nodes n
shared all_nodes [] h = absurd h
shared all_nodes (n ∷ nodes) (inl h) = (n, h)
shared all_nodes (n ∷ nodes) (inr h) = shared all_nodes nodes h

count_of : (k : Text) (o : Option ℕ) (c : ℕ) → unwrap_or 0 o ≡ c → 1 < c → o ≡ some c
count_of k none c e h = absurd (omega arith)
count_of k (some n) c e h = ap some e

-- The published map is told to hold a collision exactly when some node of it shares its identity
-- with another node.
pub runtime_map_has_identity_collision_iff :
    (runtime_map : RuntimeMap)
    → (runtime_map_has_identity_collision runtime_map ≡ true)
      ↔ Some (Shares runtime_map.nodes) runtime_map.nodes
unfolding runtime_map_has_identity_collision duplicate_runtime_node_ids
runtime_map_has_identity_collision_iff runtime_map =
    let nodes = runtime_map.nodes in
    let counts = counts_by (λ n. n.id) (λ n. true) nodes in
    let value = unwrap_or-counts_by (λ n. n.id) (λ n. true) in
    (
      λ h.
          let (k, c, found, many) =
            some_entry counts counts
              (entries-get counts (counts_by-IsSorted (λ n. n.id) (λ n. true) nodes))
              (sym (any-filter is_many counts) ∙ h) in
          let held : c ≡ holders k nodes = sym (ap (unwrap_or 0) found) ∙ value k nodes in
          holder k (Shares nodes) nodes
            (λ n e. subst (λ id. 1 < holders id nodes) (sym e) (omega arith)) (omega arith),
      λ s.
          let (n, many) = shared nodes nodes s in
          any-filter is_many counts
          ∙ entry_of n.id (holders n.id nodes) counts
              (count_of n.id (get n.id counts) (holders n.id nodes) (value n.id nodes) many) many,
    )
