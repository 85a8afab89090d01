-- ===== src/Graph/Identity.antt =====
-- `GraphIdentityIndex`: how often each identity occurs among the nodes, networks and containers.
use docker_map.Common.{
  ℕ, ◌+◌, ◌≡◌, ◌≢◌, refl, sym, ap, ◌∙◌, Bool, true, false, ◌&&◌, List, [], ◌∷◌, ◌++◌, map, Option,
  none, arith, ◌==◌, if◌then◌else◌, is_some_and, unwrap_or, Bool-cases, inl, inr, Text, text_eq,
  text_eq_sound, is_empty,
}
use docker_map.Common.Maps.{Map, get, alter, get-insert, text_Ord}
use docker_map.Models.{ContainerRecord, DockerSnapshot}

unfoldable pub count : Map Text ℕ → Text → Map Text ℕ
count counts id = if is_empty id then counts else alter id (λ n. unwrap_or 0 n + 1) counts

unfoldable pub count_all : List Text → Map Text ℕ → Map Text ℕ
count_all [] counts = counts
count_all (id ∷ ids) counts = count_all ids (count counts id)

pub record GraphIdentityIndex : Type 0 where
  pub node_ids : Map Text ℕ
  pub network_ids : Map Text ℕ
  pub container_ids : Map Text ℕ

unfoldable pub from_snapshot : DockerSnapshot → GraphIdentityIndex
from_snapshot s =
    let containers = map (λ c. c.id) s.containers in
    let networks = map (λ n. n.id) s.networks in
    let volumes = map (λ v. v.id) s.volumes in
    record {
      node_ids = count_all volumes (count_all networks (count_all containers []));
      network_ids = count_all networks [];
      container_ids = count_all containers [];
    }

abbrev is_one : Option ℕ → Bool
is_one n = is_some_and (λ k. k == 1) n

unfoldable pub has_unique_node_id : GraphIdentityIndex → Text → Bool
has_unique_node_id ids id = is_one (get id ids.node_ids)

unfoldable pub has_unique_network_id : GraphIdentityIndex → Text → Bool
has_unique_network_id ids id = is_one (get id ids.network_ids)

unfoldable pub has_unique_container_id : GraphIdentityIndex → ContainerRecord → Bool
has_unique_container_id ids c = is_one (get c.id ids.container_ids) && has_unique_node_id ids c.id

-- How often a text occurs.
abbrev pub occurrences : Text → List Text → ℕ
occurrences id [] = 0
occurrences id (x ∷ xs) = (if text_eq id x then 1 else 0) + occurrences id xs

is_empty_nil : (s : Text) → is_empty s ≡ true → s ≡ []
unfolding is_empty
is_empty_nil [] h = refl
is_empty_nil (b ∷ s) h = absurd (cc h)

get-count :
    (counts : Map Text ℕ) (x id : Text)
    → is_empty id ≡ false
    → unwrap_or 0 (get id (count counts x))
      ≡ unwrap_or 0 (get id counts) + (if text_eq id x then 1 else 0)
unfolding count is_empty text_eq
get-count counts x [] h = absurd (cc h)
get-count counts [] (b ∷ id) h = omega arith
get-count counts (d ∷ x) (b ∷ id) h =
    let n = unwrap_or 0 (get (d ∷ x) counts) + 1 in
    let at = get-insert (d ∷ x) (b ∷ id) n counts in
    elim (Bool-cases (text_eq (b ∷ id) (d ∷ x))) [
      | inl same ↦
          let e : b ∷ id ≡ d ∷ x = text_eq_sound (b ∷ id) (d ∷ x) same in
          ground (arith, at, same, ap (λ y. get y counts) e)
      | inr apart ↦ ground (arith, at, apart)
    ]

get-count_all :
    (ids : List Text) (counts : Map Text ℕ) (id : Text)
    → is_empty id ≡ false
    → unwrap_or 0 (get id (count_all ids counts)) ≡ unwrap_or 0 (get id counts) + occurrences id ids
unfolding count_all
get-count_all [] counts id h = omega arith
get-count_all (x ∷ ids) counts id h =
    omega (arith, get-count_all ids (count counts x) id h, get-count counts x id h)

nothing-count :
    (counts : Map Text ℕ) (x : Text) → get [] counts ≡ none → get [] (count counts x) ≡ none
unfolding count is_empty
nothing-count counts [] h = h
nothing-count counts (d ∷ x) h = get-insert (d ∷ x) [] _ counts ∙ (unfold text_eq in h)

nothing-count_all :
    (ids : List Text) (counts : Map Text ℕ)
    → get [] counts ≡ none
    → get [] (count_all ids counts) ≡ none
unfolding count_all
nothing-count_all [] counts h = h
nothing-count_all (x ∷ ids) counts h =
    nothing-count_all ids (count counts x) (nothing-count counts x h)

pub occurrences-append :
    (id : Text) (xs ys : List Text)
    → occurrences id (xs ++ ys) ≡ occurrences id xs + occurrences id ys
occurrences-append id [] ys = omega arith
occurrences-append id (x ∷ xs) ys = omega (arith, occurrences-append id xs ys)

-- The identities of all nodes, in the order of their collections.
abbrev pub node_ids_of : DockerSnapshot → List Text
node_ids_of s =
    map (λ c. c.id) s.containers ++ (map (λ n. n.id) s.networks ++ map (λ v. v.id) s.volumes)

-- An identity that passes is not empty, and is that of exactly one node.
pub has_unique_node_id_sound :
    (s : DockerSnapshot) (id : Text)
    → has_unique_node_id (from_snapshot s) id ≡ true
    → (id ≢ []) × (occurrences id (node_ids_of s) ≡ 1)
unfolding has_unique_node_id from_snapshot
has_unique_node_id_sound s id h =
    let containers = map (λ c. c.id) s.containers in
    let networks = map (λ n. n.id) s.networks in
    let volumes = map (λ v. v.id) s.volumes in
    elim (Bool-cases (is_empty id)) [
      | inl empty ↦
          let nil = is_empty_nil id empty in
          let absent =
            nothing-count_all volumes _ (
              nothing-count_all networks _
                (nothing-count_all containers [] (unfold get in refl))) in
          absurd (
            cc (
              sym h
              ∙ ap
                  (λ x.
                    is_one
                      (get x (count_all volumes (count_all networks (count_all containers [])))))
                  nil
              ∙ ap is_one absent))
      | inr full ↦
          let first = get-count_all containers [] id full in
          let second = get-count_all networks (count_all containers []) id full in
          let third =
            get-count_all volumes (count_all networks (count_all containers [])) id full in
          let start : get {V = ℕ} id [] ≡ none = unfold get in refl in
          (
            λ e.
                let nil_empty : is_empty [] ≡ true = unfold is_empty in refl in
                absurd (cc (sym full ∙ ap is_empty e ∙ nil_empty)),
            ground (
              arith,
              first,
              second,
              third,
              start,
              occurrences-append id containers (networks ++ volumes),
              occurrences-append id networks volumes,
            ),
          )
    ]
