-- ===== src/Graph/Aliases.antt =====
-- `ContainerAliases`: the container that an identity, a name or a role stands for, if it is one.
use docker_map.Common.{
  ℕ, ◌+◌, Bool, true, false, not, ◌&&◌, List, [], ◌∷◌, Option, none, some, ◌==◌, if◌then◌else◌,
  is_some_and, unwrap_or, ◌||◌, Text, codes, is_empty, strip_prefix,
}
use docker_map.Common.Maps.{Map, get, insert, contains_key, text_Ord}
use docker_map.Models.{ContainerRecord}

abbrev pub ContainerRef : Type 0
ContainerRef = ℕ × ContainerRecord

abbrev pub enumerate : ℕ → List ContainerRecord → List ContainerRef
enumerate i [] = []
enumerate i (c ∷ cs) = (i, c) ∷ enumerate (i + 1) cs

abbrev Aliases : Type 0
Aliases = Map Text (Option ContainerRef)

pub record ContainerAliases : Type 0 where
  pub ids : Map Text (Option ContainerRef)
  pub names : Map Text (Option ContainerRef)
  pub roles : Map Text (Option ContainerRef)

-- An alias that is there already stands for no container any more.
unfoldable pub insert_alias : Aliases → Text → ContainerRef → Aliases
insert_alias aliases alias c =
    if is_empty alias
    then aliases
    else if contains_key alias aliases
    then insert alias none aliases
    else insert alias (some c) aliases

unfoldable pub insert_all : List ContainerRef → ContainerAliases → ContainerAliases
insert_all [] aliases = aliases
insert_all ((i, c) ∷ rest) aliases = insert_all rest (record {
  ids = insert_alias aliases.ids c.id (i, c);
  names = insert_alias aliases.names c.name (i, c);
  roles = insert_alias aliases.roles c.role (i, c);
})

unfoldable pub from_containers : List ContainerRef → ContainerAliases
from_containers refs = insert_all refs (record { ids = []; names = []; roles = [] })

unfoldable pub has_unique_name : ContainerAliases → ContainerRef → Bool
has_unique_name aliases (i, c) =
    not (is_empty c.name)
    && is_some_and (λ candidate. is_some_and (λ r. r.0 == i) candidate) (get c.name aliases.names)

-- The loop over the lookups that found an alias.
unfoldable pub agree :
    List (Option (Option ContainerRef)) → Option ContainerRef → Option ContainerRef
agree [] candidate = candidate
agree (none ∷ rest) candidate = agree rest candidate
agree (some none ∷ rest) candidate = none
agree (some (some resolved) ∷ rest) none = agree rest (some resolved)
agree (some (some resolved) ∷ rest) (some existing) = elim (existing.0 == resolved.0) [
  | true ↦ agree rest (some existing)
  | false ↦ none
]

unfoldable pub resolve_dependency : ContainerAliases → Text → Option ContainerRef
resolve_dependency aliases dependency =
    let name = unwrap_or dependency (strip_prefix (codes "container_") dependency) in
    if is_empty dependency || is_empty name
    then none
    else agree (get name aliases.roles ∷ get name aliases.names ∷ get dependency aliases.ids ∷ [])
        none
