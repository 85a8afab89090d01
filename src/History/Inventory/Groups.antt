-- ===== src/History/Inventory/Groups.antt =====
-- What the inventory holds of each identity.
use docker_map.Common.{
  ℕ, ◌≡◌, refl, sym, ap, ◌∙◌, Bool, true, false, ◌||◌, inl, inr, List, [], ◌∷◌, ◌++◌, append_assoc,
  append-nil, Option, none, some, arith, leb, unwrap_or, is_some, filter, length, Bool-cases, Text,
  text_eq, text_eq_sound,
}
use docker_map.Common.Maps.{
  Map, Set, get, insert, alter, get-insert, IsSorted, insert-IsSorted, get_above, text_Ord,
}
use docker_map.Models.{ContainerRecord, DockerSnapshot, ObservedContainerStatus}
use docker_map.History.Inventory.{
  observed_status_class, divide, observed_container_identity, candidates,
  observed_container_inventory,
}

-- The class of the one container of a group, and whether a group has more.
abbrev pub only : List ContainerRecord → Option ObservedContainerStatus
only (c ∷ []) = some (observed_status_class c.status)
only _ = none

abbrev pub several : List ContainerRecord → Bool
several cs = leb 2 (length cs)

abbrev group_of : Text → Map Text (List ContainerRecord) → List ContainerRecord
group_of id m = unwrap_or [] (get id m)

divide-containers :
    (m : Map Text (List ContainerRecord)) (containers : Map Text ObservedContainerStatus)
    (ambiguous_ids : Set Text) (id : Text)
    → IsSorted m
    → get id (divide m containers ambiguous_ids).containers
      ≡ elim (only (group_of id m)) [ none ↦ get id containers | some s ↦ some s ]
unfolding divide get
divide-containers [] containers ambiguous_ids id d = refl
divide-containers ((k, []) ∷ m) containers ambiguous_ids id d = elim (Bool-cases (text_eq id k)) [
  | inl same ↦
      let none_behind = get_above k m d.0 in
      let e = text_eq_sound id k same in
      rw same (
        ground (
          arith,
          divide-containers m containers (insert k tt ambiguous_ids) id d.1,
          ap (λ x. get x m) e,
        ))
  | inr apart ↦ rw apart (divide-containers m containers (insert k tt ambiguous_ids) id d.1)
]
divide-containers ((k, c ∷ []) ∷ m) containers ambiguous_ids id d =
    let s = observed_status_class c.status in
    let ih = divide-containers m (insert k s containers) ambiguous_ids id d.1 in
    elim (Bool-cases (text_eq id k)) [
      | inl same ↦
          let none_behind = get_above k m d.0 in
          let e = text_eq_sound id k same in
          rw same (ground (arith, ih, get-insert k id s containers, ap (λ x. get x m) e))
      | inr apart ↦ rw apart (ground (arith, ih, get-insert k id s containers))
    ]
divide-containers ((k, c ∷ c' ∷ cs) ∷ m) containers ambiguous_ids id d =
    elim (Bool-cases (text_eq id k)) [
      | inl same ↦
          let none_behind = get_above k m d.0 in
          let e = text_eq_sound id k same in
          rw same (
            ground (
              arith,
              divide-containers m containers (insert k tt ambiguous_ids) id d.1,
              ap (λ x. get x m) e,
            ))
      | inr apart ↦ rw apart (divide-containers m containers (insert k tt ambiguous_ids) id d.1)
    ]

divide-IsSorted :
    (m : Map Text (List ContainerRecord)) (containers : Map Text ObservedContainerStatus)
    (ambiguous_ids : Set Text)
    → IsSorted containers
    → IsSorted (divide m containers ambiguous_ids).containers
unfolding divide
divide-IsSorted [] containers ambiguous_ids d = d
divide-IsSorted ((k, []) ∷ m) containers ambiguous_ids d = divide-IsSorted m containers _ d
divide-IsSorted ((k, c ∷ []) ∷ m) containers ambiguous_ids d =
    divide-IsSorted m _ ambiguous_ids
      (insert-IsSorted k (observed_status_class c.status) containers d)
divide-IsSorted ((k, c ∷ c' ∷ cs) ∷ m) containers ambiguous_ids d = divide-IsSorted m containers _ d

-- A group that is there is not empty.
abbrev pub filled : List ContainerRecord → Option (List ContainerRecord)
filled [] = none
filled (c ∷ cs) = some (c ∷ cs)

divide-ambiguous_ids :
    (m : Map Text (List ContainerRecord)) (containers : Map Text ObservedContainerStatus)
    (ambiguous_ids : Set Text) (id : Text)
    → IsSorted m
    → get id m ≡ filled (group_of id m)
    → is_some (get id (divide m containers ambiguous_ids).ambiguous_ids)
      ≡ (several (group_of id m) || is_some (get id ambiguous_ids))
unfolding divide get
divide-ambiguous_ids [] containers ambiguous_ids id d f = refl
divide-ambiguous_ids ((k, []) ∷ m) containers ambiguous_ids id d f = ground (
  arith,
  divide-ambiguous_ids m containers (insert k tt ambiguous_ids) id d.1,
  get-insert k id tt ambiguous_ids,
)
divide-ambiguous_ids ((k, c ∷ []) ∷ m) containers ambiguous_ids id d f =
    let ih =
      divide-ambiguous_ids m (insert k (observed_status_class c.status) containers) ambiguous_ids id
        d.1 in
    elim (Bool-cases (text_eq id k)) [
      | inl same ↦
          let none_behind = get_above k m d.0 in
          let e = text_eq_sound id k same in rw same (ground (arith, ih, ap (λ x. get x m) e))
      | inr apart ↦ ground (arith, ih)
    ]
divide-ambiguous_ids ((k, c ∷ c' ∷ cs) ∷ m) containers ambiguous_ids id d f =
    let ih = divide-ambiguous_ids m containers (insert k tt ambiguous_ids) id d.1 in
    elim (Bool-cases (text_eq id k)) [
      | inl same ↦
          let none_behind = get_above k m d.0 in
          let e = text_eq_sound id k same in
          rw same (ground (arith, ih, get-insert k id tt ambiguous_ids, ap (λ x. get x m) e))
      | inr apart ↦ ground (arith, ih, get-insert k id tt ambiguous_ids)
    ]

kept : (o : Option ObservedContainerStatus) → elim o [ none ↦ none | some s ↦ some s ] ≡ o
kept none = refl
kept (some s) = refl

or_false : (b : Bool) → b || false ≡ b
or_false true = refl
or_false false = refl

filled_or : (cs : List ContainerRecord) → unwrap_or [] (filled cs) ≡ cs
filled_or [] = refl
filled_or (c ∷ cs) = refl

filled-append :
    (xs : List ContainerRecord) (c : ContainerRecord) → filled (xs ++ c ∷ []) ≡ some (xs ++ c ∷ [])
filled-append [] c = refl
filled-append (x ∷ xs) c = refl

module _ (sha256 : Text → List ℕ) where
  abbrev pub named : Text → List ContainerRecord → List ContainerRecord
  named id = filter (λ c. text_eq id (observed_container_identity sha256 c.id))

  candidates-get :
      (cs : List ContainerRecord) (m : Map Text (List ContainerRecord)) (id : Text)
      → get id m ≡ filled (group_of id m)
      → get id (candidates sha256 cs m) ≡ filled (group_of id m ++ named id cs)
  unfolding candidates
  candidates-get [] m id f = f ∙ ap filled (sym (append-nil (group_of id m)))
  candidates-get (c ∷ cs) m id f =
      let k = observed_container_identity sha256 c.id in
      let m' = alter k (λ records. unwrap_or [] records ++ c ∷ []) m in
      elim (Bool-cases (text_eq id k)) [
        | inl same ↦
            let e : id ≡ k = text_eq_sound id k same in
            let g : get id m' ≡ some (group_of id m ++ c ∷ []) =
              get-insert k id (group_of k m ++ c ∷ []) m
              ∙ rw same (ap (λ x. some (group_of x m ++ c ∷ [])) (sym e)) in
            let gg : group_of id m' ≡ group_of id m ++ c ∷ [] = ap (unwrap_or []) g in
            candidates-get cs m' id (g ∙ sym (filled-append (group_of id m) c) ∙ ap filled (sym gg))
            ∙ ap (λ x. filled (x ++ named id cs)) gg
            ∙ ap filled (append_assoc (group_of id m) (c ∷ []) (named id cs))
            ∙ rw same refl
        | inr apart ↦
            let g : get id m' ≡ get id m =
              get-insert k id (group_of k m ++ c ∷ []) m ∙ rw apart refl in
            candidates-get cs m' id (g ∙ f ∙ ap (λ x. filled (unwrap_or [] x)) (sym g))
            ∙ ap (λ x. filled (unwrap_or [] x ++ named id cs)) g
            ∙ rw apart refl
      ]

  candidates-IsSorted :
      (cs : List ContainerRecord) (m : Map Text (List ContainerRecord))
      → IsSorted m
      → IsSorted (candidates sha256 cs m)
  unfolding candidates
  candidates-IsSorted [] m d = d
  candidates-IsSorted (c ∷ cs) m d =
      candidates-IsSorted cs _ (insert-IsSorted (observed_container_identity sha256 c.id) _ m d)

  -- Every identity that exactly one container has is listed with that container's status class, and
  -- no other; an identity that more than one container has is ambiguous, and no other.
  pub observed_container_inventory_lem :
      (snapshot : DockerSnapshot) (id : Text)
      → (get id (observed_container_inventory sha256 snapshot).containers
          ≡ only (named id snapshot.containers))
        × (is_some (get id (observed_container_inventory sha256 snapshot).ambiguous_ids)
            ≡ several (named id snapshot.containers))
  unfolding observed_container_inventory get
  observed_container_inventory_lem snapshot id =
      let cs = snapshot.containers in
      let m = candidates sha256 cs [] in
      let sorted = candidates-IsSorted cs [] tt in
      let at : get id m ≡ filled (named id cs) = candidates-get cs [] id refl in
      let group : group_of id m ≡ named id cs = ap (unwrap_or []) at ∙ filled_or (named id cs) in
      (
        divide-containers m [] [] id sorted
            ∙ ap (λ g. elim (only g) [ none ↦ none | some s ↦ some s ]) group
            ∙ kept (only (named id cs)),
        divide-ambiguous_ids m [] [] id sorted (at ∙ ap filled (sym group))
            ∙ or_false (several (group_of id m))
            ∙ ap several group,
      )

  pub inventory-IsSorted :
      (snapshot : DockerSnapshot)
      → IsSorted (observed_container_inventory sha256 snapshot).containers
  unfolding observed_container_inventory
  inventory-IsSorted snapshot = divide-IsSorted (candidates sha256 snapshot.containers []) [] [] tt
