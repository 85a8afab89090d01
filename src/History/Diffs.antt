-- ===== src/History/Diffs.antt =====
-- Replaying the changes between two inventories, as a list, turns the first into the second.
use docker_map.Common.{
  ℕ, ◌≡◌, refl, ap, ◌∙◌, Bool, true, false, not, ◌&&◌, ◌||◌, List, [], ◌∷◌, ◌++◌, Option, none,
  some, arith, if◌then◌else◌, is_some, Text, text_eq, text_eq_sound, inl, inr, Bool-cases,
  Option-cases,
}
use docker_map.Common.Maps.{Map, get, contains_key, text_Ord, IsSorted, get_above}
use docker_map.Models.{DockerSnapshot, ObservedContainerStatus, running, stopped, other}
use docker_map.History.{status_eq}
use docker_map.History.Inventory.{ObservedContainerInventory, observed_container_inventory}
use docker_map.History.Inventory.Groups.{inventory-IsSorted}
use docker_map.History.Changes.{Change, losses, gains, differs, changes}

status_eq_sound : (a b : ObservedContainerStatus) → status_eq a b ≡ true → a ≡ b
status_eq_sound running running h = refl
status_eq_sound stopped stopped h = refl
status_eq_sound other other h = refl
status_eq_sound running stopped h = absurd (cc h)
status_eq_sound running other h = absurd (cc h)
status_eq_sound stopped running h = absurd (cc h)
status_eq_sound stopped other h = absurd (cc h)
status_eq_sound other running h = absurd (cc h)
status_eq_sound other stopped h = absurd (cc h)

status_eq_refl : (a : ObservedContainerStatus) → status_eq a a ≡ true
status_eq_refl running = refl
status_eq_refl stopped = refl
status_eq_refl other = refl

-- What is known of each container: its status, or that there is none.
abbrev pub View : Type 0
View = Text → Option ObservedContainerStatus

abbrev pub replay : List Change → View → View
replay [] view id = view id
replay (c ∷ cs) view id = replay cs (λ x. if text_eq x c.container_id then c.now else view x) id

replay-append :
    (cs ds : List Change) (view : View) (id : Text)
    → replay (cs ++ ds) view id ≡ replay ds (replay cs view) id
replay-append [] ds view id = refl
replay-append (c ∷ cs) ds view id = replay-append cs ds _ id

replay-losses :
    (current : ObservedContainerInventory) (m : Map Text ObservedContainerStatus) (view : View)
    (id : Text)
    → replay (losses current m) view id ≡ (
        if is_some (get id m)
          && not (contains_key id current.containers || contains_key id current.ambiguous_ids)
        then none
        else view id)
unfolding get
replay-losses current [] view id = refl
replay-losses current ((k, s) ∷ m) view id =
    elim (Bool-cases (contains_key k current.containers || contains_key k current.ambiguous_ids)) [
      | inl kept ↦ rw kept (
          replay-losses current m view id ∙ elim (Bool-cases (text_eq id k)) [
            | inl same ↦
                let e = text_eq_sound id k same in
                ground (
                  arith,
                  ap
                      (λ x.
                        contains_key x current.containers || contains_key x current.ambiguous_ids)
                      e,
                )
            | inr apart ↦ ground arith
          ])
      | inr gone ↦ rw gone (
          replay-losses current m (λ x. if text_eq x k then none else view x) id
          ∙ elim (Bool-cases (text_eq id k)) [
            | inl same ↦
                let e = text_eq_sound id k same in
                ground (
                  arith,
                  ap
                      (λ x.
                        contains_key x current.containers || contains_key x current.ambiguous_ids)
                      e,
                )
            | inr apart ↦ ground arith
          ])
    ]

replay-gains :
    (previous : ObservedContainerInventory) (m : Map Text ObservedContainerStatus) (view : View)
    (id : Text)
    → IsSorted m
    → replay (gains previous m) view id ≡ elim (get id m) [
      | none ↦ view id
      | some s ↦
          if (is_some (get id previous.containers) || not (contains_key id previous.ambiguous_ids))
            && differs (get id previous.containers) s
          then some s
          else view id
    ]
unfolding get
replay-gains previous [] view id d = refl
replay-gains previous ((k, s) ∷ m) view id d =
    elim (Bool-cases (
      (is_some (get k previous.containers) || not (contains_key k previous.ambiguous_ids))
      && differs (get k previous.containers) s)) [
        | inl new ↦ rw new (
            replay-gains previous m (λ x. if text_eq x k then some s else view x) id d.1
            ∙ elim (Bool-cases (text_eq id k)) [
              | inl same ↦
                  let e = text_eq_sound id k same in
                  let none_behind = ap (λ x. get x m) e ∙ get_above k m d.0 in
                  ground (
                    arith,
                    none_behind,
                    ap
                        (λ x.
                          (is_some (get x previous.containers)
                            || not (contains_key x previous.ambiguous_ids))
                          && differs (get x previous.containers) s)
                        e,
                  )
              | inr apart ↦ ground arith
            ])
        | inr old ↦ rw old (
            replay-gains previous m view id d.1 ∙ elim (Bool-cases (text_eq id k)) [
              | inl same ↦
                  let e = text_eq_sound id k same in
                  let none_behind = ap (λ x. get x m) e ∙ get_above k m d.0 in
                  ground (
                    arith,
                    none_behind,
                    ap
                        (λ x.
                          (is_some (get x previous.containers)
                            || not (contains_key x previous.ambiguous_ids))
                          && differs (get x previous.containers) s)
                        e,
                  )
              | inr apart ↦ ground arith
            ])
      ]

-- A status that does not differ is the one before.
same_status :
    (before : Option ObservedContainerStatus) (ambiguous : Bool) (s : ObservedContainerStatus)
    → ambiguous ≡ false
    → ((is_some before || not ambiguous) && differs before s) ≡ false
    → before ≡ some s
same_status none ambiguous s once h = ground arith
same_status (some p) ambiguous s once h = ground (arith, status_eq_sound p s)

replay_between :
    (previous current : ObservedContainerInventory) (id : Text)
    → IsSorted current.containers
    → contains_key id previous.ambiguous_ids ≡ false
    → contains_key id current.ambiguous_ids ≡ false
    → replay (changes previous current) (λ x. get x previous.containers) id
      ≡ get id current.containers
replay_between previous current id d once once' =
    let view : View = λ x. get x previous.containers in
    let lost = replay-losses current previous.containers view id in
    replay-append (losses current previous.containers) (gains previous current.containers) view id
    ∙ replay-gains previous current.containers (replay (losses current previous.containers) view) id
        d
    ∙ elim (Option-cases (get id current.containers)) [
      | inl e ↦ rw e (lost ∙ ground arith)
      | inr (s, e) ↦ ground (
        arith,
        lost,
        same_status (get id previous.containers) (contains_key id previous.ambiguous_ids) s once,
      )
    ]

pub replay-changes :
    (sha256 : Text → List ℕ) (before now : DockerSnapshot) (id : Text)
    → contains_key id (observed_container_inventory sha256 before).ambiguous_ids ≡ false
    → contains_key id (observed_container_inventory sha256 now).ambiguous_ids ≡ false
    → let previous = observed_container_inventory sha256 before in
      let current = observed_container_inventory sha256 now in
      replay (changes previous current) (λ x. get x previous.containers) id
      ≡ get id current.containers
replay-changes sha256 before now id once once' =
    replay_between (observed_container_inventory sha256 before)
      (observed_container_inventory sha256 now) id (inventory-IsSorted sha256 now) once once'
