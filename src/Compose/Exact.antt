-- ===== src/Compose/Exact.antt =====
-- `derive_compose_runtime_mount_findings` (compose_runtime_binding.rs) as a whole.
use docker_map.Common.{
  ℕ, zero, suc, ◌+◌, ◌≡◌, ◌↔◌, refl, sym, subst, ◌⊎◌, inl, inr, false, List, [], ◌∷◌, ◌++◌, some,
  Occurs, Occurs-left, Occurs-right, Bool-cases, Text, is_empty, arith,
}
use docker_map.Common.Maps.{text_Ord}
use docker_map.Common.Sort.{
  sort_by_key, IsOrdered, sort_by_key-IsOrdered, All-sort_by_key, Occurs-sort_by_key,
}
use docker_map.Models.Runtime.{Finding}
use docker_map.Models.Compose.{ComposeMount, ComposeScan}
use docker_map.Compose.Binding.{
  ComposeRuntimeContainer, ComposeRuntimeBinding, is_unfit_container, is_unusable, mounts_findings,
  derive_compose_runtime_mount_findings,
}
use docker_map.Compose.Missing.{Tells, TellsFrom, mount_findings-Says}
use docker_map.Common.Members.{All-Occurs, All-self, Occurs-both, any-false}

module _ (digest : Text → Text) where
  module _ (binding : ComposeRuntimeBinding)
      (named : (c : ComposeRuntimeContainer)
        → Occurs c binding.containers
        → is_empty c.container_id ≡ false) where
    onward :
        (ordinal : ℕ) (mount : ComposeMount) (mounts : List ComposeMount) (f : Finding)
        → TellsFrom digest binding (suc ordinal) mounts f
        → TellsFrom digest binding ordinal (mount ∷ mounts) f
    onward ordinal mount mounts f (i, m, e, t) =
        let shifted : suc ordinal + i ≡ ordinal + suc i = omega arith in
        (suc i, m, e, subst (λ n. Tells digest binding n m f) shifted t)

    back :
        (ordinal : ℕ) (mount : ComposeMount) (mounts : List ComposeMount) (f : Finding)
        → TellsFrom digest binding ordinal (mount ∷ mounts) f
        → Tells digest binding ordinal mount f ⊎ TellsFrom digest binding (suc ordinal) mounts f
    back ordinal mount mounts f (zero, m, e, t) =
        let same : mount ≡ m = cc in
        let here : ordinal + 0 ≡ ordinal = omega arith in
        inl (
          subst (λ x. Tells digest binding ordinal x f) (sym same)
            (subst (λ n. Tells digest binding n m f) here t))
    back ordinal mount mounts f (suc i, m, e, t) =
        let shifted : ordinal + suc i ≡ suc ordinal + i = omega arith in
        inr (i, m, e, subst (λ n. Tells digest binding n m f) shifted t)

    mounts_findings_lem :
        (ordinal : ℕ) (mounts : List ComposeMount)
        → (fs : List Finding) × (mounts_findings digest binding ordinal mounts ≡ some fs)
          × ((f : Finding) → Occurs f fs ↔ TellsFrom digest binding ordinal mounts f)
    unfolding mounts_findings
    mounts_findings_lem ordinal [] = ([], refl, λ f. (λ o. absurd o, λ (i, m, e, t). absurd (cc e)))
    mounts_findings_lem ordinal (mount ∷ mounts) =
        let (here, e, says) = mount_findings-Says digest binding named ordinal mount in
        let (later, e', says') = mounts_findings_lem (suc ordinal) mounts in
        (
          here ++ later,
          rw e (rw e' refl),
          λ f. (
            λ o. elim (Occurs-both f here later o) [
              | inl left ↦
                  let at : ordinal ≡ ordinal + 0 = omega arith in
                  (0, mount, refl, subst (λ n. Tells digest binding n mount f) at ((says f).0 left))
              | inr right ↦ onward ordinal mount mounts f ((says' f).0 right)
            ],
            λ t. elim (back ordinal mount mounts f t) [
              | inl t' ↦ Occurs-left f here later ((says f).1 t')
              | inr t' ↦ Occurs-right f here later ((says' f).1 t')
            ],
          ),
        )

  named_of :
      (scan : ComposeScan) (binding : ComposeRuntimeBinding)
      → is_unusable scan binding ≡ false
      → (c : ComposeRuntimeContainer) → Occurs c binding.containers
      → is_empty c.container_id ≡ false
  unfolding is_unusable is_unfit_container
  named_of scan binding h c o =
      ground (arith, any-false is_unfit_container c binding.containers (ground arith) o)

  -- The comparison never panics, and its findings are in the order of their identities. There is a
  -- finding exactly when the scan and the binding are fit to use and some declared bind mount or named
  -- volume matches no mount of the one container that is bound to its service; and that finding is
  -- made of constants, the time, the revision and digests of the container's identity and of the
  -- place of the mount alone.
  pub derive_compose_runtime_mount_findings_exact :
      (scan : ComposeScan) (binding : ComposeRuntimeBinding) (f : Finding)
      → (findings : List Finding) × (derive_compose_runtime_mount_findings digest scan binding
          ≡ some findings)
        × IsOrdered (λ g. g.id) findings
        × (Occurs f findings
            ↔ ((is_unusable scan binding ≡ false) × TellsFrom digest binding 0 scan.mounts f))
  unfolding derive_compose_runtime_mount_findings
  derive_compose_runtime_mount_findings_exact scan binding f =
      elim (Bool-cases (is_unusable scan binding)) [
        | inl unfit ↦ rw unfit ([], refl, tt, (λ o. absurd o, λ t. absurd (cc t.0)))
        | inr fit ↦
            let (fs, e, tells) =
              mounts_findings_lem binding (named_of scan binding fit) 0 scan.mounts in
            rw fit (
              rw e (
                sort_by_key (λ g. g.id) fs,
                refl,
                sort_by_key-IsOrdered (λ g. g.id) fs,
                (
                  λ o. (refl, (tells f).0 (unsorted fs o)),
                  λ t. Occurs-sort_by_key (λ g. g.id) f fs ((tells f).1 t.1),
                ),
              ))
      ]
    where
      unsorted : (fs : List Finding) → Occurs f (sort_by_key (λ g. g.id) fs) → Occurs f fs
      unsorted fs o =
          All-Occurs (λ g. Occurs g fs) (sort_by_key (λ g. g.id) fs) f
            (All-sort_by_key (λ g. g.id) (λ g. Occurs g fs) fs
              (All-self (λ g. Occurs g fs) fs (λ a h. h)))
            o
