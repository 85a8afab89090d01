-- ===== src/Findings/Attested/Loops.antt =====
-- What a loop of `derive_findings` yields, from what its body yields.
use docker_map.Common.{
  Occurs, ◌≡◌, inl, inr, refl, Bool, true, false, List, [], ◌∷◌, ◌++◌, Option, none, some, ◌>>=◌,
  if◌then◌else◌, All, All-append,
}
use docker_map.Models.Runtime.{RuntimeMapEdge, RuntimeEvidenceRef, Finding}
use docker_map.Findings.Shapes.{first}
use docker_map.Findings.Ends.{for_each}
use docker_map.Findings.Attested.Cited.{Cites, IsCited}

-- No panic, and each finding has the property.
abbrev pub Yields : (Finding → Type 0) → Option (List Finding) → Type 0
Yields P none = ⊥
Yields P (some findings) = All P findings

module _ (P : Finding → Type 0) where
  pub Yields-for_each :
      {A : Type 0} (rule : A → Option (List Finding)) (xs : List A)
      → ((x : A) → Occurs x xs → Yields P (rule x))
      → Yields P (for_each rule xs)
  unfolding for_each
  Yields-for_each rule [] h = tt
  Yields-for_each rule (x ∷ xs) h =
      join (rule x) (for_each rule xs) (h x (inl refl))
        (Yields-for_each rule xs (λ y o. h y (inr o)))
    where
      join :
          (r s : Option (List Finding))
          → Yields P r
          → Yields P s
          → Yields P (r >>= λ found. s >>= λ rest. some (found ++ rest))
      join none s hr hs = hr
      join (some found) none hr hs = hs
      join (some found) (some rest) hr hs = All-append P found rest hr hs

  -- A body that cites its edge.
  pub Yields-single :
      (edge : RuntimeMapEdge) (test : Bool) (say : RuntimeEvidenceRef → List Finding)
      → (test ≡ true → IsCited edge)
      → ((v : RuntimeEvidenceRef) → test ≡ true → Cites edge v → All P (say v))
      → Yields P (if test then (first edge.evidence_refs >>= λ v. some (say v)) else some [])
  Yields-single edge false say cited said = tt
  Yields-single edge true say cited said =
      let (v, cites) = cited refl in rw cites.1 (said v refl cites)

  -- A body that cites its edge and another, when there is one.
  pub Yields-pair :
      (edge : RuntimeMapEdge) (test : Bool) (other : Option RuntimeMapEdge)
      (say : RuntimeEvidenceRef → RuntimeEvidenceRef → List Finding)
      → (test ≡ true → IsCited edge)
      → ((e : RuntimeMapEdge) → other ≡ some e → IsCited e)
      → ((e : RuntimeMapEdge) (v w : RuntimeEvidenceRef)
          → test ≡ true
          → other ≡ some e
          → Cites edge v
          → Cites e w
          → All P (say v w))
      → Yields P (
          if test
          then elim other [
            | none ↦ some []
            | some e ↦
                first edge.evidence_refs >>= λ v. first e.evidence_refs >>= λ w. some (say v w)
          ]
          else some [])
  Yields-pair edge false other say cited other_cited said = tt
  Yields-pair edge true none say cited other_cited said = tt
  Yields-pair edge true (some e) say cited other_cited said =
      let (v, cites) = cited refl in
      let (w, cites') = other_cited e refl in
      rw cites.1 (rw cites'.1 (said e v w refl refl cites cites'))
