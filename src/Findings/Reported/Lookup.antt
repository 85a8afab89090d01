-- ===== src/Findings/Reported/Lookup.antt =====
-- A node that no other is confused with is found by its identity, and a finding of one loop is a
-- finding of the whole.
use docker_map.Common.{
  ◌<◌, ◌≡◌, ◌⊎◌, inl, inr, refl, sym, ap, subst, ◌∙◌, Bool, true, false, List, [], ◌∷◌, ◌++◌,
  Option, some, arith, filter, All, Occurs, Occurs-left, Occurs-right, Text, text_eq, text_eq_iff,
  Bool-cases, Option-cases,
}
use docker_map.Common.Maps.{get, insert, get-insert, text_Ord}
use docker_map.Models.Runtime.{RuntimeMapNode, Finding}
use docker_map.Findings.Shapes.{Nodes}
use docker_map.Findings.Survey.{collect_nodes}
use docker_map.Findings.Ends.{for_each}
use docker_map.Findings.Attested.Nodes.{count_id}

-- Every node of an identity is the one node, which is kept.
abbrev pub IsOnly : (RuntimeMapNode → Bool) → Text → RuntimeMapNode → RuntimeMapNode → Type 0
IsOnly keep k n x = x.id ≡ k → (x ≡ n) × (keep x ≡ true)

stored_at :
    (k : Text) (n : RuntimeMapNode) (nodes : Nodes) (x : RuntimeMapNode)
    → x.id ≡ k
    → x ≡ n
    → get k (insert x.id x nodes) ≡ some n
stored_at k n nodes x e same =
    get-insert x.id k x nodes ∙ ground (arith, (text_eq_iff k x.id).1 (sym e))

pub get-collect_only :
    (keep : RuntimeMapNode → Bool) (k : Text) (n : RuntimeMapNode) (nodes : Nodes)
    (ns : List RuntimeMapNode)
    → All (IsOnly keep k n) ns
    → (0 < count_id k ns) ⊎ (get k nodes ≡ some n)
    → get k (collect_nodes nodes (filter keep ns)) ≡ some n
unfolding collect_nodes
get-collect_only keep k n nodes [] only (inl h) = absurd (omega arith)
get-collect_only keep k n nodes [] only (inr h) = h
get-collect_only keep k n nodes (x ∷ ns) only found = elim (Bool-cases (text_eq x.id k)) [
  | inl same ↦
      let e : x.id ≡ k = (text_eq_iff x.id k).0 same in
      let one : (x ≡ n) × (keep x ≡ true) = only.0 e in
      let stored : get k (insert x.id x nodes) ≡ some n = stored_at k n nodes x e one.0 in
      rw one.1 (get-collect_only keep k n (insert x.id x nodes) ns only.1 (inr stored))
  | inr other ↦ elim (Bool-cases (keep x)) [
    | inl in_ ↦ rw in_ (
        get-collect_only keep k n (insert x.id x nodes) ns only.1 (
          passed other (insert x.id x nodes)
            (get-insert x.id k x nodes
              ∙ ground (arith, (text_eq_iff k x.id).0, (text_eq_iff x.id k).1))
            found))
    | inr out ↦ rw out (get-collect_only keep k n nodes ns only.1 (passed other nodes refl found))
  ]
]
  where
    passed :
        text_eq x.id k ≡ false
        → (stored : Nodes) → get k stored ≡ get k nodes
        → (0 < count_id k (x ∷ ns)) ⊎ (get k nodes ≡ some n)
        → (0 < count_id k ns) ⊎ (get k stored ≡ some n)
    passed other stored same (inl h) = inl (ground arith)
    passed other stored same (inr h) = inr (same ∙ h)

-- What a loop that does not panic holds.
split_loop :
    {A : Type 0} (rule : A → Option (List Finding)) (y : A) (xs : List A) {found : List Finding}
    → for_each rule (y ∷ xs) ≡ some found
    → (a b : List Finding) × (rule y ≡ some a) × (for_each rule xs ≡ some b) × (found ≡ a ++ b)
unfolding for_each
split_loop rule y xs e = elim (Option-cases (rule y)) [
  | inl nothing ↦ absurd (ground arith)
  | inr (a, ra) ↦ elim (Option-cases (for_each rule xs)) [
    | inl nothing ↦ absurd (ground arith)
    | inr (b, rb) ↦ (a, b, ra, rb, ground arith)
  ]
]

-- A finding of one body is a finding of the loop.
pub Occurs-for_each :
    {A : Type 0} (rule : A → Option (List Finding)) (xs : List A) (x : A) (f : Finding)
    (said found : List Finding)
    → for_each rule xs ≡ some found
    → Occurs x xs
    → rule x ≡ some said
    → Occurs f said
    → Occurs f found
Occurs-for_each rule [] x f said found e o r h = absurd o
Occurs-for_each rule (y ∷ xs) x f said found e (inl same) r h =
    let (a, b, ra, rb, parts) = split_loop rule y xs e in
    let all_said : said ≡ a = cc (r, ra, ap rule same) in
    subst (Occurs f) (sym parts) (Occurs-left f a b (subst (Occurs f) all_said h))
Occurs-for_each rule (y ∷ xs) x f said found e (inr later) r h =
    let (a, b, ra, rb, parts) = split_loop rule y xs e in
    subst (Occurs f) (sym parts)
      (Occurs-right f a b (Occurs-for_each rule xs x f said b rb later r h))

-- A loop that does not panic has no body that does.
pub body_some :
    {A : Type 0} (rule : A → Option (List Finding)) (xs : List A) (x : A) (found : List Finding)
    → for_each rule xs ≡ some found
    → Occurs x xs
    → (said : List Finding) × (rule x ≡ some said)
body_some rule [] x found e o = absurd o
body_some rule (y ∷ xs) x found e (inl same) =
    let (a, b, ra, rb, parts) = split_loop rule y xs e in (a, ap rule same ∙ ra)
body_some rule (y ∷ xs) x found e (inr later) =
    let (a, b, ra, rb, parts) = split_loop rule y xs e in body_some rule xs x b rb later
