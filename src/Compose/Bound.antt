-- ===== src/Compose/Bound.antt =====
-- Which container is bound to a declared mount.
use docker_map.Common.{
  ◌≡◌, refl, sym, ap, subst, ◌∙◌, ◌⊎◌, inl, inr, Bool, true, false, ◌&&◌, List, [], ◌∷◌, any,
  filter, length, Occurs, Bool-cases, Text, text_eq, text_eq_sound, text_eq_refl, text_eq_iff,
  is_empty, arith,
}
use docker_map.Common.Maps.{Set, text_Ord}
use docker_map.Common.Counts.{count_at, is_one-counts_by}
use docker_map.Models.{ComposeMountKind}
use docker_map.Models.Compose.{ComposeMount}
use docker_map.Compose.Binding.{
  ComposeRuntimeContainer, ComposeRuntimeBinding, set_eq, mounts_match, belongs, is_candidate,
  is_declared_mount_kind,
}

set_eq_sound : (a b : Set Text) → set_eq a b ≡ true → a ≡ b
set_eq_sound [] [] h = refl
set_eq_sound [] (y ∷ b) h = absurd (cc)
set_eq_sound (x ∷ a) [] h = absurd (cc)
set_eq_sound ((x, _) ∷ a) ((y, _) ∷ b) h =
    let e : x ≡ y = text_eq_sound x y (ground arith) in
    let r : a ≡ b = set_eq_sound a b (ground arith) in rw e (rw r refl)

set_eq_refl : (a : Set Text) → set_eq a a ≡ true
set_eq_refl [] = refl
set_eq_refl ((x, _) ∷ a) = ground (arith, text_eq_refl x, set_eq_refl a)

-- An item that is found where nothing else passes the test.
counted :
    {A : Type 0} (p : A → Bool) (a : A) (xs : List A)
    → p a ≡ true
    → Occurs a xs
    → (length (filter p xs) ≡ 0)
    → ⊥
counted p a [] h o z = o
counted p a (x ∷ xs) h (inl e) z = let here : p x ≡ true = sym (ap p e) ∙ h in absurd (ground arith)
counted p a (x ∷ xs) h (inr o) z = counted p a xs h o (ground arith)

pub sole :
    {A : Type 0} (p : A → Bool) (a b : A) (xs : List A)
    → length (filter p xs) ≡ 1
    → Occurs a xs
    → Occurs b xs
    → p a ≡ true
    → p b ≡ true
    → a ≡ b
sole p a b [] n oa ob ha hb = absurd oa
sole p a b (x ∷ xs) n (inl e) (inl f) ha hb = e ∙ sym f
sole p a b (x ∷ xs) n (inl e) (inr o) ha hb =
    let here : p x ≡ true = sym (ap p e) ∙ ha in absurd (counted p b xs hb o (ground arith))
sole p a b (x ∷ xs) n (inr o) (inl f) ha hb =
    let here : p x ≡ true = sym (ap p f) ∙ hb in absurd (counted p a xs ha o (ground arith))
sole p a b (x ∷ xs) n (inr o) (inr o') ha hb = elim (Bool-cases (p x)) [
  | inl here ↦ absurd (counted p a xs ha o (ground arith))
  | inr other ↦ sole p a b xs (ground arith) o o' ha hb
]

abbrev pub IsDeclaredKind : ComposeMountKind → Type 0
IsDeclaredKind kind = (kind ≡ ComposeMountKind.bind) ⊎ (kind ≡ ComposeMountKind.named_volume)

pub declared_kind :
    (kind : ComposeMountKind) → is_declared_mount_kind kind ≡ true → IsDeclaredKind kind
declared_kind ComposeMountKind.bind h = inl refl
declared_kind ComposeMountKind.named_volume h = inr refl
declared_kind ComposeMountKind.anonymous_volume h = absurd (cc)
declared_kind ComposeMountKind.unsupported h = absurd (cc)

pub kind_declared :
    (kind : ComposeMountKind) → IsDeclaredKind kind → is_declared_mount_kind kind ≡ true
kind_declared _ (inl e) = rw e refl
kind_declared _ (inr e) = rw e refl

-- A container of the project and its files, whose identity no other container has and whose service
-- no other such container runs.
abbrev pub IsBound : ComposeRuntimeBinding → ComposeRuntimeContainer → Type 0
IsBound binding c =
    Occurs c binding.containers
    × (c.project ≡ binding.project)
    × (c.config_files ≡ binding.config_files)
    × (count_at (λ d. d.container_id) (λ d. true) c.container_id binding.containers ≡ 1)
    × (count_at (λ d. d.service) (belongs binding) c.service binding.containers ≡ 1)

-- The bound container that runs the service of the mount has no mount that matches.
abbrev pub IsMissing : ComposeRuntimeBinding → ComposeMount → ComposeRuntimeContainer → Type 0
IsMissing binding mount c =
    IsDeclaredKind mount.kind
    × IsBound binding c
    × (c.service ≡ mount.service)
    × (any (mounts_match mount) c.mounts ≡ false)

pub candidate_sound :
    (binding : ComposeRuntimeBinding) (mount : ComposeMount) (c : ComposeRuntimeContainer)
    → Occurs c binding.containers
    → is_candidate binding mount c ≡ true
    → IsBound binding c × (c.service ≡ mount.service)
unfolding is_candidate
candidate_sound binding mount c o h = (
  (
    o,
    text_eq_sound _ _ (ground arith),
    set_eq_sound _ _ (ground arith),
    ground (
      arith,
      is_one-counts_by (λ d. d.container_id) (λ d. true) c.container_id binding.containers,
    ),
    ground
        (arith, is_one-counts_by (λ d. d.service) (belongs binding) c.service binding.containers),
  ),
  text_eq_sound _ _ (ground arith),
)

pub candidate_complete :
    (binding : ComposeRuntimeBinding) (mount : ComposeMount) (c : ComposeRuntimeContainer)
    → IsBound binding c
    → c.service ≡ mount.service
    → is_empty c.container_id ≡ false
    → is_candidate binding mount c ≡ true
unfolding is_candidate
candidate_complete binding mount c b s e = ground (
  arith,
  (text_eq_iff c.project binding.project).1 b.1,
  (text_eq_iff c.service mount.service).1 s,
  subst (λ files. set_eq c.config_files files ≡ true) b.2 (set_eq_refl c.config_files),
  is_one-counts_by (λ d. d.container_id) (λ d. true) c.container_id binding.containers,
  is_one-counts_by (λ d. d.service) (belongs binding) c.service binding.containers,
  e,
)

pub passes :
    (binding : ComposeRuntimeBinding) (service : Text) (c : ComposeRuntimeContainer)
    → IsBound binding c
    → c.service ≡ service
    → (belongs binding c && text_eq c.service service) ≡ true
passes binding service c b e = ground (
  arith,
  (text_eq_iff c.project binding.project).1 b.1,
  subst (λ files. set_eq c.config_files files ≡ true) b.2 (set_eq_refl c.config_files),
  (text_eq_iff c.service service).1 e,
)
