-- ===== src/Common/Members.antt =====
-- Membership in a list, and what the adaptors of Rust's iterators keep of it.
use mathlib.Core.Path.{◌≡◌, refl, sym, ap, ◌∙◌, subst}
use mathlib.Core.Logic.{◌⊎◌, inl, inr}
use mathlib.Core.Bool.{Bool, true, false}
use mathlib.Core.List.{List, [], ◌∷◌, ◌++◌, map}
use mathlib.Core.Option.{Option, none, some}
use native.Mathlib.Omega.{arith}
use docker_map.Common.Tests.{if◌then◌else◌, Bool-cases}
use docker_map.Common.Lists.{filter, any, All, Occurs, Occurs-left, Occurs-right}

abbrev pub find {ℓ} : {A : Type ℓ} → (A → Bool) → List A → Option A
find p [] = none
find p (x ∷ xs) = if p x then some x else find p xs

-- `flat_map`, as the nested loops push.
abbrev pub flat_map : {A B : Type 0} → (A → List B) → List A → List B
flat_map f [] = []
flat_map f (x ∷ xs) = f x ++ flat_map f xs

pub All-Occurs : {A : Type 0} (P : A → Type 0) (xs : List A) (a : A) → All P xs → Occurs a xs → P a
All-Occurs P [] a h o = absurd o
All-Occurs P (x ∷ xs) a h (inl e) = subst P (sym e) h.0
All-Occurs P (x ∷ xs) a h (inr o) = All-Occurs P xs a h.1 o

pub All-self :
    {A : Type 0} (P : A → Type 0) (xs : List A) → ((a : A) → Occurs a xs → P a) → All P xs
All-self P [] f = tt
All-self P (x ∷ xs) f = (f x (inl refl), All-self P xs (λ a o. f a (inr o)))

pub Occurs-both :
    {A : Type 0} (a : A) (xs ys : List A) → Occurs a (xs ++ ys) → Occurs a xs ⊎ Occurs a ys
Occurs-both a [] ys o = inr o
Occurs-both a (x ∷ xs) ys (inl e) = inl (inl e)
Occurs-both a (x ∷ xs) ys (inr o) = elim (Occurs-both a xs ys o) [
  | inl left ↦ inl (inr left)
  | inr right ↦ inr right
]

pub any-false :
    {A : Type 0} (p : A → Bool) (a : A) (xs : List A) → any p xs ≡ false → Occurs a xs → p a ≡ false
any-false p a [] h o = absurd o
any-false p a (x ∷ xs) h (inl e) = rw e (ground arith)
any-false p a (x ∷ xs) h (inr o) = any-false p a xs (ground arith) o

pub find_sound :
    {A : Type 0} (p : A → Bool) (xs : List A) {a : A}
    → find p xs ≡ some a
    → Occurs a xs × (p a ≡ true)
find_sound p [] h = absurd (cc)
find_sound p (x ∷ xs) {a} h = elim (Bool-cases (p x)) [
  | inl here ↦ let e : x ≡ a = ground arith in (inl (sym e), subst (λ y. p y ≡ true) e here)
  | inr other ↦ let later = find_sound p xs (ground arith) in (inr later.0, later.1)
]

pub find-none :
    {A : Type 0} (p : A → Bool) (a : A) (xs : List A) → find p xs ≡ none → Occurs a xs → p a ≡ false
find-none p a [] h o = absurd o
find-none p a (x ∷ xs) h (inl e) = elim (Bool-cases (p x)) [
  | inl here ↦ absurd (ground arith)
  | inr other ↦ ap p e ∙ other
]
find-none p a (x ∷ xs) h (inr o) = find-none p a xs (ground arith) o

Occurs-if :
    {A : Type 0} (b : Bool) (x a : A) (ys : List A)
    → Occurs a (if b then x ∷ ys else ys)
    → ((a ≡ x) × (b ≡ true)) ⊎ Occurs a ys
Occurs-if true x a ys (inl e) = inl (e, refl)
Occurs-if true x a ys (inr o) = inr o
Occurs-if false x a ys o = inr o

pub filter_sound :
    {A : Type 0} (p : A → Bool) (xs : List A) (a : A)
    → Occurs a (filter p xs)
    → Occurs a xs × (p a ≡ true)
filter_sound p [] a h = absurd h
filter_sound p (x ∷ xs) a h = elim (Occurs-if (p x) x a (filter p xs) h) [
  | inl (e, passed) ↦ (inl e, subst (λ y. p y ≡ true) (sym e) passed)
  | inr o ↦ let later = filter_sound p xs a o in (inr later.0, later.1)
]

pub filter_complete :
    {A : Type 0} (p : A → Bool) (a : A) (xs : List A)
    → Occurs a xs
    → p a ≡ true
    → Occurs a (filter p xs)
filter_complete p a [] o h = o
filter_complete p a (x ∷ xs) (inl e) h = let here : p x ≡ true = sym (ap p e) ∙ h in rw here (inl e)
filter_complete p a (x ∷ xs) (inr o) h = elim (Bool-cases (p x)) [
  | inl here ↦ rw here (inr (filter_complete p a xs o h))
  | inr other ↦ rw other (filter_complete p a xs o h)
]

pub map_sound :
    {A B : Type 0} (f : A → B) (b : B) (xs : List A)
    → Occurs b (map f xs)
    → (a : A) × Occurs a xs × (b ≡ f a)
map_sound f b [] o = absurd o
map_sound f b (x ∷ xs) (inl e) = (x, inl refl, e)
map_sound f b (x ∷ xs) (inr o) = let (a, within, e) = map_sound f b xs o in (a, inr within, e)

pub map_complete :
    {A B : Type 0} (f : A → B) (a : A) (xs : List A) → Occurs a xs → Occurs (f a) (map f xs)
map_complete f a [] o = o
map_complete f a (x ∷ xs) (inl e) = inl (ap f e)
map_complete f a (x ∷ xs) (inr o) = inr (map_complete f a xs o)

pub flat_map_sound :
    {A B : Type 0} (f : A → List B) (b : B) (xs : List A)
    → Occurs b (flat_map f xs)
    → (a : A) × Occurs a xs × Occurs b (f a)
flat_map_sound f b [] o = absurd o
flat_map_sound f b (x ∷ xs) o = elim (Occurs-both b (f x) (flat_map f xs) o) [
  | inl here ↦ (x, inl refl, here)
  | inr later ↦ let (a, within, h) = flat_map_sound f b xs later in (a, inr within, h)
]

pub flat_map_complete :
    {A B : Type 0} (f : A → List B) (b : B) (a : A) (xs : List A)
    → Occurs a xs
    → Occurs b (f a)
    → Occurs b (flat_map f xs)
flat_map_complete f b a [] o h = o
flat_map_complete f b a (x ∷ xs) (inl e) h =
    Occurs-left b (f x) (flat_map f xs) (subst (λ y. Occurs b (f y)) e h)
flat_map_complete f b a (x ∷ xs) (inr o) h =
    Occurs-right b (f x) (flat_map f xs) (flat_map_complete f b a xs o h)
