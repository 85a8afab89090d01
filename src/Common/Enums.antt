-- ===== src/Common/Enums.antt =====
-- The equality that Rust derives for an enumeration without fields: that of the discriminants.
use docker_map.Common.Tests.{◌==◌, ==_iff}
use docker_map.Common.Lists.{get_elem?}
use Prim.Native.Nat.{ℕ}
use mathlib.Core.Path.{◌≡◌, refl, sym, ap, ◌∙◌}
use mathlib.Core.Logic.{◌↔◌}
use mathlib.Core.Bool.{Bool, true}
use mathlib.Core.List.{List}
use mathlib.Core.Option.{some}

-- The constructors in their order, and the place of each.
pub record Enum (A : Type 0) : Type 0 where
  pub variants : List A
  pub disc : A → ℕ
  pub variants-disc : (a : A) → get_elem? variants (disc a) ≡ some a

infix 50 ◌=?◌
abbrev pub ◌=?◌ : {A : Type 0} ⦃e : Enum A⦄ → A → A → Bool
◌=?◌ ⦃e⦄ a b = e.disc a == e.disc b

some_injective : {A : Type 0} {a b : A} → some a ≡ some b → a ≡ b
some_injective h = cc

pub =?_sound : {A : Type 0} ⦃e : Enum A⦄ (a b : A) → (a =? b) ≡ true → a ≡ b
=?_sound ⦃e⦄ a b h =
    let same : e.disc a ≡ e.disc b = (==_iff _ _).0 h in
    some_injective (sym (e.variants-disc a) ∙ ap (get_elem? e.variants) same ∙ e.variants-disc b)

pub =?_refl : {A : Type 0} ⦃e : Enum A⦄ (a : A) → (a =? a) ≡ true
=?_refl ⦃e⦄ a = (==_iff _ _).1 refl

pub =?_iff : {A : Type 0} ⦃e : Enum A⦄ (a b : A) → ((a =? b) ≡ true) ↔ (a ≡ b)
=?_iff a b = (=?_sound a b, λ h. rw h (=?_refl b))
