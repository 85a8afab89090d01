-- ===== src/Slots/Slot.antt =====
-- The fixed provider slots, in their order, with the interval of each.
use docker_map.Common.{
  ℕ, suc, zero, ◌*◌, ◌^◌, ◌≡◌, refl, sym, ap, ◌∙◌, Bool, true, false, ◌||◌, List, [], ◌∷◌, ltb,
  ◌==◌, arith, ◌↔◌,
}
use docker_map.Common.Maps.{Ord}

pub data ProviderSlot : Type 0 where
  network_infrastructure host_scoped tmux cron systemd python_processes native_processes
        project_npm :
      ProviderSlot

abbrev pub static_provider_slots : List ProviderSlot
static_provider_slots =
    network_infrastructure ∷ host_scoped ∷ tmux ∷ cron ∷ systemd ∷ python_processes
    ∷ native_processes ∷ project_npm ∷ []

-- The discriminant.
abbrev pub index : ProviderSlot → ℕ
index network_infrastructure = 0
index host_scoped = 1
index tmux = 2
index cron = 3
index systemd = 4
index python_processes = 5
index native_processes = 6
index project_npm = 7

slot_at : ℕ → ProviderSlot
slot_at zero = network_infrastructure
slot_at (suc zero) = host_scoped
slot_at (suc (suc zero)) = tmux
slot_at (suc (suc (suc zero))) = cron
slot_at (suc (suc (suc (suc zero)))) = systemd
slot_at (suc (suc (suc (suc (suc zero))))) = python_processes
slot_at (suc (suc (suc (suc (suc (suc zero)))))) = native_processes
slot_at _ = project_npm

slot_at-index : (s : ProviderSlot) → slot_at (index s) ≡ s
unfolding slot_at
slot_at-index network_infrastructure = refl
slot_at-index host_scoped = refl
slot_at-index tmux = refl
slot_at-index cron = refl
slot_at-index systemd = refl
slot_at-index python_processes = refl
slot_at-index native_processes = refl
slot_at-index project_npm = refl

pub index_injective : (s t : ProviderSlot) → index s ≡ index t → s ≡ t
index_injective s t h = sym (slot_at-index s) ∙ ap slot_at h ∙ slot_at-index t

abbrev pub slot_eq : ProviderSlot → ProviderSlot → Bool
slot_eq s t = index s == index t

pub slot_eq_iff : (s t : ProviderSlot) → (slot_eq s t ≡ true) ↔ (s ≡ t)
slot_eq_iff s t = (
  λ h. index_injective s t (ground arith),
  λ e. let same : index s ≡ index t = ap index e in ground arith,
)

abbrev pub slot_lt : ProviderSlot → ProviderSlot → Bool
slot_lt s t = ltb (index s) (index t)

pub slot_lt_irrefl : (s : ProviderSlot) → slot_lt s s ≡ false
slot_lt_irrefl s = ground arith

pub slot_lt_trans :
    (s t u : ProviderSlot) → slot_lt s t ≡ true → slot_lt t u ≡ true → slot_lt s u ≡ true
slot_lt_trans s t u h k = ground arith

pub slot_lt_total : (s t : ProviderSlot) → (slot_eq s t || (slot_lt s t || slot_lt t s)) ≡ true
slot_lt_total s t = ground arith

instance abbrev pub slot_Ord : Ord ProviderSlot
slot_Ord = record {
  eq = slot_eq;
  lt = slot_lt;
  eq_iff = slot_eq_iff;
  lt_irrefl = slot_lt_irrefl;
  lt_trans = slot_lt_trans;
  lt_total = slot_lt_total;
}

abbrev seconds : ℕ → ℕ
seconds n = n * 10 ^ 9

pub slot_interval : ProviderSlot → ℕ
slot_interval network_infrastructure = seconds 10
slot_interval host_scoped = seconds 15
slot_interval tmux = seconds 15
slot_interval cron = seconds 15
slot_interval systemd = seconds 15
slot_interval python_processes = seconds 10
slot_interval native_processes = seconds 10
slot_interval project_npm = seconds 60
