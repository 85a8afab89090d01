-- ===== src/History/Numbering.antt =====
-- Sequence numbers and times of the events, along appending and cutting.
use docker_map.Common.{
  ℕ, zero, suc, ◌+◌, ◌-◌, ◌≤◌, ◌≡◌, refl, sym, ap, ◌∙◌, List, [], ◌∷◌, ◌++◌, map, Option, none,
  some, arith, length, drop, All, All-append, Text,
}
use docker_map.Models.{ObservedChangeEvent}
use docker_map.History.{max_safe_js_integer, event_id}
use docker_map.History.Changes.{Change, numbered}

-- Consecutive identities behind a sequence number.
abbrev pub ids : Text → ℕ → ℕ → List Text
ids boot n zero = []
ids boot n (suc k) = event_id boot (n + 1) ∷ ids boot (n + 1) k

abbrev pub ids_of : List ObservedChangeEvent → List Text
ids_of = map (λ e. e.id)

-- Oldest first.
abbrev pub IsChronological : List ObservedChangeEvent → Type 0
IsChronological [] = Unit {0}
IsChronological (e ∷ es) = All (λ x. e.observed_at_ms ≤ x.observed_at_ms) es × IsChronological es

abbrev pub IsBy : Option ℕ → List ObservedChangeEvent → Type 0
IsBy none es = es ≡ []
IsBy (some t) es = All (λ x. x.observed_at_ms ≤ t) es × (t ≤ max_safe_js_integer)

pub ids_at : (boot : Text) {n n' k k' : ℕ} → n ≡ n' → k ≡ k' → ids boot n k ≡ ids boot n' k'
ids_at boot a b = cc

pub ids-drop : (boot : Text) (j n k : ℕ) → drop j (ids boot n k) ≡ ids boot (n + j) (k - j)
ids-drop boot zero n k = ids_at boot (omega arith) (omega arith)
ids-drop boot (suc j) n zero = ids_at boot {n = n + suc j} {k = 0} refl (omega arith)
ids-drop boot (suc j) n (suc k) =
    ids-drop boot j (n + 1) k ∙ ids_at boot (omega arith) (omega arith)

pub ids-append : (boot : Text) (n j k : ℕ) → ids boot n j ++ ids boot (n + j) k ≡ ids boot n (j + k)
ids-append boot n zero k = ids_at boot (omega arith) (omega arith)
ids-append boot n (suc j) k =
    let l : suc j + k ≡ suc (j + k) = omega arith in
    ap (◌∷◌ (event_id boot (n + 1))) (
      ap (◌++◌ (ids boot (n + 1) j)) (ids_at boot (omega arith) refl) ∙ ids-append boot (n + 1) j k)
    ∙ ids_at boot {n = n} refl (sym l)

pub ids_of-drop : (j : ℕ) (es : List ObservedChangeEvent) → ids_of (drop j es) ≡ drop j (ids_of es)
ids_of-drop zero es = refl
ids_of-drop (suc j) [] = refl
ids_of-drop (suc j) (e ∷ es) = ids_of-drop j es

pub ids_of-append : (es fs : List ObservedChangeEvent) → ids_of (es ++ fs) ≡ ids_of es ++ ids_of fs
ids_of-append [] fs = refl
ids_of-append (e ∷ es) fs = ap (◌∷◌ e.id) (ids_of-append es fs)

pub ids_of-numbered :
    (boot : Text) (now n : ℕ) (cs : List Change)
    → ids_of (numbered boot now n cs) ≡ ids boot n (length cs)
unfolding numbered
ids_of-numbered boot now n [] = refl
ids_of-numbered boot now n (c ∷ cs) =
    ap (◌∷◌ (event_id boot (n + 1))) (ids_of-numbered boot now (n + 1) cs)

pub All-drop :
    (P : ObservedChangeEvent → Type 0) (j : ℕ) (es : List ObservedChangeEvent)
    → All P es
    → All P (drop j es)
All-drop P zero es h = h
All-drop P (suc j) [] h = tt
All-drop P (suc j) (e ∷ es) h = All-drop P j es h.1

pub drop-IsChronological :
    (j : ℕ) (es : List ObservedChangeEvent) → IsChronological es → IsChronological (drop j es)
drop-IsChronological zero es h = h
drop-IsChronological (suc j) [] h = tt
drop-IsChronological (suc j) (e ∷ es) h = drop-IsChronological j es h.1

pub numbered_at :
    (P : ℕ → Type 0) (boot : Text) (now n : ℕ) (cs : List Change)
    → P now
    → All (λ x. P x.observed_at_ms) (numbered boot now n cs)
unfolding numbered
numbered_at P boot now n [] h = tt
numbered_at P boot now n (c ∷ cs) h = (h, numbered_at P boot now (n + 1) cs h)

pub numbered-IsChronological :
    (boot : Text) (now n : ℕ) (cs : List Change) → IsChronological (numbered boot now n cs)
unfolding numbered
numbered-IsChronological boot now n [] = tt
numbered-IsChronological boot now n (c ∷ cs) = (
  numbered_at (λ t. now ≤ t) boot now (n + 1) cs (omega arith),
  numbered-IsChronological boot now (n + 1) cs,
)

pub append-IsChronological :
    (now : ℕ) (es fs : List ObservedChangeEvent)
    → IsChronological es
    → IsChronological fs
    → All (λ x. x.observed_at_ms ≤ now) es
    → All (λ x. now ≤ x.observed_at_ms) fs
    → IsChronological (es ++ fs)
append-IsChronological now [] fs a b c d = b
append-IsChronological now (e ∷ es) fs a b c d = (
  All-append (λ x. e.observed_at_ms ≤ x.observed_at_ms) es fs a.0 (later fs d),
  append-IsChronological now es fs a.1 b c.1 d,
)
  where
    later :
        (fs : List ObservedChangeEvent)
        → All (λ x. now ≤ x.observed_at_ms) fs
        → All (λ x. e.observed_at_ms ≤ x.observed_at_ms) fs
    later [] w = tt
    later (f ∷ fs) w = (omega (arith, c.0, w.0), later fs w.1)
