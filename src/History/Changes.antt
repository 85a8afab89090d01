-- ===== src/History/Changes.antt =====
-- The changes between two inventories, as a list, and that observing a snapshot appends just these.
use docker_map.Common.{
  ℕ, zero, suc, ◌+◌, ◌-◌, ◌≤◌, ◌≡◌, refl, sym, ap, ◌∙◌, Bool, true, false, not, ◌&&◌, ◌||◌, List,
  [], ◌∷◌, ◌++◌, append_assoc, append-nil, Option, none, some, arith, ltb, if◌then◌else◌, is_some,
  length, length-append, length-drop, drop-append, dec_lt, drop, Text,
}
use docker_map.Common.Decimal.{max_u64}
use docker_map.Common.Maps.{Map, get, contains_key, text_Ord}
use docker_map.Models.{
  ObservedChangeKind, appeared, disappeared, status_changed, ObservedContainerStatus,
  ObservedChangeEvent,
}
use docker_map.History.{
  ObservedHistoryCache, max_observed_change_events, status_eq, pop_front, event_id, push,
}
use docker_map.History.Inventory.{ObservedContainerInventory}

-- A change of one container: its identity, and its status before and after.
pub record Change : Type 0 where
  pub container_id : Text
  pub before : Option ObservedContainerStatus
  pub now : Option ObservedContainerStatus

abbrev pub change : Text → Option ObservedContainerStatus → Option ObservedContainerStatus → Change
change id before now = record { container_id = id; before = before; now = now }

-- The containers that are gone, unless their identity has become ambiguous.
abbrev pub losses : ObservedContainerInventory → Map Text ObservedContainerStatus → List Change
losses current [] = []
losses current ((id, s) ∷ m) =
    (if contains_key id current.containers || contains_key id current.ambiguous_ids
      then []
      else change id (some s) none ∷ [])
    ++ losses current m

abbrev pub differs : Option ObservedContainerStatus → ObservedContainerStatus → Bool
differs none s = true
differs (some s') s = not (status_eq s' s)

-- The containers that are new, unless their identity was ambiguous, or that have another status.
abbrev pub gains : ObservedContainerInventory → Map Text ObservedContainerStatus → List Change
gains previous [] = []
gains previous ((id, s) ∷ m) =
    (if (is_some (get id previous.containers) || not (contains_key id previous.ambiguous_ids))
        && differs (get id previous.containers) s
      then change id (get id previous.containers) (some s) ∷ []
      else [])
    ++ gains previous m

abbrev pub changes : ObservedContainerInventory → ObservedContainerInventory → List Change
changes previous current = losses current previous.containers ++ gains previous current.containers

abbrev pub kind_of : Change → ObservedChangeKind
kind_of c = elim c.before [
  | none ↦ appeared
  | some s ↦ elim c.now [ none ↦ disappeared | some s' ↦ status_changed ]
]

abbrev pub event : Text → ℕ → ℕ → Change → ObservedChangeEvent
event boot at sequence c = record {
  id = event_id boot sequence;
  kind = kind_of c;
  observed_at_ms = at;
  container_id = c.container_id;
  previous_status = c.before;
  current_status = c.now;
}

-- Changes as events, numbered on from a sequence number.
unfoldable pub numbered : Text → ℕ → ℕ → List Change → List ObservedChangeEvent
numbered boot at sequence [] = []
numbered boot at sequence (c ∷ cs) =
    event boot at (sequence + 1) c ∷ numbered boot at (sequence + 1) cs

-- The last events, no more than are kept.
abbrev pub latest : List ObservedChangeEvent → List ObservedChangeEvent
latest es = drop (length es - max_observed_change_events) es

drop_nil : (n : ℕ) → drop {A = ObservedChangeEvent} n [] ≡ []
drop_nil zero = refl
drop_nil (suc n) = refl

drop-drop : (j k : ℕ) (es : List ObservedChangeEvent) → drop j (drop k es) ≡ drop (k + j) es
drop-drop j zero es = let n : j ≡ 0 + j = omega arith in ap (λ i. drop i es) n
drop-drop j (suc k) [] = drop_nil j ∙ sym (drop_nil (suc k + j))
drop-drop j (suc k) (e ∷ es) =
    let n : suc (k + j) ≡ suc k + j = omega arith in drop-drop j k es ∙ ap (λ i. drop i (e ∷ es)) n

pop_front-latest : (es : List ObservedChangeEvent) → pop_front es ≡ latest es
unfolding pop_front
pop_front-latest [] = refl
pop_front-latest (e ∷ es) = elim (dec_lt 64 (length (e ∷ es))) [
  | yes many ↦
      let n : length (e ∷ es) - 64 ≡ suc (length es - 64) = omega arith in
      ground (arith, pop_front-latest es, ap (λ k. drop k (e ∷ es)) n)
  | no few ↦
      let n : length (e ∷ es) - 64 ≡ 0 = omega arith in ground (arith, ap (λ k. drop k (e ∷ es)) n)
]

pub latest_few : (es : List ObservedChangeEvent) → length es ≤ 64 → latest es ≡ es
latest_few es h = let n : length es - 64 ≡ 0 = omega arith in ap (λ k. drop k es) n

pub length-latest :
    (es : List ObservedChangeEvent) → length (latest es) ≤ max_observed_change_events
length-latest es = omega (arith, length-drop (length es - 64) es)

latest-append : (a b : List ObservedChangeEvent) → latest (latest a ++ b) ≡ latest (a ++ b)
latest-append a b =
    let k = length a - 64 in
    let joined : drop k a ++ b ≡ drop k (a ++ b) = sym (drop-append k a b (omega arith)) in
    let n : k + (length (drop k a ++ b) - 64) ≡ length (a ++ b) - 64 =
      omega (arith, length-append (drop k a) b, length-append a b, length-drop k a) in
    ap (drop (length (drop k a ++ b) - 64)) joined
    ∙ drop-drop (length (drop k a ++ b) - 64) k (a ++ b)
    ∙ ap (λ i. drop i (a ++ b)) n

numbered-append :
    (boot : Text) (at n : ℕ) (cs ds : List Change)
    → numbered boot at n (cs ++ ds) ≡ numbered boot at n cs ++ numbered boot at (n + length cs) ds
unfolding numbered
numbered-append boot at n [] ds = ap (λ k. numbered boot at k ds) (omega arith)
numbered-append boot at n (c ∷ cs) ds =
    let next : n + 1 + length cs ≡ n + suc (length cs) = omega arith in
    ap (◌∷◌ (event boot at (n + 1) c)) (
      numbered-append boot at (n + 1) cs ds
      ∙ ap (λ k. numbered boot at (n + 1) cs ++ numbered boot at k ds) next)

abbrev pub appended : ℕ → List Change → ObservedHistoryCache → ObservedHistoryCache
appended now cs h = record {
  boot = h.boot;
  next_sequence = h.next_sequence + length cs;
  last_observed_at_ms = h.last_observed_at_ms;
  baseline = h.baseline;
  events = latest (h.events ++ numbered h.boot now h.next_sequence cs);
}

pub length-numbered :
    (boot : Text) (at n : ℕ) (cs : List Change) → length (numbered boot at n cs) ≡ length cs
unfolding numbered
length-numbered boot at n [] = refl
length-numbered boot at n (c ∷ cs) = ap suc (length-numbered boot at (n + 1) cs)

with_tail :
    (h : ObservedHistoryCache) {n n' : ℕ} {es es' : List ObservedChangeEvent}
    → n ≡ n'
    → es ≡ es'
    → ◌≡◌ {A = ObservedHistoryCache}
        (record {
          boot = h.boot;
          next_sequence = n;
          last_observed_at_ms = h.last_observed_at_ms;
          baseline = h.baseline;
          events = es;
        })
        (record {
          boot = h.boot;
          next_sequence = n';
          last_observed_at_ms = h.last_observed_at_ms;
          baseline = h.baseline;
          events = es';
        })
with_tail h n es = cc

pub appended_none :
    (now : ℕ) (h : ObservedHistoryCache) → length h.events ≤ 64 → appended now [] h ≡ h
unfolding numbered
appended_none now h few =
    with_tail h (omega arith) (ap latest (append-nil h.events) ∙ latest_few h.events few)

pub appended-append :
    (now : ℕ) (cs ds : List Change) (h : ObservedHistoryCache)
    → appended now ds (appended now cs h) ≡ appended now (cs ++ ds) h
appended-append now cs ds h = with_tail h (omega (arith, length-append cs ds)) (
    latest-append (h.events ++ numbered h.boot now h.next_sequence cs) _
    ∙ ap latest (
        append_assoc h.events (numbered h.boot now h.next_sequence cs)
          (numbered h.boot now (h.next_sequence + length cs) ds)
        ∙ ap (◌++◌ h.events) (sym (numbered-append h.boot now h.next_sequence cs ds))))

pub push-appended :
    (now : ℕ) (c : Change) (h : ObservedHistoryCache)
    → h.next_sequence + 1 ≤ max_u64
    → push (kind_of c) now c.container_id c.before c.now h ≡ some (appended now (c ∷ []) h)
unfolding push numbered
push-appended now c h room =
    let fits : ltb max_u64 (h.next_sequence + 1) ≡ false = ground arith in
    rw fits (ap some (with_tail h refl (pop_front-latest (h.events ++ _))))
