-- ===== src/Logs/Page/Boundary.antt =====
-- The entry at the end of a full page, and the cursor that the page carries.
use docker_map.Common.{
  ℕ, zero, suc, ◌+◌, ◌-◌, ◌≤◌, ◌<◌, ◌≡◌, refl, ap, true, List, [], ◌∷◌, ◌++◌, append_assoc, Option,
  none, some, arith, ltb, All-left, All-right, length, length-append, take, get_elem?,
}
use docker_map.Common.Decimal.{max_u64}
use docker_map.Logs.Cursor.{LogCursor, IsWord}
use docker_map.Logs.Page.{LogEntry, cut_page, next_cursor, previously_emitted, word_add, word_sub}
use docker_map.Logs.Page.Sorting.{IsDescending}
use docker_map.Logs.Page.Resume.{
  count_at, Newer, StandsAt, count_at-append, previously_emitted-count_at, position-count_at,
}

pub split_at :
    (k : ℕ) (xs : List LogEntry)
    → k < length xs
    → (front : List LogEntry) × (e : LogEntry) × (rest : List LogEntry) × (xs ≡ front ++ e ∷ rest)
      × (length front ≡ k)
split_at k [] h = absurd (omega arith)
split_at zero (x ∷ xs) h = ([], x, xs, refl, refl)
split_at (suc k) (x ∷ xs) h =
    let (front, e, rest, p, l) = split_at k xs (omega arith) in
    (x ∷ front, e, rest, ap (◌∷◌ x) p, ap suc l)

get_elem?-middle :
    (front rest : List LogEntry) (e : LogEntry)
    → get_elem? (front ++ e ∷ rest) (length front) ≡ some e
get_elem?-middle [] rest e = refl
get_elem?-middle (x ∷ front) rest e = get_elem?-middle front rest e

take-middle :
    (front rest : List LogEntry) (e : LogEntry)
    → take (suc (length front)) (front ++ e ∷ rest) ≡ front ++ e ∷ []
take-middle [] rest e = refl
take-middle (x ∷ front) rest e = ap (◌∷◌ x) (take-middle front rest e)

IsDescending-Newer :
    (e : LogEntry) (xs ys : List LogEntry) → IsDescending (xs ++ e ∷ ys) → Newer e.timestamp xs
IsDescending-Newer e [] ys d = tt
IsDescending-Newer e (x ∷ xs) ys d = (
  (All-right (λ x'. x'.timestamp ≤ x.timestamp) xs (e ∷ ys) d.0).0,
  IsDescending-Newer e xs ys d.1,
)

IsDescending-right : (xs ys : List LogEntry) → IsDescending (xs ++ ys) → IsDescending ys
IsDescending-right [] ys d = d
IsDescending-right (x ∷ xs) ys d = IsDescending-right xs ys d.1

IsDescending-left : (xs ys : List LogEntry) → IsDescending (xs ++ ys) → IsDescending xs
IsDescending-left [] ys d = tt
IsDescending-left (x ∷ xs) ys d =
    (All-left (λ x'. x'.timestamp ≤ x.timestamp) xs ys d.0, IsDescending-left xs ys d.1)

count_at_last : (e : LogEntry) (xs : List LogEntry) → 0 < count_at e.timestamp (xs ++ e ∷ [])
count_at_last e xs = ground (arith, count_at-append e.timestamp xs (e ∷ []))

count_at-le : (t : ℕ) (xs : List LogEntry) → count_at t xs ≤ length xs
count_at-le t [] = omega arith
count_at-le t (x ∷ xs) = ground (arith, count_at-le t xs)

Newer-last :
    (e : LogEntry) (xs : List LogEntry) → Newer e.timestamp xs → Newer e.timestamp (xs ++ e ∷ [])
Newer-last e [] n = (omega arith, tt)
Newer-last e (x ∷ xs) n = (n.0, Newer-last e xs n.1)

le_cursor :
    (c : Option LogCursor) (before front behind : List LogEntry) (e : LogEntry)
    → StandsAt c before (front ++ e ∷ behind)
    → (c' : LogCursor) → c ≡ some c'
    → e.timestamp ≤ c'.millis
le_cursor none before front behind e h c' eq = cc
le_cursor (some c) before front behind e h c' eq =
    ground (arith, (All-right (λ x. x.timestamp ≤ c.millis) front (e ∷ behind) h.1).0)

-- Nothing wraps: the new offset counts entries.
emitted_exact :
    (c : Option LogCursor) (before front behind : List LogEntry) (e : LogEntry) (i : ℕ)
    → StandsAt c before (front ++ e ∷ behind)
    → length (before ++ (front ++ e ∷ behind)) ≤ max_u64
    → i + count_at e.timestamp (front ++ e ∷ []) ≡ length (front ++ e ∷ [])
    → word_sub (word_add (previously_emitted c e.timestamp) (suc (length front))) i
      ≡ count_at e.timestamp (before ++ (front ++ e ∷ []))
emitted_exact c before front behind e i h fits total = omega (
  arith,
  previously_emitted-count_at c before (front ++ e ∷ behind) e.timestamp h
      (le_cursor c before front behind e h),
  count_at-append e.timestamp before (front ++ e ∷ []),
  count_at-le e.timestamp before,
  length-append before (front ++ e ∷ behind),
  length-append front (e ∷ behind),
  length-append front (e ∷ []),
)

-- The cursor of a page that ends in `e`, which stands behind `front` in it.
pub next_cursor-StandsAt :
    (c : Option LogCursor) (before front behind : List LogEntry) (e : LogEntry)
    → StandsAt c before (front ++ e ∷ behind)
    → IsDescending (before ++ (front ++ e ∷ behind))
    → length (before ++ (front ++ e ∷ behind)) ≤ max_u64
    → StandsAt
        (some (next_cursor c (suc (length front)) (front ++ e ∷ []) e))
        (before ++ (front ++ e ∷ []))
        behind
unfolding next_cursor
next_cursor-StandsAt c before front behind e h d fits =
    let ordered_here = IsDescending-right before (front ++ e ∷ behind) d in
    let newer = IsDescending-Newer e (before ++ front) behind (rw append_assoc d) in
    let split = IsDescending-left (front ++ e ∷ []) behind (rw append_assoc ordered_here) in
    let (i, found, total) =
      position-count_at e.timestamp (front ++ e ∷ []) split
        (Newer-last e front (All-right _ before front newer)) (count_at_last e front) in
    (
      rw (← append_assoc) (Newer-last e (before ++ front) newer),
      (IsDescending-right front (e ∷ behind) ordered_here).0,
      rw found (emitted_exact c before front behind e i h fits total),
    )

take_all : (n : ℕ) (xs : List LogEntry) → length xs ≤ n → take n xs ≡ xs
take_all zero [] h = refl
take_all zero (x ∷ xs) h = absurd (omega arith)
take_all (suc n) [] h = refl
take_all (suc n) (x ∷ xs) h = ap (◌∷◌ x) (take_all n xs (omega arith))

count_at-before :
    (t : ℕ) (before behind : List LogEntry)
    → length (before ++ behind) ≤ max_u64
    → count_at t before ≤ max_u64
count_at-before t before behind fits =
    omega (arith, count_at-le t before, length-append before behind)

-- A full page with entries behind it carries a cursor, and never indexes out of range.
pub cut_page_more :
    (c : Option LogCursor) (front rest : List LogEntry) (e : LogEntry)
    → 0 < length rest
    → cut_page c (suc (length front)) (front ++ e ∷ rest)
      ≡ some (front ++ e ∷ [], some (next_cursor c (suc (length front)) (front ++ e ∷ []) e))
unfolding cut_page
cut_page_more c front rest e more =
    let long : ltb (suc (length front)) (length (front ++ e ∷ rest)) ≡ true =
      ground (arith, length-append front (e ∷ rest)) in
    let index : suc (length front) - 1 ≡ length front = omega arith in
    rw (long, index, get_elem?-middle front rest e, take-middle front rest e)

pub cut_page_last :
    (c : Option LogCursor) (k : ℕ) (xs : List LogEntry)
    → length xs ≤ k
    → cut_page c k xs ≡ some (xs, none)
unfolding cut_page
cut_page_last c k xs h = ground (arith, take_all k xs h)

-- A cursor that stands behind a page can be printed and read back.
pub next_cursor-IsWord :
    (c : Option LogCursor) (n : ℕ) (page before behind : List LogEntry) (e : LogEntry)
    → StandsAt (some (next_cursor c n page e)) before behind
    → e.timestamp ≤ max_u64
    → length (before ++ behind) ≤ max_u64
    → IsWord (next_cursor c n page e)
unfolding next_cursor
next_cursor-IsWord c n page before behind e h small fits = record {
  millis_fits = small;
  offset_fits = rw (h.2) (count_at-before e.timestamp before behind fits);
}
