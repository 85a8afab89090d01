-- ===== src/Logs/Page/Sorting.antt =====
-- The order of the pages: `sort_by` yields a descending list, and keeps the entries of each
-- timestamp in the order of the stream.
use docker_map.Common.{
  ℕ, suc, ◌≤◌, ◌≡◌, refl, Bool, List, [], ◌∷◌, Option, arith, ◌==◌, filter, All, length,
  length-filter-le,
}
use docker_map.Common.{Text}
use docker_map.Logs.Page.{LogEntry, place, sort_entries, ordered, matches}

-- Newest first.
abbrev pub IsDescending : List LogEntry → Type 0
IsDescending [] = Unit {0}
IsDescending (e ∷ es) = All (λ x. x.timestamp ≤ e.timestamp) es × IsDescending es

All-le :
    (a b : ℕ) (xs : List LogEntry)
    → a ≤ b
    → All (λ x. x.timestamp ≤ a) xs
    → All (λ x. x.timestamp ≤ b) xs
All-le a b [] h w = tt
All-le a b (x ∷ xs) h w = (omega arith, All-le a b xs h w.1)

place-All :
    (n : ℕ) (e : LogEntry) (xs : List LogEntry)
    → e.timestamp ≤ n
    → All (λ x. x.timestamp ≤ n) xs
    → All (λ x. x.timestamp ≤ n) (place e xs)
unfolding place
place-All n e [] h w = (h, tt)
place-All n e (x ∷ xs) h w = ground (arith, place-All n e xs h w.1)

place-IsDescending :
    (e : LogEntry) (xs : List LogEntry) → IsDescending xs → IsDescending (place e xs)
unfolding place
place-IsDescending e [] d = (tt, tt)
place-IsDescending e (x ∷ xs) d = ground (
  arith,
  place-IsDescending e xs d.1,
  place-All x.timestamp e xs,
  All-le x.timestamp e.timestamp xs,
)

pub sort_entries-IsDescending : (es : List LogEntry) → IsDescending (sort_entries es)
unfolding sort_entries
sort_entries-IsDescending [] = tt
sort_entries-IsDescending (e ∷ es) =
    place-IsDescending e (sort_entries es) (sort_entries-IsDescending es)

abbrev pub at : ℕ → List LogEntry → List LogEntry
at t = filter (λ e. e.timestamp == t)

at-place : (t : ℕ) (e : LogEntry) (xs : List LogEntry) → at t (place e xs) ≡ at t (e ∷ xs)
unfolding place
at-place t e [] = refl
at-place t e (x ∷ xs) = ground (arith, at-place t e xs)

pub at-sort_entries : (t : ℕ) (es : List LogEntry) → at t (sort_entries es) ≡ at t es
unfolding sort_entries
at-sort_entries t [] = refl
at-sort_entries t (e ∷ es) = ground (arith, at-place t e (sort_entries es), at-sort_entries t es)

length-place : (e : LogEntry) (xs : List LogEntry) → length (place e xs) ≡ suc (length xs)
unfolding place
length-place e [] = refl
length-place e (x ∷ xs) = ground (arith, length-place e xs)

length-sort_entries : (es : List LogEntry) → length (sort_entries es) ≡ length es
unfolding sort_entries
length-sort_entries [] = refl
length-sort_entries (e ∷ es) =
    omega (arith, length-place e (sort_entries es), length-sort_entries es)

pub length-ordered : (q : Option Text) (es : List LogEntry) → length (ordered q es) ≤ length es
unfolding ordered
length-ordered q es =
    omega (arith, length-sort_entries (filter (matches q) es), length-filter-le (matches q) es)

pub ordered-IsDescending : (q : Option Text) (es : List LogEntry) → IsDescending (ordered q es)
unfolding ordered
ordered-IsDescending q es = sort_entries-IsDescending (filter (matches q) es)

filter-All :
    (n : ℕ) (p : LogEntry → Bool) (xs : List LogEntry)
    → All (λ x. x.timestamp ≤ n) xs
    → All (λ x. x.timestamp ≤ n) (filter p xs)
filter-All n p [] h = tt
filter-All n p (x ∷ xs) h = ground (arith, filter-All n p xs h.1)

sort_entries-All :
    (n : ℕ) (xs : List LogEntry)
    → All (λ x. x.timestamp ≤ n) xs
    → All (λ x. x.timestamp ≤ n) (sort_entries xs)
unfolding sort_entries
sort_entries-All n [] h = tt
sort_entries-All n (x ∷ xs) h = place-All n x (sort_entries xs) h.0 (sort_entries-All n xs h.1)

pub ordered-All :
    (n : ℕ) (q : Option Text) (es : List LogEntry)
    → All (λ x. x.timestamp ≤ n) es
    → All (λ x. x.timestamp ≤ n) (ordered q es)
unfolding ordered
ordered-All n q es h = sort_entries-All n (filter (matches q) es) (filter-All n (matches q) es h)

-- The order of the pages is newest first, and stable: among the entries of one timestamp it is the
-- order in which the matching entries came.
pub ordered_lem :
    (q : Option Text) (es : List LogEntry)
    → IsDescending (ordered q es) × ((t : ℕ) → at t (ordered q es) ≡ at t (filter (matches q) es))
unfolding ordered
ordered_lem q es = (ordered-IsDescending q es, λ t. at-sort_entries t (filter (matches q) es))
