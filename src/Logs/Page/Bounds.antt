-- ===== src/Logs/Page/Bounds.antt =====
-- What every page keeps to, whatever the cursor.
use docker_map.Common.{
  ℕ, zero, suc, ◌-◌, ◌≤◌, ◌<◌, ◌≡◌, refl, List, [], ◌∷◌, Option, none, some, arith, min, max,
  length, length-take, take, get_elem?, ap, ◌>>=◌, Text, dec_lt,
}
use docker_map.Logs.Cursor.{LogCursor, display}
use docker_map.Logs.Page.{
  LogEntry, ordered, resume, cut_page, next_cursor, clamp_limit, max_log_page_size,
  page_log_entries,
}

get_elem?-some :
    (xs : List LogEntry) (i : ℕ) → i < length xs → (e : LogEntry) × (get_elem? xs i ≡ some e)
get_elem?-some [] i h = absurd (omega arith)
get_elem?-some (x ∷ xs) zero h = (x, refl)
get_elem?-some (x ∷ xs) (suc i) h = get_elem?-some xs i (omega arith)

take_all : (n : ℕ) (xs : List LogEntry) → length xs ≤ n → take n xs ≡ xs
take_all zero [] h = refl
take_all (suc n) [] h = refl
take_all zero (x ∷ xs) h = absurd (omega arith)
take_all (suc n) (x ∷ xs) h = ap (◌∷◌ x) (take_all n xs (omega arith))

displayed_none :
    (next : Option LogCursor)
    → elim next [ none ↦ none | some c ↦ some (display c) ] ≡ none
    → next ≡ none
displayed_none none h = refl
displayed_none (some c) h = absurd (cc h)

cut_page-length :
    (c : Option LogCursor) (limit : ℕ) (entries : List LogEntry)
    → 1 ≤ limit
    → (next : Option LogCursor) × (cut_page c limit entries ≡ some (take limit entries, next))
      × (next ≡ none → length entries ≤ limit)
unfolding cut_page
cut_page-length c limit entries h = elim (dec_lt limit (length entries)) [
  | yes long ↦
      let (e, at) = get_elem?-some entries (limit - 1) (omega arith) in
      (some (next_cursor c limit (take limit entries) e), ground arith, λ n. absurd (cc n))
  | no short ↦ (none, ground arith, λ n. omega arith)
]

-- No query, cursor or limit makes a page fail: it is cut from the front of what the cursor leaves,
-- holds at most the limit (taken as 1 if it is 0) and at most 500 entries, and carries no cursor
-- only if it is all that is left.
pub page_log_entries_lem :
    (entries : List LogEntry) (query : Option Text) (cursor : Option LogCursor) (limit : ℕ)
    → let left = resume cursor (ordered query entries) in
      (next : Option Text) × (page_log_entries entries query cursor limit
        ≡ some (take (clamp_limit limit) left, next))
      × (length (take (clamp_limit limit) left) ≤ min (max limit 1) max_log_page_size)
      × (next ≡ none → take (clamp_limit limit) left ≡ left)
unfolding page_log_entries
page_log_entries_lem entries query cursor limit =
    let left = resume cursor (ordered query entries) in
    let (next, cut, all) = cut_page-length cursor (clamp_limit limit) left (omega arith) in
    (
      elim next [ none ↦ none | some c ↦ some (display c) ],
      ap
          (λ p. p >>= λ (page, next).
            some (page, elim next [ none ↦ none | some c ↦ some (display c) ]))
          cut,
      omega (arith, length-take (clamp_limit limit) left),
      λ n. take_all (clamp_limit limit) left (all (displayed_none next n)),
    )
