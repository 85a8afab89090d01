-- ===== src/Logs/Page/Complete.antt =====
-- Following the cursors from the first page yields every matching entry once, in order, and ends.
use docker_map.Common.{
  dec_lt, ℕ, zero, suc, ◌-◌, ◌≤◌, ◌<◌, ◌≡◌, refl, sym, ap, ◌∙◌, List, [], ◌∷◌, ◌++◌, append_assoc,
  Option, none, some, arith, ◌>>=◌, All, All-right, length, length-append, Text,
}
use docker_map.Common.Decimal.{max_u64}
use docker_map.Logs.Cursor.{LogCursor, IsWord, parse, display, parse-display}
use docker_map.Logs.Page.{LogEntry, ordered, next_cursor, clamp_limit, page_log_entries}
use docker_map.Logs.Page.Sorting.{IsDescending, ordered-IsDescending, length-ordered, ordered-All}
use docker_map.Logs.Page.Boundary.{
  split_at, next_cursor-StandsAt, cut_page_more, cut_page_last, next_cursor-IsWord,
}
use docker_map.Logs.Page.Resume.{StandsAt, resume-StandsAt}

-- A reader that follows the cursors, as texts, until a page carries none.
pub follow : ℕ → List LogEntry → Option Text → Option Text → ℕ → Option (List LogEntry)
follow zero entries query cursor limit = none
follow (suc f) entries query cursor limit = do
  (page, next) ← page_log_entries entries query (cursor >>= parse) limit
  elim next [
    | none ↦ some page
    | some t ↦ (do rest ← follow f entries query (some t) limit; some (page ++ rest))
  ]

page_last :
    (entries : List LogEntry) (query : Option Text) (c : Option LogCursor) (limit : ℕ)
    (before behind : List LogEntry)
    → ordered query entries ≡ before ++ behind
    → StandsAt c before behind
    → length behind ≤ clamp_limit limit
    → page_log_entries entries query c limit ≡ some (behind, none)
unfolding page_log_entries
page_last entries query c limit before behind o h short =
    rw (o, resume-StandsAt c before behind h, cut_page_last c (clamp_limit limit) behind short)

page_more :
    (entries : List LogEntry) (query : Option Text) (c : Option LogCursor) (limit : ℕ)
    (before front rest : List LogEntry) (e : LogEntry)
    → ordered query entries ≡ before ++ (front ++ e ∷ rest)
    → StandsAt c before (front ++ e ∷ rest)
    → clamp_limit limit ≡ suc (length front)
    → 0 < length rest
    → page_log_entries entries query c limit
      ≡ some
          (front ++ e ∷ [], some (display (next_cursor c (suc (length front)) (front ++ e ∷ []) e)))
unfolding page_log_entries
page_more entries query c limit before front rest e o h full more =
    rw (o, resume-StandsAt c before (front ++ e ∷ rest) h, full, cut_page_more c front rest e more)

follow_last :
    (f : ℕ) (entries : List LogEntry) (query cursor : Option Text) (limit : ℕ)
    {behind : List LogEntry}
    → page_log_entries entries query (cursor >>= parse) limit ≡ some (behind, none)
    → follow (suc f) entries query cursor limit ≡ some behind
unfolding follow
follow_last f entries query cursor limit p = rw p

follow_more :
    (f : ℕ) (entries : List LogEntry) (query cursor : Option Text) (limit : ℕ)
    {page rest : List LogEntry} {t : Text}
    → page_log_entries entries query (cursor >>= parse) limit ≡ some (page, some t)
    → follow f entries query (some t) limit ≡ some rest
    → follow (suc f) entries query cursor limit ≡ some (page ++ rest)
unfolding follow
follow_more f entries query cursor limit p r = rw (p, r)

regroup :
    (before front rest : List LogEntry) (e : LogEntry)
    → before ++ (front ++ e ∷ rest) ≡ (before ++ (front ++ e ∷ [])) ++ rest
regroup before front rest e = simp append_assoc

-- From any place in the order, the pages that follow are the entries behind it.
follow_behind :
    (f : ℕ) (entries : List LogEntry) (query cursor : Option Text) (limit : ℕ)
    (before behind : List LogEntry)
    → ordered query entries ≡ before ++ behind
    → StandsAt (cursor >>= parse) before behind
    → IsDescending (before ++ behind)
    → All (λ e. e.timestamp ≤ max_u64) behind
    → length (before ++ behind) ≤ max_u64
    → length behind < f
    → follow f entries query cursor limit ≡ some behind
follow_behind zero entries query cursor limit before behind o h d small fits enough =
    absurd (omega arith)
follow_behind (suc f) entries query cursor limit before behind o h d small fits enough =
    elim (dec_lt (clamp_limit limit) (length behind)) [
      | no short ↦
          follow_last f entries query cursor limit
            (page_last entries query (cursor >>= parse) limit before behind o h (omega arith))
      | yes long ↦
          let (front, e, rest, split, l) = split_at (clamp_limit limit - 1) behind (omega arith) in
          let c' = next_cursor (cursor >>= parse) (suc (length front)) (front ++ e ∷ []) e in
          let at_page : StandsAt (cursor >>= parse) before (front ++ e ∷ rest) = rw (← split) h in
          let whole : before ++ behind ≡ (before ++ (front ++ e ∷ [])) ++ rest =
            ap (◌++◌ before) split ∙ regroup before front rest e in
          let small' : All (λ x. x.timestamp ≤ max_u64) (front ++ e ∷ rest) = rw (← split) small in
          let fits' : length ((before ++ (front ++ e ∷ [])) ++ rest) ≤ max_u64 =
            rw (← whole) fits in
          let d' : IsDescending (before ++ (front ++ e ∷ rest)) = rw (← split) d in
          let behind_page : StandsAt (some c') (before ++ (front ++ e ∷ [])) rest =
            next_cursor-StandsAt (cursor >>= parse) before front rest e at_page d'
              (rw (← split) fits) in
          let word : IsWord c' =
            next_cursor-IsWord (cursor >>= parse) _ _ _ rest e behind_page
              (All-right (λ x. x.timestamp ≤ max_u64) front (e ∷ rest) small').0 fits' in
          follow_more f entries query cursor limit
            (page_more entries query (cursor >>= parse) limit before front rest e
              (o ∙ ap (◌++◌ before) split) at_page (omega arith)
              (omega (arith, ap length split, length-append front (e ∷ rest))))
            (follow_behind f entries query (some (display c')) limit (before ++ (front ++ e ∷ []))
              rest (o ∙ whole) (rw (parse-display c' word) behind_page) (rw (← whole) d)
              (All-right (λ x. x.timestamp ≤ max_u64) front (e ∷ rest) small').1 fits'
              (omega (arith, ap length split, length-append front (e ∷ rest))))
          ∙ ap some (append_assoc front (e ∷ []) rest ∙ sym split)
    ]

-- For every query and page limit, following the cursors from the first page to the end terminates
-- within one page for each entry and one more, and yields exactly the matching entries, newest
-- first, none lost and none repeated, if there are no more than 2^64 - 1 entries and each
-- timestamp is a 64-bit number.
pub follow-ordered :
    (entries : List LogEntry) (query : Option Text) (limit : ℕ)
    → All (λ e. e.timestamp ≤ max_u64) entries
    → length entries ≤ max_u64
    → follow (suc (length entries)) entries query none limit ≡ some (ordered query entries)
follow-ordered entries query limit small fits =
    follow_behind (suc (length entries)) entries query none limit [] (ordered query entries) refl
      refl (ordered-IsDescending query entries) (ordered-All max_u64 query entries small)
      (omega (arith, length-ordered query entries)) (omega (arith, length-ordered query entries))
