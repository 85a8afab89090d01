-- ===== src/Logs/Page.antt =====
-- `page_log_entries`: filter by a query, sort newest first, resume behind a cursor, cut one page,
-- and name the cursor of the next. `none` is a panic of an index out of range.
pub mod Sorting
mod Resume
mod Boundary
pub mod Bounds
pub mod Complete
use docker_map.Common.{
  ℕ, zero, suc, ◌+◌, ◌-◌, ◌%◌, ◌^◌, min, max, Bool, true, false, ◌&&◌, ◌||◌, not, List, [], ◌∷◌,
  map, Option, none, some, ltb, leb, ◌==◌, if◌then◌else◌, ◌>>=◌, unwrap_or, is_none_or, length,
  get_elem?, take, filter, position, Text, contains, to_ascii_lowercase,
}
use docker_map.Logs.Cursor.{LogCursor, display}

pub data LogLevel : Type 0 where
  info warn error : LogLevel

pub record LogEntry : Type 0 where
  pub id : Text
  pub timestamp : ℕ
  pub container : Text
  pub level : LogLevel
  pub message : Text

abbrev pub max_log_page_size : ℕ
max_log_page_size = 500

abbrev pub clamp_limit : ℕ → ℕ
clamp_limit limit = min (max limit 1) max_log_page_size

abbrev pub lower : Text → Text
lower = map to_ascii_lowercase

pub matches : Option Text → LogEntry → Bool
unfolding contains to_ascii_lowercase
matches query e = is_none_or (λ needle. contains (lower needle) (lower e.message)) query

-- `sort_by` on the timestamps, newest first, is stable: an entry stays before its equals.
pub place : LogEntry → List LogEntry → List LogEntry
place e [] = e ∷ []
place e (x ∷ xs) = if leb x.timestamp e.timestamp then e ∷ x ∷ xs else x ∷ place e xs

pub sort_entries : List LogEntry → List LogEntry
unfolding place
sort_entries [] = []
sort_entries (e ∷ es) = place e (sort_entries es)

-- The matching entries in the order of the pages.
pub ordered : Option Text → List LogEntry → List LogEntry
unfolding sort_entries matches
ordered query entries = sort_entries (filter (matches query) entries)

-- The closure of the cursor's filter; `seen` is `same_timestamp_seen`.
pub resume_from : ℕ → ℕ → ℕ → List LogEntry → List LogEntry
resume_from millis offset seen [] = []
resume_from millis offset seen (e ∷ es) =
    let same = e.timestamp == millis in
    let keep = ltb e.timestamp millis || (same && leb offset seen) in
    let rest = resume_from millis offset (if same then seen + 1 else seen) es in
    if keep then e ∷ rest else rest

pub resume : Option LogCursor → List LogEntry → List LogEntry
unfolding resume_from
resume none entries = entries
resume (some c) entries = resume_from c.millis c.offset 0 entries

-- Arithmetic on `usize`, which wraps in a release build.
abbrev pub word_add : ℕ → ℕ → ℕ
word_add a b = (a + b) % 2 ^ 64

abbrev pub word_sub : ℕ → ℕ → ℕ
word_sub a b = (a + 2 ^ 64 - b) % 2 ^ 64

pub previously_emitted : Option LogCursor → ℕ → ℕ
previously_emitted none boundary = 0
previously_emitted (some c) boundary = if c.millis == boundary then c.offset else 0

-- The cursor at the last kept entry, `boundary`, of a page of `limit` entries.
pub next_cursor : Option LogCursor → ℕ → List LogEntry → LogEntry → LogCursor
unfolding previously_emitted
next_cursor cursor limit page boundary =
    let first = unwrap_or (limit - 1) (position (λ e. e.timestamp == boundary.timestamp) page) in
    record {
      millis = boundary.timestamp;
      offset = word_sub (word_add (previously_emitted cursor boundary.timestamp) limit) first;
    }

-- One page of the entries that are left, and the cursor of the next if more are behind it.
pub cut_page : Option LogCursor → ℕ → List LogEntry → Option (List LogEntry × Option LogCursor)
unfolding next_cursor
cut_page cursor limit entries =
    if ltb limit (length entries)
    then (do
      boundary ← get_elem? entries (limit - 1)
      some (take limit entries, some (next_cursor cursor limit (take limit entries) boundary)))
    else some (take limit entries, none)

pub page_log_entries :
    List LogEntry → Option Text → Option LogCursor → ℕ → Option (List LogEntry × Option Text)
unfolding cut_page
page_log_entries entries query cursor limit = do
  (page, next) ← cut_page cursor (clamp_limit limit) (resume cursor (ordered query entries))
  some (page, elim next [ none ↦ none | some c ↦ some (display c) ])
