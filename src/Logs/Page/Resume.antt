-- ===== src/Logs/Page/Resume.antt =====
-- A cursor stands for a place in the order of the pages, and resuming yields what is behind it.
use docker_map.Common.{
  ℕ, suc, ◌+◌, ◌≤◌, ◌<◌, ◌≡◌, refl, ap, List, [], ◌∷◌, ◌++◌, Option, none, some, arith, ◌==◌,
  if◌then◌else◌, All, length, position, Bool-cases, inl, inr,
}
use docker_map.Logs.Cursor.{LogCursor}
use docker_map.Logs.Page.{LogEntry, resume_from, resume, previously_emitted}
use docker_map.Logs.Page.Sorting.{IsDescending}

-- How many entries have the timestamp `t`.
abbrev pub count_at : ℕ → List LogEntry → ℕ
count_at t [] = 0
count_at t (e ∷ es) = (if e.timestamp == t then 1 else 0) + count_at t es

abbrev pub Newer : ℕ → List LogEntry → Type 0
Newer t = All (λ e. t ≤ e.timestamp)

abbrev pub Older : ℕ → List LogEntry → Type 0
Older t = All (λ e. e.timestamp ≤ t)

-- The cursor stands between the entries `before` it, already emitted, and those `behind` it.
abbrev pub StandsAt : Option LogCursor → List LogEntry → List LogEntry → Type 0
StandsAt none before behind = before ≡ []
StandsAt (some c) before behind =
    Newer c.millis before × Older c.millis behind × (c.offset ≡ count_at c.millis before)

resume_from_before :
    (t o s : ℕ) (before behind : List LogEntry)
    → Newer t before
    → s + count_at t before ≤ o
    → resume_from t o s (before ++ behind) ≡ resume_from t o (s + count_at t before) behind
unfolding resume_from
resume_from_before t o s [] behind n h = ap (λ k. resume_from t o k behind) (omega arith)
resume_from_before t o s (e ∷ es) behind n h =
    ground
      (arith, resume_from_before t o (s + 1) es behind n.1, resume_from_before t o s es behind n.1)

resume_from_behind :
    (t o s : ℕ) (behind : List LogEntry)
    → Older t behind
    → o ≤ s
    → resume_from t o s behind ≡ behind
unfolding resume_from
resume_from_behind t o s [] n h = refl
resume_from_behind t o s (e ∷ es) n h =
    ground (arith, resume_from_behind t o (s + 1) es n.1, resume_from_behind t o s es n.1)

pub resume-StandsAt :
    (c : Option LogCursor) (before behind : List LogEntry)
    → StandsAt c before behind
    → resume c (before ++ behind) ≡ behind
unfolding resume
resume-StandsAt none before behind h = ground arith
resume-StandsAt (some c) before behind h = ground (
  arith,
  resume_from_before c.millis c.offset 0 before behind h.0,
  resume_from_behind c.millis c.offset (0 + count_at c.millis before) behind h.1,
)

pub count_at-append :
    (t : ℕ) (xs ys : List LogEntry) → count_at t (xs ++ ys) ≡ count_at t xs + count_at t ys
count_at-append t [] ys = omega arith
count_at-append t (x ∷ xs) ys = omega (arith, count_at-append t xs ys)

count_at-Newer : (t u : ℕ) (xs : List LogEntry) → t < u → Newer u xs → count_at t xs ≡ 0
count_at-Newer t u [] h n = refl
count_at-Newer t u (x ∷ xs) h n = ground (arith, count_at-Newer t u xs h n.1)

-- What a cursor says was emitted at the timestamp of an entry behind it.
pub previously_emitted-count_at :
    (c : Option LogCursor) (before behind : List LogEntry) (t : ℕ)
    → StandsAt c before behind
    → ((c' : LogCursor) → c ≡ some c' → t ≤ c'.millis)
    → previously_emitted c t ≡ count_at t before
unfolding previously_emitted
previously_emitted-count_at none before behind t h le = ground arith
previously_emitted-count_at (some c) before behind t h le =
    let l = le c refl in ground (arith, count_at-Newer t c.millis before)

count_at_all : (t : ℕ) (xs : List LogEntry) → Newer t xs → Older t xs → count_at t xs ≡ length xs
count_at_all t [] n o = refl
count_at_all t (x ∷ xs) n o = ground (arith, count_at_all t xs n.1 o.1)

Older-le : (a b : ℕ) (xs : List LogEntry) → Older a xs → a ≤ b → Older b xs
Older-le a b [] o h = tt
Older-le a b (x ∷ xs) o h = (omega arith, Older-le a b xs o.1 h)

-- In a descending page whose entries are not older than `t`, those at `t` are the end of it.
pub position-count_at :
    (t : ℕ) (xs : List LogEntry)
    → IsDescending xs
    → Newer t xs
    → 0 < count_at t xs
    → (i : ℕ) × (position (λ e. e.timestamp == t) xs ≡ some i) × (i + count_at t xs ≡ length xs)
position-count_at t [] s n h = absurd (omega arith)
position-count_at t (x ∷ xs) s n h = elim (Bool-cases (x.timestamp == t)) [
  | inl here ↦ (0, rw here, ground (arith, count_at_all t xs n.1, Older-le x.timestamp t xs s.0))
  | inr away ↦
      let (i, found, total) = position-count_at t xs s.1 n.1 (ground arith) in
      (suc i, rw (away, found), ground arith)
]
