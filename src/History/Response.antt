-- ===== src/History/Response.antt =====
-- What the history route answers.
use mathlib.Core.List.{reverse, reverse-cons}
use docker_map.Common.{
  ◌≤◌, ◌≡◌, ◌≢◌, ◌↔◌, refl, true, false, List, [], ◌∷◌, ◌++◌, none, some, arith, length,
  length-append, All, All-append, Text, inl, inr, Option-cases,
}
use docker_map.Models.{RuntimeMode, docker, mock, ObservedChangeEvent}
use docker_map.History.{ObservedHistoryCache, max_observed_change_events, response}
use docker_map.History.Numbering.{IsChronological}
use docker_map.History.Invariant.{IsHistory}

abbrev pub IsNewestFirst : List ObservedChangeEvent → Type 0
IsNewestFirst [] = Unit {0}
IsNewestFirst (e ∷ es) = All (λ x. x.observed_at_ms ≤ e.observed_at_ms) es × IsNewestFirst es

append-IsNewestFirst :
    (es : List ObservedChangeEvent) (e : ObservedChangeEvent)
    → IsNewestFirst es
    → All (λ x. e.observed_at_ms ≤ x.observed_at_ms) es
    → IsNewestFirst (es ++ e ∷ [])
append-IsNewestFirst [] e d h = (tt, tt)
append-IsNewestFirst (x ∷ es) e d h = (
  All-append (λ y. y.observed_at_ms ≤ x.observed_at_ms) es (e ∷ []) d.0 (h.0, tt),
  append-IsNewestFirst es e d.1 h.1,
)

All-reverse :
    (P : ObservedChangeEvent → Type 0) (es : List ObservedChangeEvent)
    → All P es
    → All P (reverse es)
All-reverse P [] h = tt
All-reverse P (e ∷ es) h =
    rw (reverse-cons e es) (All-append P (reverse es) (e ∷ []) (All-reverse P es h.1) (h.0, tt))

reverse-IsNewestFirst :
    (es : List ObservedChangeEvent) → IsChronological es → IsNewestFirst (reverse es)
reverse-IsNewestFirst [] d = tt
reverse-IsNewestFirst (e ∷ es) d = rw (reverse-cons e es) (
    append-IsNewestFirst (reverse es) e (reverse-IsNewestFirst es d.1)
      (All-reverse (λ x. e.observed_at_ms ≤ x.observed_at_ms) es d.0))

length-reverse : (es : List ObservedChangeEvent) → length (reverse es) ≡ length es
length-reverse [] = refl
length-reverse (e ∷ es) =
    rw (reverse-cons e es) (omega (arith, length-append (reverse es) (e ∷ []), length-reverse es))

-- What is answered for a history within its bounds: the source as it is; a baseline as established
-- exactly when the source is Docker and the history has one; no more than 64 events, newest first; no
-- event and no revision where no baseline is established; and the two revisions, as they are, and
-- every event kept, where one is.
pub response_lem :
    (source : RuntimeMode) (model observed : Text) (h : ObservedHistoryCache)
    → IsHistory h
    → let answer = response source model observed h in
      (answer.source ≡ source)
      × ((answer.baseline_established ≡ true) ↔ ((source ≡ docker) × (h.baseline ≢ none)))
      × IsNewestFirst answer.events
      × (length answer.events ≤ max_observed_change_events)
      × (answer.baseline_established ≡ false
          → (answer.events ≡ [])
            × (answer.current_model_revision ≡ none)
            × (answer.observed_revision ≡ none))
      × (answer.baseline_established ≡ true
          → (answer.events ≡ reverse h.events)
            × (answer.current_model_revision ≡ some model)
            × (answer.observed_revision ≡ some observed))
unfolding response
response_lem mock model observed h w = (
  refl,
  (λ e. absurd (cc e), λ e. absurd (cc e.0)),
  tt,
  omega arith,
  λ e. (refl, refl, refl),
  λ e. absurd (cc e),
)
response_lem docker model observed h w = elim (Option-cases h.baseline) [
  | inl e ↦ rw e (
    refl,
    (λ f. absurd (cc f), λ f. absurd (f.1 refl)),
    tt,
    omega arith,
    λ f. (refl, refl, refl),
    λ f. absurd (cc f),
  )
  | inr (b, e) ↦ rw e (
    refl,
    (λ f. (refl, λ n. absurd (cc n)), λ f. refl),
    reverse-IsNewestFirst h.events w.chronological,
    omega (arith, length-reverse h.events, w.few),
    λ f. absurd (cc f),
    λ f. (refl, refl, refl),
  )
]
