-- ===== src/Gateway/Handler.antt =====
-- `handle` and the start of `serve`: what the gateway does with a request, given what the sockets
-- do. The raw Docker socket is opened only behind the policy.
use docker_map.Common.{
  ℕ, ◌≡◌, refl, Bool, true, false, not, List, [], ◌∷◌, Option, none, some, arith, if◌then◌else◌,
  Option-cases, inl, inr, Text, is_empty,
}
use docker_map.Gateway.{Request, Verdict, allowed, denied, panicked, allow, new}
use docker_map.Gateway.Sound.{allow_sound}
use docker_map.Gateway.Permitted.{Permitted, IsClean}

-- What the peers do: the body that the client sends, whether it can be read, whether Docker's
-- socket accepts, and whether the exchange over it succeeds.
pub record Peers : Type 0 where
  pub body : Option (List ℕ)
  pub connects : Bool
  pub exchanges : Bool

-- `io_error` ends the connection with an error, `aborted` with a panic of its task.
pub data Outcome : Type 0 where
  forbidden bad_gateway io_error aborted : Outcome
  forwarded : Text → Outcome

-- The outcome, and whether the raw socket was contacted.
unfoldable pub handle_body : Text → Peers → Outcome × Bool
handle_body target peers = elim peers.body [
  | none ↦ (io_error, false)
  | some bytes ↦
      if not (is_empty bytes)
      then (forbidden, false)
      else if not peers.connects
      then (bad_gateway, true)
      else if not peers.exchanges
      then (io_error, true)
      else (forwarded target, true)
]

is_empty_nil : (bytes : List ℕ) → is_empty bytes ≡ true → bytes ≡ []
unfolding is_empty
is_empty_nil [] h = refl
is_empty_nil (b ∷ bytes) h = cc

handle_body_empty :
    (target : Text) (peers : Peers) → (handle_body target peers).1 ≡ true → peers.body ≡ some []
unfolding handle_body
handle_body_empty target peers h = elim (Option-cases peers.body) [
  | inl e ↦ absurd (ground arith)
  | inr (bytes, e) ↦ ground (arith, is_empty_nil bytes)
]

handle_body_target :
    (target : Text) (peers : Peers) {t : Text}
    → (handle_body target peers).0 ≡ forwarded t
    → t ≡ target
unfolding handle_body
handle_body_target target peers h = ground arith

module _ (json_string byte_serialize : Text → Text) where
  pub handle : Option Text → Request → Peers → Outcome × Bool
  handle label_filter request peers =
      elim (allow json_string byte_serialize (new label_filter) request) [
        | allowed target ↦ handle_body target peers
        | denied d ↦ (forbidden, false)
        | panicked ↦ (aborted, false)
      ]

  pub handle-allowed :
      (label_filter : Option Text) (request : Request) (peers : Peers) {target : Text}
      → allow json_string byte_serialize (new label_filter) request ≡ allowed target
      → handle label_filter request peers ≡ handle_body target peers
  unfolding handle
  handle-allowed label_filter request peers e = ground arith

  -- Docker's raw socket is contacted only for a clean GET of a permitted target with an empty body,
  -- and only that target, as the client wrote it, is ever forwarded.
  pub handle_guards :
      (label_filter : Option Text) (request : Request) (peers : Peers)
      → (handle label_filter request peers).1 ≡ true
      → (target : Text) × IsClean request
        × (request.path_and_query ≡ some target)
        × Permitted json_string byte_serialize (new label_filter) target
        × (peers.body ≡ some [])
        × ((t : Text) → (handle label_filter request peers).0 ≡ forwarded t → t ≡ target)
  unfolding handle
  handle_guards label_filter request peers h =
      split (allow json_string byte_serialize (new label_filter) request) refl
    where
      split :
          (v : Verdict)
          → allow json_string byte_serialize (new label_filter) request ≡ v
          → (target : Text) × IsClean request
            × (request.path_and_query ≡ some target)
            × Permitted json_string byte_serialize (new label_filter) target
            × (peers.body ≡ some [])
            × ((t : Text) → (handle label_filter request peers).0 ≡ forwarded t → t ≡ target)
      split (allowed target) e =
          let (clean, named, permitted) =
            allow_sound json_string byte_serialize (new label_filter) request e in
          (
            target,
            clean,
            named,
            permitted,
            handle_body_empty target peers (ground arith),
            λ t f. handle_body_target target peers (ground arith),
          )
      split (denied d) e = absurd (ground arith)
      split panicked e = absurd (ground arith)
