-- ===== src/Server/Request.antt =====
-- src/server.rs: `SessionRequest`, which is accepted or rejected once.
pub mod Laws
mod Tests
use web_transport_quinn_py.Prelude.{ℕ, String, ◌<>◌, Option, none, some, List, [], ◌∷◌}
use web_transport_quinn_py.Prelude.Result.{Result, ok, err, ◌>>=◌, map_err}
use web_transport_quinn_py.Errors.Classes.{value_error}
use web_transport_quinn_py.Errors.Classes
use web_transport_quinn_py.Errors.Exceptions.{PyErr, PyResult, new_err}
use web_transport_quinn_py.Errors.Foreign.{Wire, ServerError}
use web_transport_quinn_py.Errors.Mapping.{map_server_error}
use web_transport_quinn_py.Session
use web_transport_quinn_py.Session.{Session}

abbrev pub already_used : PyErr
already_used = new_err Classes.session_error "request already accepted or rejected"

-- What a method does with the request that it has taken: it is answered with a status, or it is
-- dropped unanswered.
pub data Use : Type 0 where
  accepts : Use
  responds : (status : ℕ) → Use
  drops : Use

-- The request object, over the requests `R` of web_transport_quinn, with the uses of the request.
pub record SessionRequest (R : Type 0) : Type 0 where
  pub inner : Option R
  pub url : String
  pub uses : List Use

module _ {R : Type 0} where
  -- `SessionRequest::new`, for a request whose `url` prints as given.
  unfoldable pub new : R → String → SessionRequest R
  new request url = record { inner = some request; url = url; uses = [] }

  -- The request is taken out of the object, and used as given; its future gets it.
  abbrev pub used : SessionRequest R → Use → SessionRequest R
  used s u = record s { inner = none; uses = u ∷ s.uses }

  -- The part of `accept` that runs at once. The result is the request that its future awaits.
  unfoldable pub accept : SessionRequest R → SessionRequest R × PyResult R
  accept s = elim s.inner [
    | none ↦ (s, err already_used)
    | some request ↦ (used s accepts, ok request)
  ]

  -- The part of `reject` that runs at once: the request is taken before the status is looked at.
  -- `from_u16` is `http::StatusCode::from_u16`.
  unfoldable pub reject :
      (ℕ → Result ℕ String) → SessionRequest R → ℕ → SessionRequest R × PyResult (R × ℕ)
  reject from_u16 s status_code = elim s.inner [
    | none ↦ (s, err already_used)
    | some request ↦ elim (from_u16 status_code) [
      | err e ↦ (used s drops, err (new_err value_error ("invalid status code: " <> e)))
      | ok status ↦ (used s (responds status), ok (request, status))
    ]
  ]

module _ (w : Wire) where
  -- The future of `accept`, by what `request.ok()` answers.
  unfoldable pub accept_future : Result (Unit {0}) ServerError → PyResult Session
  accept_future answer = do _ ← map_err (map_server_error w) answer; ok Session.new

  -- The future of `reject`, by what `request.respond(status)` answers: the session that it gives is
  -- closed from this side, and awaited.
  unfoldable pub reject_future :
      Result (Unit {0}) ServerError → PyResult (Unit {0}) × List Session.Call
  reject_future (err e) = (err (map_server_error w e), [])
  reject_future (ok _) = (ok tt, Session.closed ∷ Session.close 0 "" ∷ [])
