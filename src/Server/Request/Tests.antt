-- ===== src/Server/Request/Tests.antt =====
-- Requests of src/server.rs at concrete inputs.
use web_transport_quinn_py.Prelude.{ℕ, ◌≡◌, refl, String, ◌<>◌, [], ◌∷◌, if◌then◌else◌, ltb, length}
use web_transport_quinn_py.Prelude.Result.{Result, ok, err}
use web_transport_quinn_py.Errors.Classes.{value_error}
use web_transport_quinn_py.Errors.Exceptions.{new_err}
use web_transport_quinn_py.Server.Request.{SessionRequest, new, drops, accept, reject, already_used}
use web_transport_quinn_py.Server.Request.Laws.{
  accepting, rejecting, Refused, raised, outcome, ask, asks, request_once, invalid_reject_loses,
}

-- Status codes from 100 to 999 are valid.
abbrev from_u16 : ℕ → Result ℕ String
from_u16 n = if ltb n 100 then err "invalid status code" else ok n

abbrev request : SessionRequest ℕ
request = new 5 "https://localhost/"

request_once_example :
    Refused (asks from_u16 (ask from_u16 request accepting).0 (rejecting 404 ∷ [])).1
    × (length (asks from_u16 request (accepting ∷ rejecting 404 ∷ [])).0.uses ≡ 1)
    × ((asks from_u16 request (accepting ∷ rejecting 404 ∷ [])).0.url ≡ "https://localhost/")
request_once_example = request_once from_u16 5 "https://localhost/" accepting (rejecting 404 ∷ [])

invalid_reject_loses_example :
    (outcome (reject from_u16 request 7).1
      ≡ raised (new_err value_error ("invalid status code: " <> "invalid status code")))
    × ((reject from_u16 request 7).0.uses ≡ drops ∷ [])
    × (accept (reject from_u16 request 7).0 ≡ ((reject from_u16 request 7).0, err already_used))
    × (reject from_u16 (reject from_u16 request 7).0 404
        ≡ ((reject from_u16 request 7).0, err already_used))
unfolding new
invalid_reject_loses_example =
    invalid_reject_loses from_u16 request 5 7 404 "invalid status code" refl refl
