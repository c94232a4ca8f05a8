-- ===== src/Errors/Exceptions.antt =====
-- src/errors.rs: exception values, and the constructors that attach attributes to them.
use text.Mathlib.Text.{◌==◌ as str_eq}
use web_transport_quinn_py.Prelude.{
  ℕ, String, ◌<>◌, Option, none, some, List, [], ◌∷◌, if◌then◌else◌, length, decimal,
}
use web_transport_quinn_py.Prelude.Result.{Result}
use web_transport_quinn_py.Errors.Classes.{
  ExcClass, session_closed_by_peer, stream_closed_by_peer, stream_incomplete_read_error,
  session_rejected, datagram_not_supported_error,
}

-- A value that `setattr` stores on an exception.
pub data Attr : Type 0 where
  str : String → Attr
  int : ℕ → Attr
  opt_int : Option ℕ → Attr
  bytes : List ℕ → Attr

-- A `PyErr`: its class, the arguments that it was made with, and the attributes set afterwards.
pub record PyErr : Type 0 where
  pub cls : ExcClass
  pub args : List String
  pub attrs : List (String × Attr)

-- The outcome of a method.
abbrev pub PyResult {ℓ} : Type ℓ → Type ℓ
PyResult A = Result A PyErr

-- `C::new_err(msg)`
abbrev pub new_err : ExcClass → String → PyErr
new_err c msg = record { cls = c; args = msg ∷ []; attrs = [] }

abbrev pub set_attrs : PyErr → List (String × Attr) → PyErr
set_attrs e attrs = record e { attrs = attrs }

-- `code.map(|c| format!(" (code {c})")).unwrap_or_default()`
unfoldable pub code_str : Option ℕ → String
code_str none = ""
code_str (some c) = " (code " <> (decimal c <> ")")

unfoldable pub new_session_closed_by_peer : String → Option ℕ → String → PyErr
new_session_closed_by_peer source code reason =
    let tail = code_str code <> (": " <> reason) in
    let msg : String =
      if str_eq source "session"
      then "peer closed session" <> tail
      else if str_eq source "application"
      then "peer application closed session" <> tail
      else if str_eq source "transport"
      then "transport closed" <> tail
      else if str_eq source "connection-reset"
      then "peer sent stateless reset"
      else "session closed by peer" <> tail in
    set_attrs (new_err session_closed_by_peer msg)
      (("source", str source) ∷ ("code", opt_int code) ∷ ("reason", str reason) ∷ [])

unfoldable pub new_stream_closed_by_peer : String → ℕ → PyErr
new_stream_closed_by_peer kind code =
    set_attrs
      (new_err stream_closed_by_peer
        ("stream " <> (kind <> (" by peer with code " <> decimal code))))
      (("kind", str kind) ∷ ("code", int code) ∷ [])

unfoldable pub new_stream_incomplete_read_error : ℕ → List ℕ → PyErr
new_stream_incomplete_read_error expected partial =
    set_attrs
      (new_err stream_incomplete_read_error (
        "expected "
        <> (decimal expected <> (" bytes, got " <> (decimal (length partial) <> " before EOF")))))
      (("expected", int expected) ∷ ("partial", bytes partial) ∷ [])

unfoldable pub new_session_rejected : ℕ → String → PyErr
new_session_rejected status_code msg =
    set_attrs (new_err session_rejected msg) (("status_code", int status_code) ∷ [])

unfoldable pub new_datagram_not_supported_error : String → PyErr
new_datagram_not_supported_error reason =
    set_attrs (new_err datagram_not_supported_error ("datagrams not available: " <> reason))
      (("reason", str reason) ∷ [])
