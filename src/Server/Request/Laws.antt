-- ===== src/Server/Request/Laws.antt =====
-- A request of src/server.rs is used once.
use web_transport_quinn_py.Prelude.{
  ℕ, ◌≡◌, refl, String, none, some, List, [], ◌∷◌, arith, length, All, ap, ◌∙◌, ◌<>◌,
}
use web_transport_quinn_py.Prelude.Result.{Result, ok, err}
use web_transport_quinn_py.Errors.Classes.{value_error}
use web_transport_quinn_py.Errors.Exceptions.{PyErr, PyResult, new_err}
use web_transport_quinn_py.Server.Request.{
  SessionRequest, drops, new, accept, reject, already_used, used,
}

-- What Python calls on a request.
pub data Ask : Type 0 where
  accepting : Ask
  rejecting : (status_code : ℕ) → Ask

-- The outcome of a call, without the request that a successful one gets.
pub data Outcome : Type 0 where
  went : Outcome
  raised : PyErr → Outcome

abbrev pub outcome {ℓ} : {A : Type ℓ} → PyResult A → Outcome
outcome (ok a) = went
outcome (err e) = raised e

-- Every call of a list was refused, since the request was gone.
abbrev pub Refused : List Outcome → Type 0
Refused os = All (λ o. o ≡ raised already_used) os

module _ {R : Type 0} (from_u16 : ℕ → Result ℕ String) where
  unfoldable pub ask : SessionRequest R → Ask → SessionRequest R × Outcome
  ask s accepting = let (s', r) = accept s in (s', outcome r)
  ask s (rejecting status_code) = let (s', r) = reject from_u16 s status_code in (s', outcome r)

  unfoldable pub asks : SessionRequest R → List Ask → SessionRequest R × List Outcome
  asks s [] = (s, [])
  asks s (a ∷ as') = let (s', o) = ask s a in let (t, os) = asks s' as' in (t, o ∷ os)

  ask_gone : (s : SessionRequest R) (a : Ask) → s.inner ≡ none → ask s a ≡ (s, raised already_used)
  unfolding ask accept reject
  ask_gone s accepting h = ground arith
  ask_gone s (rejecting c) h = ground arith

  asks_gone :
      (s : SessionRequest R) (as' : List Ask)
      → s.inner ≡ none
      → ((asks s as').0 ≡ s) × Refused (asks s as').1
  unfolding asks
  asks_gone s [] h = (refl, tt)
  asks_gone s (a ∷ as') h =
      rw (ask_gone s a h) ((asks_gone s as' h).0, (refl, (asks_gone s as' h).1))

  first_ask :
      (r : R) (url : String) (a : Ask)
      → ((ask (new r url) a).0.inner ≡ none)
        × (length (ask (new r url) a).0.uses ≡ 1)
        × ((ask (new r url) a).0.url ≡ url)
  unfolding ask accept reject new
  first_ask r url accepting = (refl, refl, refl)
  first_ask r url (rejecting c) = (ground arith, ground arith, ground arith)

  -- Whatever Python calls on a new request, in any order, the first call takes the request and
  -- every other one raises that it was already accepted or rejected; it is used once, and the
  -- object keeps its URL.
  pub request_once :
      (r : R) (url : String) (a : Ask) (as' : List Ask)
      → Refused (asks (ask (new r url) a).0 as').1
        × (length (asks (new r url) (a ∷ as')).0.uses ≡ 1)
        × ((asks (new r url) (a ∷ as')).0.url ≡ url)
  unfolding asks
  request_once r url a as' =
      let (gone, used_once, kept) = first_ask r url a in
      let (same, refused) = asks_gone (ask (new r url) a).0 as' gone in
      (refused, ap (λ s. length s.uses) same ∙ used_once, ap (λ s. s.url) same ∙ kept)

  reject_invalid :
      (s : SessionRequest R) (r : R) (c : ℕ) (e : String)
      → s.inner ≡ some r
      → from_u16 c ≡ err e
      → reject from_u16 s c
        ≡ (used s drops, err (new_err value_error ("invalid status code: " <> e)))
  unfolding reject
  reject_invalid s r c e h k = ground arith

  reject_gone :
      (s : SessionRequest R) (d : ℕ) → s.inner ≡ none → reject from_u16 s d ≡ (s, err already_used)
  unfolding reject
  reject_gone s d h = ground arith

  -- A rejection with a status code that is not valid raises `ValueError`, and loses the request:
  -- it is dropped unanswered, and can no longer be accepted, nor rejected with any other status.
  pub invalid_reject_loses :
      (s : SessionRequest R) (r : R) (c d : ℕ) (e : String)
      → s.inner ≡ some r
      → from_u16 c ≡ err e
      → (outcome (reject from_u16 s c).1
          ≡ raised (new_err value_error ("invalid status code: " <> e)))
        × ((reject from_u16 s c).0.uses ≡ drops ∷ s.uses)
        × (accept (reject from_u16 s c).0 ≡ ((reject from_u16 s c).0, err already_used))
        × (reject from_u16 (reject from_u16 s c).0 d ≡ ((reject from_u16 s c).0, err already_used))
  unfolding accept
  invalid_reject_loses s r c d e h k =
      rw (reject_invalid s r c e h k) (refl, refl, refl, reject_gone (used s drops) d refl)
