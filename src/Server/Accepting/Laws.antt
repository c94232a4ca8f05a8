-- ===== src/Server/Accepting/Laws.antt =====
-- Who gets the requests that the inner server of src/server.rs answers with.
use web_transport_quinn_py.Prelude.{
  ℕ, ◌≡◌, refl, Bool, true, false, not, Option, none, some, List, [], ◌∷◌, ◌==◌, ℕ_discrete,
  if◌then◌else◌, arith,
}
use web_transport_quinn_py.Errors.Classes.{stop_async_iteration}
use web_transport_quinn_py.Errors.Exceptions.{PyResult}
use web_transport_quinn_py.Prelude.Result.{ok, err}
use web_transport_quinn_py.Server.Accepting.{
  anexts, accepts, idle, dropped, Accepting, Method, Task, Event, outcome, waiting, accepting, done,
  new, poll_at, grant_at, answer_at, start_at, drop_at, step, steps, steps-keep, start, poll, grant,
  answer, drop_future,
}

-- The answers that future `i` got.
abbrev pub received {ℓ} : {R : Type ℓ} → ℕ → List (ℕ × Option R) → List (Option R)
received i [] = []
received i ((j, a) ∷ rest) = let more = received i rest in if j == i then a ∷ more else more

-- A future that has ended returned what its method makes of the one answer that it got; any other
-- got none.
abbrev pub Answered : {R : Type 0} → Task R → List (Option R) → Type 0
Answered {R = R} (done r) got = (m : Method) × (a : Option R) × (got ≡ a ∷ []) × (r ≡ outcome m a)
Answered t got = got ≡ []

abbrev owns : Option ℕ → ℕ → Bool
owns none j = false
owns (some i) j = i == j

module _ {R : Type 0} where
  abbrev AllAnswered : Accepting R → Type 0
  AllAnswered s = (j : ℕ) → Answered (s.tasks j) (received j s.answers)

  told_now :
      (t : Task R) (got : List (Option R)) (m : Method) (a : Option R)
      → t ≡ done (outcome m a)
      → got ≡ a ∷ []
      → Answered t got
  told_now t got m a ended once = rw (ended, once) (m, a, refl, refl)

  answer_at-AllAnswered :
      (s : Accepting R) (i : ℕ) (a : Option R) (t : Task R)
      → s.tasks i ≡ t
      → AllAnswered s
      → AllAnswered (answer_at s i a t)
  unfolding answer_at
  answer_at-AllAnswered s i a (accepting m) e h j = elim (ℕ_discrete i j) [
    | yes same ↦ told_now _ _ m a (ground arith) (ground (arith, h j))
    | no apart ↦ ground (arith, h j)
  ]
  answer_at-AllAnswered s i a _ e h j = h j

  step-AllAnswered : (s : Accepting R) (e : Event R) → AllAnswered s → AllAnswered (step s e)
  unfolding step poll_at grant_at answer_at start_at drop_at
  step-AllAnswered s (start i m) h j = ground (arith, h j)
  step-AllAnswered s (poll i) h j = ground (arith, h j)
  step-AllAnswered s (grant i) h j = ground (arith, h j)
  step-AllAnswered s (answer i a) h j = answer_at-AllAnswered s i a _ refl h j
  step-AllAnswered s (drop_future i) h j = ground (arith, h j)

  steps-Answered :
      (es : List (Event R)) (i : ℕ)
      → Answered ((steps new es).tasks i) (received i (steps new es).answers)
  unfolding new
  steps-Answered es = steps-keep AllAnswered step-AllAnswered es new (λ j. refl)

  -- What the interface documents: at the end of the server, `__anext__` ends the iteration and
  -- `accept` returns `None`; otherwise both return the request.
  abbrev pub told : Method → Option R → PyResult (Option R)
  told m (some request) = ok (some request)
  told anexts none = err (record { cls = stop_async_iteration; args = []; attrs = [] })
  told accepts none = ok none

  outcome-told : (m : Method) (a : Option R) → outcome m a ≡ told m a
  unfolding outcome
  outcome-told anexts (some r) = refl
  outcome-told anexts none = refl
  outcome-told accepts (some r) = refl
  outcome-told accepts none = refl

  -- A future of method `m`: when it has ended, it returned what `told` says of the one answer that it
  -- got; until then, and if it is dropped, it got none.
  abbrev pub Mine : Method → Task R → List (Option R) → Type 0
  Mine m idle got = ⊥
  Mine m (waiting k) got = (k ≡ m) × (got ≡ [])
  Mine m (accepting k) got = (k ≡ m) × (got ≡ [])
  Mine m (done r) got = (a : Option R) × (got ≡ a ∷ []) × (r ≡ told m a)
  Mine m dropped got = got ≡ []

  abbrev Own : Method → ℕ → Accepting R → Type 0
  Own m i s = Mine m (s.tasks i) (received i s.answers)

  outcome-Mine :
      (m : Method) (t : Task R) (got : List (Option R)) (a : Option R)
      → t ≡ done (outcome m a)
      → got ≡ a ∷ []
      → Mine m t got
  outcome-Mine m t got a ended once = rw (ended, once) (a, refl, outcome-told m a)

  answer_at-Own :
      (m : Method) (i : ℕ) (s : Accepting R) (j : ℕ) (a : Option R) (t : Task R)
      → s.tasks j ≡ t
      → Own m i s
      → Own m i (answer_at s j a t)
  unfolding answer_at
  answer_at-Own m i s j a (accepting k) e h = elim (ℕ_discrete j i) [
    | yes same ↦ outcome-Mine m _ _ a (ground arith) (ground arith)
    | no apart ↦ ground arith
  ]
  answer_at-Own m i s j a _ e h = h

  step-Own : (m : Method) (i : ℕ) (s : Accepting R) (e : Event R) → Own m i s → Own m i (step s e)
  unfolding step poll_at grant_at start_at drop_at
  step-Own m i s (start j k) h = ground arith
  step-Own m i s (poll j) h = ground arith
  step-Own m i s (grant j) h = ground arith
  step-Own m i s (answer j a) h = answer_at-Own m i s j a _ refl h
  step-Own m i s (drop_future j) h = ground arith

  start-Own :
      (m : Method) (i : ℕ) (s : Accepting R)
      → Answered (s.tasks i) (received i s.answers)
      → s.tasks i ≡ idle
      → Own m i (step s (start i m))
  unfolding step start_at
  start-Own m i s h e = ground arith

  -- Whatever happens to a server's futures, no request is given twice, and each is returned by the
  -- method that asked for it: a future that `__anext__` or `accept` starts after any history gets at
  -- most one answer of the inner server, and exactly one if it ends; what it returns is what that
  -- method is documented to return for this answer.
  pub each_told_once :
      (before after : List (Event R)) (i : ℕ) (m : Method)
      → (steps new before).tasks i ≡ idle
      → Mine m
          ((steps (step (steps new before) (start i m)) after).tasks i)
          (received i (steps (step (steps new before) (start i m)) after).answers)
  each_told_once before after i m e =
      steps-keep (Own m i) (step-Own m i) after _
        (start-Own m i (steps new before) (steps-Answered before i) e)

  abbrev pub asks : Task R → Bool
  asks (accepting m) = true
  asks _ = false

  abbrev agrees : Bool → Task R → Bool
  agrees true (waiting m) = true
  agrees true t = asks t
  agrees false t = not (asks t)

  abbrev OneOwner : Accepting R → Type 0
  OneOwner s = (j : ℕ) → agrees (owns s.lock j) (s.tasks j) ≡ true

  step-OneOwner : (s : Accepting R) (e : Event R) → OneOwner s → OneOwner (step s e)
  unfolding step poll_at grant_at answer_at start_at drop_at
  step-OneOwner s (start i m) h j = ground (arith, h i, h j)
  step-OneOwner s (poll i) h j = ground (arith, h i, h j)
  step-OneOwner s (grant i) h j = ground (arith, h i, h j)
  step-OneOwner s (answer i a) h j = ground (arith, h i, h j)
  step-OneOwner s (drop_future i) h j = ground (arith, h i, h j)

  -- Whatever happens to a new server's futures, the inner server is never asked by two of them at
  -- once.
  pub one_accept :
      (es : List (Event R)) (i j : ℕ)
      → asks ((steps new es).tasks i) ≡ true
      → asks ((steps new es).tasks j) ≡ true
      → i ≡ j
  unfolding new
  one_accept es i j hi hj = ground (arith, one i, one j)
    where
      one : OneOwner (steps new es)
      one = steps-keep OneOwner step-OneOwner es new (λ j. refl)
