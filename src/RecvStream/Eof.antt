-- ===== src/RecvStream/Eof.antt =====
-- The end of the stream in src/recv_stream.rs: what is read there, and what is asked of the peer.
use web_transport_quinn_py.Prelude.{
  ℕ, zero, suc, ◌+◌, ◌≡◌, refl, true, false, Option, none, some, List, [], ◌∷◌, arith,
}
use web_transport_quinn_py.Prelude.Result.{Result, ok, err}
use web_transport_quinn_py.Errors.Exceptions.{PyResult, new_stream_incomplete_read_error}
use web_transport_quinn_py.Errors.Foreign.{Wire, ReadExactError}
use web_transport_quinn_py.RecvStream.{
  RecvStream, Op, Value, Quinn, Call, Task, Event, run, idle, polling, anext, read, readexactly,
  wait_closed, done, chunk, read_fn, exact_read, Polled, returns, pending, ended, poll_at,
  cancel_at, give_back, heir, exit_at, answer_at, start_at, aexit_at, drop_at, do_stop, step, steps,
  steps-keep, start, poll, answer, drop_future, aexit, end_of_iteration,
}

-- What an operation that asks for bytes returns at the end of the stream; `none` for the others.
abbrev pub at_end : Op → Option (PyResult Value)
at_end anext = some (err end_of_iteration)
at_end (read n limit) = some (ok (chunk []))
at_end (readexactly zero) = none
at_end (readexactly (suc n)) = some (err (new_stream_incomplete_read_error (suc n) []))
at_end wait_closed = none

-- The calls that ask the inner stream for bytes.
abbrev asks : Op → ℕ
asks op = elim (at_end op) [ none ↦ 0 | some _ ↦ 1 ]

abbrev pub requests : List Call → ℕ
requests [] = 0
requests (Call.stop c ∷ cs) = requests cs
requests (run op ∷ cs) = asks op + requests cs

module _ (w : Wire) where
  read_fn-at_end :
      (q : Quinn) (op : Op) (r : PyResult Value)
      → at_end op ≡ some r
      → read_fn w q true op ≡ returns r
  unfolding read_fn
  read_fn-at_end q anext r h = ground arith
  read_fn-at_end q (read n limit) r h = ground arith
  read_fn-at_end q (readexactly zero) r h = cc
  read_fn-at_end q (readexactly (suc n)) r h = ground arith
  read_fn-at_end q wait_closed r h = cc

  -- What is left for the inner stream at the end keeps the end.
  abbrev Kept : Op → Polled → Type 0
  Kept op (returns r) = Unit
  Kept op pending = asks op ≡ 0
  Kept op (ended e r) = (e ≡ true) × (asks op ≡ 0)

  exact_read-Kept :
      (a : Option (List ℕ × Result (Unit {0}) ReadExactError))
      → Kept (readexactly zero) (exact_read w 0 true a)
  unfolding exact_read
  exact_read-Kept none = refl
  exact_read-Kept (some (buf, ok _)) = (refl, refl)
  exact_read-Kept (some (buf, err e)) = (ground arith, refl)

  read_fn-Kept : (q : Quinn) (op : Op) → Kept op (read_fn w q true op)
  unfolding read_fn
  read_fn-Kept q anext = tt
  read_fn-Kept q (read n limit) = tt
  read_fn-Kept q (readexactly zero) = exact_read-Kept (q.read_exact 0)
  read_fn-Kept q (readexactly (suc n)) = ground arith
  read_fn-Kept q wait_closed = ground arith

  abbrev AtEnd : ℕ → RecvStream → Type 0
  AtEnd n s = (s.eof ≡ true) × (requests s.calls ≡ n)

  answer_at-AtEnd :
      (n : ℕ) (s : RecvStream) (i : ℕ) (q : Quinn) (m : Option ℕ) (t : Task)
      → AtEnd n s
      → AtEnd n (answer_at w s i q m t)
  unfolding answer_at give_back heir
  answer_at-AtEnd n s i q m (polling op) (e, r) = rw e (ground (arith, read_fn-Kept q op, e))
  answer_at-AtEnd n s i q m _ h = h

  step-AtEnd : (n : ℕ) (s : RecvStream) (e : Event) → AtEnd n s → AtEnd n (step w s e)
  unfolding step start_at poll_at drop_at aexit_at do_stop cancel_at give_back heir exit_at
  step-AtEnd n s (start i op) h = ground arith
  step-AtEnd n s (poll i m) h = ground arith
  step-AtEnd n s (answer i q m) h = answer_at-AtEnd n s i q m _ h
  step-AtEnd n s (drop_future i m) h = ground arith
  step-AtEnd n s (aexit i b m) h = ground arith
  step-AtEnd n s (Event.stop c) h = ground arith

  -- Once the end of the stream was seen it stays seen, and the inner stream is never again asked
  -- for bytes, whatever happens; `readexactly(0)`, which asks for none, is not counted.
  pub end_stays :
      (s : RecvStream) (es : List Event)
      → s.eof ≡ true
      → ((steps w s es).eof ≡ true) × (requests (steps w s es).calls ≡ requests s.calls)
  end_stays s es h =
      steps-keep w (AtEnd (requests s.calls)) (step-AtEnd (requests s.calls)) es s (h, refl)

  -- A read at the end of a stream that is free and was not stopped returns as soon as it is polled,
  -- whatever the inner stream would answer, and leaves the calls alone: `read` returns no bytes, an
  -- iteration ends, and `readexactly` of one byte or more raises with an empty `partial`. The mutex
  -- goes to the next future, if one waits.
  pub read_at_end :
      (s : RecvStream) (i : ℕ) (n : Option ℕ) (op : Op) (q : Quinn) (r : PyResult Value)
      → s.eof ≡ true
      → s.cancelled ≡ false
      → s.lock ≡ none
      → s.tasks i ≡ idle
      → at_end op ≡ some r
      → ((steps w s (start i op ∷ poll i n ∷ answer i q n ∷ [])).tasks i ≡ done r)
        × ((steps w s (start i op ∷ poll i n ∷ answer i q n ∷ [])).calls ≡ s.calls)
        × ((steps w s (start i op ∷ poll i n ∷ answer i q n ∷ [])).lock ≡ heir s i n)
  unfolding steps step start_at poll_at answer_at cancel_at give_back heir exit_at
  read_at_end s i n op q r e c l t a =
      let f : read_fn w q s.eof op ≡ returns r = rw e (read_fn-at_end q op r a) in
      (ground (arith, f), ground (arith, f), ground (arith, f))
