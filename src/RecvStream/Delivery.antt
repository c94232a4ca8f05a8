-- ===== src/RecvStream/Delivery.antt =====
-- Stops of the inner stream in src/recv_stream.rs: who makes the call after a `stop`, and when nobody does.
use web_transport_quinn_py.Prelude.{
  ℕ, ◌≡◌, ◌≢◌, ◌⊎◌, refl, inl, inr, Bool, true, false, Option, none, some, List, ◌∷◌, ◌==◌, arith,
  All, Bool-cases,
}
use web_transport_quinn_py.Prelude.Result.{ok, err}
use web_transport_quinn_py.Errors.Exceptions.{PyResult}
use web_transport_quinn_py.Errors.Foreign.{Wire}
use web_transport_quinn_py.RecvStream.{
  RecvStream, Op, Value, Quinn, Call, Task, Event, run, polling, suspended, waiting, cancelling,
  done, new, read_fn, ended, poll_at, cancel_at, give_back, heir, awaits, answer_at, do_stop, step,
  steps, poll, answer, stopped_locally,
}
use web_transport_quinn_py.RecvStream.Codes.{Inside, Fired, do_stop-Fired, steps-Fired}

-- The place of an operation between two polls.
abbrev pub between : Task → Bool
between (waiting op) = true
between (suspended op) = true
between cancelling = true
between _ = false

module _ (w : Wire) where
  -- What a poll does of an operation that has the mutex after a `stop` with code `c`: it calls
  -- `stop` and raises, or another future waits and gets the mutex, which this happens to once only.
  pub data Delivered (s : RecvStream) (i : ℕ) (next : Option ℕ) (c : ℕ) : Type 0 where
    called :
        (step w s (poll i next)).calls ≡ Call.stop c ∷ s.calls
        → (step w s (poll i next)).tasks i ≡ done (err stopped_locally)
        → Delivered s i next c
    passed_on :
        (j : ℕ)
        → next ≡ some j
        → awaits (s.tasks j) ≡ true
        → (step w s (poll i next)).lock ≡ some j
        → s.tasks i ≢ cancelling
        → (step w s (poll i next)).tasks i ≡ cancelling
        → Delivered s i next c

  -- Who gets the mutex from future `i`.
  heir_cases :
      (s : RecvStream) (i : ℕ) (next : Option ℕ)
      → (heir s i next ≡ none)
        ⊎ ((j : ℕ) × (next ≡ some j)
            × (awaits (s.tasks j) ≡ true)
            × ((j == i) ≡ false)
            × (heir s i next ≡ some j))
  unfolding heir
  heir_cases s i none = inl refl
  heir_cases s i (some j) = elim (Bool-cases (j == i)) [
    | inl same ↦ inl (rw same refl)
    | inr apart ↦ elim (Bool-cases (awaits (s.tasks j))) [
      | inl waits ↦ inr (j, refl, waits, apart, rw (apart, waits) refl)
      | inr busy ↦ inl (rw (apart, busy) refl)
    ]
  ]

  owner-Delivered :
      (s : RecvStream) (i : ℕ) (next : Option ℕ) (c : ℕ) (t : Task)
      → s.tasks i ≡ t
      → between t ≡ true
      → s.lock ≡ some i
      → Fired w c s
      → Delivered s i next c
  unfolding step poll_at cancel_at give_back
  owner-Delivered s i next c (waiting op) e _ l (off, code) = elim (heir_cases s i next) [
    | inl last ↦ called (ground (arith, last)) (ground (arith, last))
    | inr (j, q, waits, apart, heir_j) ↦
        passed_on j q waits (ground arith) (ground arith) (ground arith)
  ]
  owner-Delivered s i next c (suspended op) e _ l (off, code) = elim (heir_cases s i next) [
    | inl last ↦ called (ground (arith, last)) (ground (arith, last))
    | inr (j, q, waits, apart, heir_j) ↦
        passed_on j q waits (ground arith) (ground arith) (ground arith)
  ]
  owner-Delivered s i next c cancelling e _ l (off, code) = called (ground arith) (ground arith)
  owner-Delivered s i next c _ e h l f = cc

  do_stop-calls :
      (s : RecvStream) (c : ℕ)
      → s.cancelled ≡ false
      → (do_stop s c).0.calls ≡ (elim s.lock [ none ↦ Call.stop c ∷ s.calls | some _ ↦ s.calls ])
  unfolding do_stop
  do_stop-calls s c h = ground arith

  -- After any history of a new stream, a `stop` that succeeds calls `stop` on the inner stream with
  -- its code at once if the mutex is free. Else, whatever happens next, as long as
  -- the `async with` block is not left: an operation that has the mutex and is
  -- between two polls, or was handed the mutex while it waited, makes the call with that code in its
  -- next poll and raises `StreamClosedLocally`; or, once per operation, the mutex goes to another
  -- future in that poll, which waited for it.
  pub stop_sent :
      (before after : List Event) (c i : ℕ) (next : Option ℕ)
      → (steps w new before).cancelled ≡ false
      → All Inside after
      → between ((steps w (do_stop (steps w new before) c).0 after).tasks i) ≡ true
      → (steps w (do_stop (steps w new before) c).0 after).lock ≡ some i
      → ((do_stop (steps w new before) c).0.calls ≡ (elim (steps w new before).lock [
        | none ↦ Call.stop c ∷ (steps w new before).calls
        | some _ ↦ (steps w new before).calls
      ]))
        × Delivered (steps w (do_stop (steps w new before) c).0 after) i next c
  stop_sent before after c i next h plain b l = (
    do_stop-calls s c h,
    owner-Delivered (steps w (do_stop s c).0 after) i next c _ refl b l
        (steps-Fired w c after (do_stop s c).0 plain (do_stop-Fired w s c h)),
  )
    where
      s : RecvStream
      s = steps w new before

  -- A `stop` that falls into a poll in which the inner stream answers the read is lost: it returns
  -- to Python without an exception, the read returns what it would have returned, and with the lock
  -- given back the inner stream was not stopped.
  pub stop_lost :
      (s : RecvStream) (i c : ℕ) (n : Option ℕ) (op : Op) (q : Quinn) (e : Bool)
      (r : PyResult Value)
      → s.cancelled ≡ false
      → s.lock ≡ some i
      → s.tasks i ≡ polling op
      → read_fn w q s.eof op ≡ ended e r
      → ((do_stop s c).1 ≡ ok tt)
        × ((step w (do_stop s c).0 (answer i q n)).calls ≡ run op ∷ s.calls)
        × ((step w (do_stop s c).0 (answer i q n)).tasks i ≡ done r)
        × ((step w (do_stop s c).0 (answer i q n)).lock ≡ heir s i n)
  unfolding do_stop step answer_at give_back heir
  stop_lost s i c n op q e r h l t a = (ground arith, ground arith, ground arith, ground arith)
