-- ===== src/SendStream/Delivery.antt =====
-- Resets of the inner stream in src/send_stream.rs: who makes the call after a `reset`, and when nobody does.
use web_transport_quinn_py.Prelude.{
  ℕ, ◌≡◌, ◌≢◌, ◌⊎◌, refl, inl, inr, Bool, true, false, Option, none, some, List, [], ◌∷◌, ◌==◌,
  arith, All, Bool-cases,
}
use web_transport_quinn_py.Prelude.Result.{ok, err}
use web_transport_quinn_py.Errors.Exceptions.{PyResult}
use web_transport_quinn_py.Errors.Foreign.{Wire}
use web_transport_quinn_py.SendStream.{
  SendStream, Op, Value, Quinn, Call, Task, Event, run, finish, idle, polling, suspended, waiting,
  cancelling, done, new, write_fn, poll_at, cancel_at, give_back, heir, awaits, answer_at, start_at,
  aexit_at, do_reset, step, steps, start, poll, answer, aexit, reset_locally, exit_reset_at,
}
use web_transport_quinn_py.SendStream.Codes.{Plain, Fired, do_reset-Fired, steps-Fired}

-- The place of an operation between two polls.
abbrev pub between : Task → Bool
between (waiting op) = true
between (suspended op) = true
between cancelling = true
between _ = false

module _ (w : Wire) where
  -- What a poll does of an operation that has the mutex after a `reset` with code `c`: it calls
  -- `reset` and raises, or another future waits and gets the mutex, which this happens to once only.
  pub data Delivered (s : SendStream) (i : ℕ) (next : Option ℕ) (c : ℕ) : Type 0 where
    called :
        (step w s (poll i next)).calls ≡ Call.reset c ∷ s.calls
        → (step w s (poll i next)).tasks i ≡ done (err reset_locally)
        → Delivered s i next c
    passed_on :
        (j : ℕ)
        → next ≡ some j
        → awaits (s.tasks j) ≡ true
        → (step w s (poll i next)).lock ≡ some j
        → s.tasks i ≢ cancelling
        → (step w s (poll i next)).tasks i ≡ cancelling
        → Delivered s i next c

  -- Who gets the mutex from future `i`.
  heir_cases :
      (s : SendStream) (i : ℕ) (next : Option ℕ)
      → (heir s i next ≡ none)
        ⊎ ((j : ℕ) × (next ≡ some j)
            × (awaits (s.tasks j) ≡ true)
            × ((j == i) ≡ false)
            × (heir s i next ≡ some j))
  unfolding heir
  heir_cases s i none = inl refl
  heir_cases s i (some j) = elim (Bool-cases (j == i)) [
    | inl same ↦ inl (rw same refl)
    | inr apart ↦ elim (Bool-cases (awaits (s.tasks j))) [
      | inl waits ↦ inr (j, refl, waits, apart, rw (apart, waits) refl)
      | inr busy ↦ inl (rw (apart, busy) refl)
    ]
  ]

  owner-Delivered :
      (s : SendStream) (i : ℕ) (next : Option ℕ) (c : ℕ) (t : Task)
      → s.tasks i ≡ t
      → between t ≡ true
      → s.lock ≡ some i
      → Fired w c s
      → Delivered s i next c
  unfolding step poll_at cancel_at give_back
  owner-Delivered s i next c (waiting op) e _ l (off, code) = elim (heir_cases s i next) [
    | inl last ↦ called (ground (arith, last)) (ground (arith, last))
    | inr (j, q, waits, apart, heir_j) ↦
        passed_on j q waits (ground arith) (ground arith) (ground arith)
  ]
  owner-Delivered s i next c (suspended op) e _ l (off, code) = elim (heir_cases s i next) [
    | inl last ↦ called (ground (arith, last)) (ground (arith, last))
    | inr (j, q, waits, apart, heir_j) ↦
        passed_on j q waits (ground arith) (ground arith) (ground arith)
  ]
  owner-Delivered s i next c cancelling e _ l (off, code) = called (ground arith) (ground arith)
  owner-Delivered s i next c _ e h l f = cc

  do_reset-calls :
      (s : SendStream) (c : ℕ)
      → s.cancelled ≡ false
      → (do_reset s c).0.calls ≡ (elim s.lock [ none ↦ Call.reset c ∷ s.calls | some _ ↦ s.calls ])
  unfolding do_reset
  do_reset-calls s c h = ground arith

  -- After any history of a new stream, a `reset` that succeeds calls `reset` on the inner stream with
  -- its code at once if the mutex is free. Else, whatever happens next, as long as
  -- no `async with` block is left through an exception: an operation that has the mutex and is
  -- between two polls, or was handed the mutex while it waited, makes the call with that code in its
  -- next poll and raises `StreamClosedLocally`; or, once per operation, the mutex goes to another
  -- future in that poll, which waited for it.
  pub reset_sent :
      (before after : List Event) (p : Option ℕ) (c i : ℕ) (next : Option ℕ)
      → (steps w (new p) before).cancelled ≡ false
      → All Plain after
      → between ((steps w (do_reset (steps w (new p) before) c).0 after).tasks i) ≡ true
      → (steps w (do_reset (steps w (new p) before) c).0 after).lock ≡ some i
      → ((do_reset (steps w (new p) before) c).0.calls ≡ (elim (steps w (new p) before).lock [
        | none ↦ Call.reset c ∷ (steps w (new p) before).calls
        | some _ ↦ (steps w (new p) before).calls
      ]))
        × Delivered (steps w (do_reset (steps w (new p) before) c).0 after) i next c
  reset_sent before after p c i next h plain b l = (
    do_reset-calls s c h,
    owner-Delivered (steps w (do_reset s c).0 after) i next c _ refl b l
        (steps-Fired w c after (do_reset s c).0 plain (do_reset-Fired w s c h)),
  )
    where
      s : SendStream
      s = steps w (new p) before

  -- A `reset` that falls into a poll in which the write ends is lost: it returns to Python without
  -- an exception, the write returns what it returned, and with the lock given back
  -- nothing was sent but what the write sent.
  pub reset_lost :
      (s : SendStream) (i c : ℕ) (n : Option ℕ) (op : Op) (q : Quinn) (r : PyResult Value)
      → s.cancelled ≡ false
      → s.lock ≡ some i
      → s.tasks i ≡ polling op
      → write_fn w q op ≡ some r
      → ((do_reset s c).1 ≡ ok tt)
        × ((step w (do_reset s c).0 (answer i q n)).calls ≡ run op ∷ s.calls)
        × ((step w (do_reset s c).0 (answer i q n)).tasks i ≡ done r)
        × ((step w (do_reset s c).0 (answer i q n)).lock ≡ heir s i n)
  unfolding do_reset step answer_at give_back heir
  reset_lost s i c n op q r h l e a = (ground arith, ground arith, ground arith, ground arith)

  -- While a write is pending, a `reset` followed by leaving the `async with` block through an
  -- exception resets the inner stream with code 0 instead of the code of the `reset`, although that
  -- returned: the mutex goes from the write, when it is polled, to the exit, which waits for it.
  pub aexit_overwrites_code :
      (s : SendStream) (i j c : ℕ) (m n : Option ℕ) (op : Op)
      → s.cancelled ≡ false
      → s.lock ≡ some i
      → s.tasks i ≡ suspended op
      → s.tasks j ≡ idle
      → ((do_reset s c).1 ≡ ok tt)
        × ((steps w (do_reset s c).0 (aexit j true m ∷ poll i (some j) ∷ poll j n ∷ [])).calls
            ≡ Call.reset 0 ∷ s.calls)
        × ((steps w (do_reset s c).0 (aexit j true m ∷ poll i (some j) ∷ [])).reset_code ≡ 0)
  unfolding do_reset steps step aexit_at poll_at cancel_at give_back heir exit_reset_at
  aexit_overwrites_code s i j c m n op h l e f = (ground arith, ground arith, ground arith)

  -- A stream that was finished can still be reset: after a `finish`, whatever the inner stream
  -- answered to it, `reset` returns without an exception and calls `reset` on the inner stream,
  -- whose answer it does not look at.
  pub reset_after_finish :
      (s : SendStream) (i c : ℕ) (q : Quinn)
      → s.cancelled ≡ false
      → s.lock ≡ none
      → s.tasks i ≡ idle
      → ((do_reset (steps w s (start i finish ∷ poll i none ∷ answer i q none ∷ [])) c).1 ≡ ok tt)
        × ((do_reset (steps w s (start i finish ∷ poll i none ∷ answer i q none ∷ [])) c).0.calls
            ≡ Call.reset c
              ∷ (steps w s (start i finish ∷ poll i none ∷ answer i q none ∷ [])).calls)
  unfolding do_reset steps step start_at poll_at answer_at write_fn give_back heir
  reset_after_finish s i c q h l e = (ground arith, ground arith)
