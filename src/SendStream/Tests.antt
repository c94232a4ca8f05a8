-- ===== src/SendStream/Tests.antt =====
-- Runs of a stream, and the theorems at concrete inputs.
use web_transport_quinn_py.Prelude.{
  ℕ, ◌≡◌, refl, inl, true, false, none, some, List, [], ◌∷◌, ◌++◌, ℕ_discrete,
}
use web_transport_quinn_py.Prelude.Result.{ok, err}
use web_transport_quinn_py.Errors.Foreign.{Wire}
use web_transport_quinn_py.SendStream.{
  SendStream, Op, Quinn, Call, Event, run, finish, write, wait_closed, nothing, done, new, write_fn,
  poll_at, cancel_at, give_back, heir, exit_reset_at, exit_finish_at, answer_at, start_at, aexit_at,
  drop_at, do_reset, do_set_priority, get_priority, step, steps, start, poll, answer, aexit,
  reset_locally, already_closed,
}
use web_transport_quinn_py.SendStream.Lock.{one_writer}
use web_transport_quinn_py.SendStream.Priority.{inner_priority, write_at_priority}
use web_transport_quinn_py.SendStream.Refusal.{Refused, reset_refuses, reset_once}
use web_transport_quinn_py.SendStream.Delivery.{
  Delivered, reset_sent, reset_lost, aexit_overwrites_code, reset_after_finish,
}
use web_transport_quinn_py.SendStream.Codes.{Carry, first_code_wins}
use web_transport_quinn_py.SendStream.Blocking.{Outside, wait_closed_blocks}
use web_transport_quinn_py.SendStream.Completion.{Round, rounds, Ended, operation_completes}
use web_transport_quinn_py.SendStream.Answers.{wrote, write_waits}

abbrev plain_wire : Wire
plain_wire = record { error_from_http3 = λ c. some c; from_utf8_lossy = λ _. "" }

-- An inner stream that takes everything, and one that is not ready.
abbrev ready : Quinn
ready = record {
  write_all = λ _. some (ok tt);
  write = λ _. some (ok 1);
  finish = ok tt;
  stopped = some (ok none);
}

abbrev busy : Quinn
busy = record { write_all = λ _. none; write = λ _. none; finish = ok tt; stopped = none }

abbrev hello : Op
hello = write (104 ∷ 105 ∷ [])

abbrev fresh : SendStream
fresh = new none

-- A write is inside its poll; a write is pending; a write is pending and another one waits.
abbrev in_poll : List Event
in_poll = start 0 hello ∷ poll 0 none ∷ []

abbrev pending : List Event
pending = start 0 hello ∷ poll 0 none ∷ answer 0 busy none ∷ []

abbrev contended : List Event
contended =
    start 0 wait_closed ∷ poll 0 none ∷ answer 0 busy none ∷ start 1 hello ∷ poll 1 none ∷ []

at_start : List Event → SendStream
unfolding new steps step start_at poll_at cancel_at give_back heir exit_reset_at exit_finish_at
    answer_at aexit_at drop_at write_fn do_reset do_set_priority get_priority ℕ_discrete
at_start es = steps plain_wire fresh es

write_then_finish :
    (at_start (
      start 0 hello
      ∷ poll 0 none
      ∷ answer 0 ready none
      ∷ start 1 finish
      ∷ poll 1 none
      ∷ answer 1 ready none
      ∷ [])).calls
    ≡ run finish ∷ run hello ∷ []
unfolding at_start
write_then_finish = refl

reset_interrupts :
    let s = at_start (
      start 0 hello
      ∷ poll 0 none
      ∷ answer 0 busy none
      ∷ Event.reset 7
      ∷ poll 0 none
      ∷ poll 0 none
      ∷ []) in
    (s.calls ≡ Call.reset 7 ∷ run hello ∷ []) × (s.tasks 0 ≡ done (err reset_locally))
unfolding at_start
reset_interrupts = (refl, refl)

one_writer_example : ((◌≡◌ {A = ℕ} 0 0) × ((at_start pending).lock ≡ some 0))
unfolding at_start
one_writer_example = one_writer plain_wire pending none 0 0 refl refl

write_at_priority_example :
    inner_priority 0 (at_start (Event.set_priority 3 ∷ start 0 hello ∷ poll 0 none ∷ [])).calls ≡ 3
unfolding at_start
write_at_priority_example =
    write_at_priority plain_wire (Event.set_priority 3 ∷ start 0 hello ∷ []) none 0 none hello refl
      refl

reset_refuses_example :
    Refused (
      (at_start (
          start 0 hello
          ∷ poll 0 none
          ∷ answer 0 busy none
          ∷ Event.reset 7
          ∷ poll 0 none
          ∷ poll 0 none
          ∷ [])).tasks
        0)
    × ((at_start (
          start 0 hello
          ∷ poll 0 none
          ∷ answer 0 busy none
          ∷ Event.reset 7
          ∷ poll 0 none
          ∷ poll 0 none
          ∷ [])).cancelled
        ≡ true)
unfolding at_start
reset_refuses_example =
    reset_refuses plain_wire
      (at_start (start 0 hello ∷ poll 0 none ∷ answer 0 busy none ∷ Event.reset 7 ∷ [])) 0
      (poll 0 none ∷ poll 0 none ∷ []) refl tt

reset_once_example :
    ((do_reset (at_start pending) 7).1 ≡ ok tt)
    × (do_reset (steps plain_wire (do_reset (at_start pending) 7).0 (poll 0 none ∷ [])) 8 ≡ (
      steps plain_wire (do_reset (at_start pending) 7).0 (poll 0 none ∷ []),
      err already_closed,
    ))
unfolding at_start
reset_once_example = reset_once plain_wire (at_start pending) 7 8 (poll 0 none ∷ [])

reset_sent_example :
    ((do_reset (at_start pending) 7).0.calls ≡ run hello ∷ [])
    × Delivered plain_wire
        (steps plain_wire (do_reset (at_start pending) 7).0 (start 1 hello ∷ []))
        0
        (some 1)
        7
unfolding at_start
reset_sent_example =
    reset_sent plain_wire pending (start 1 hello ∷ []) none 7 0 (some 1) refl (tt, tt) refl refl

reset_lost_example :
    ((do_reset (at_start in_poll) 7).1 ≡ ok tt)
    × ((step plain_wire (do_reset (at_start in_poll) 7).0 (answer 0 ready none)).calls
        ≡ run hello ∷ [])
    × ((step plain_wire (do_reset (at_start in_poll) 7).0 (answer 0 ready none)).tasks 0
        ≡ done (ok nothing))
    × ((step plain_wire (do_reset (at_start in_poll) 7).0 (answer 0 ready none)).lock ≡ none)
unfolding at_start
reset_lost_example =
    reset_lost plain_wire (at_start in_poll) 0 7 none hello ready (ok nothing) refl refl refl refl

aexit_overwrites_code_example :
    ((do_reset (at_start pending) 7).1 ≡ ok tt)
    × ((steps plain_wire
          (do_reset (at_start pending) 7).0
          (aexit 1 true none ∷ poll 0 (some 1) ∷ poll 1 none ∷ [])).calls
        ≡ Call.reset 0 ∷ run hello ∷ [])
    × ((steps plain_wire
          (do_reset (at_start pending) 7).0
          (aexit 1 true none ∷ poll 0 (some 1) ∷ [])).reset_code
        ≡ 0)
unfolding at_start
aexit_overwrites_code_example =
    aexit_overwrites_code plain_wire (at_start pending) 0 1 7 none none hello refl refl refl refl

reset_after_finish_example :
    ((do_reset
        (steps plain_wire fresh (start 0 finish ∷ poll 0 none ∷ answer 0 ready none ∷ []))
        7).1
      ≡ ok tt)
    × ((do_reset
          (steps plain_wire fresh (start 0 finish ∷ poll 0 none ∷ answer 0 ready none ∷ []))
          7).0.calls
        ≡ Call.reset 7
          ∷ (steps plain_wire fresh
              (start 0 finish ∷ poll 0 none ∷ answer 0 ready none ∷ [])).calls)
unfolding at_start
reset_after_finish_example = reset_after_finish plain_wire fresh 0 7 ready refl refl refl

first_code_wins_example :
    Carry 7 false (at_start pending).calls
    × Carry 7 true
        (steps plain_wire
          (do_reset (at_start pending) 7).0
          (Event.reset 8 ∷ poll 0 none ∷ poll 0 none ∷ [])).calls
unfolding at_start
first_code_wins_example =
    first_code_wins plain_wire pending (Event.reset 8 ∷ poll 0 none ∷ poll 0 none ∷ []) none 7
      (tt, (tt, (tt, tt))) (tt, (tt, (tt, tt))) refl

wait_closed_blocks_example : Outside hello (
    (steps plain_wire
        (at_start contended)
        (poll 1 none ∷ poll 0 none ∷ answer 0 busy none ∷ poll 1 none ∷ [])).tasks
      1)
unfolding at_start
wait_closed_blocks_example =
    wait_closed_blocks plain_wire 0 1 hello contended
      (poll 1 none ∷ poll 0 none ∷ answer 0 busy none ∷ poll 1 none ∷ []) none
      (record { live = refl; owner = refl; waiter = refl; outside = inl refl })
      (tt, (tt, (refl, (tt, tt))))

-- Two rounds of waiting, while another write is started and polled.
abbrev busy_rounds : List Round
busy_rounds =
    record {
      pending_answer = busy;
      let_go = none;
      outside = start 1 hello ∷ poll 1 none ∷ [];
      inside = Event.set_priority 5 ∷ [];
    }
    ∷ record { pending_answer = busy; let_go = none; outside = []; inside = [] }
    ∷ []

operation_completes_example :
    Ended plain_wire
      (steps plain_wire
        (steps plain_wire (new none) [])
        (start 0 hello ∷ poll 0 none ∷ ([] ++ rounds 0 busy_rounds (answer 0 ready none ∷ []))))
      0
      (ok nothing)
unfolding at_start
operation_completes_example =
    operation_completes plain_wire [] none 0 none hello [] busy_rounds ready none (ok nothing) refl
      refl refl tt
      ((write_waits _ refl, (λ e. cc, (λ e. cc, tt)), (tt, tt)), ((write_waits _ refl, tt, tt), tt))
      (wrote _ refl)

abbrev exit_waits : List Event
exit_waits = start 0 hello ∷ poll 0 none ∷ aexit 1 false none ∷ answer 0 ready (some 1) ∷ []
