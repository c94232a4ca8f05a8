-- ===== src/RecvStream/Tests.antt =====
-- Runs of a stream, and the theorems at concrete inputs.
use web_transport_quinn_py.Prelude.{
  ℕ, ◌≡◌, refl, true, false, none, some, List, [], ◌∷◌, ◌++◌, arith, ℕ_discrete, ◌==◌,
  if◌then◌else◌,
}
use web_transport_quinn_py.Prelude.Int.{negsuc}
use web_transport_quinn_py.Prelude.Result.{ok, err}
use web_transport_quinn_py.Errors.Exceptions.{new_stream_incomplete_read_error}
use web_transport_quinn_py.Errors.Foreign.{Wire, ReadExactError}
use web_transport_quinn_py.RecvStream.{
  RecvStream, Op, Quinn, Call, Event, run, read, readexactly, anext, wait_closed, chunk, done, new,
  read_fn, poll_at, cancel_at, give_back, heir, exit_at, exiting, answer_at, start_at, aexit_at,
  drop_at, do_stop, step, steps, start, poll, answer, aexit, stopped_locally, already_closed,
  end_of_iteration, ended,
}
use web_transport_quinn_py.RecvStream.Lock.{one_reader}
use web_transport_quinn_py.RecvStream.Refusal.{Refused, stop_refuses, stop_once}
use web_transport_quinn_py.RecvStream.Delivery.{Delivered, stop_sent, stop_lost}
use web_transport_quinn_py.RecvStream.Eof.{requests, end_stays, read_at_end}
use web_transport_quinn_py.RecvStream.Codes.{Carry, first_stop_wins}
use web_transport_quinn_py.RecvStream.Answers.{Returns, read_all_waits}
use web_transport_quinn_py.RecvStream.Completion.{Round, Ended, rounds, read_completes}
use web_transport_quinn_py.RecvStream.Exit.{clean_exit}
use web_transport_quinn_py.RecvStream.Bounds.{IsBounded, Fits, read_fn-Fits, readexactly_short}

abbrev plain_wire : Wire
plain_wire = record { error_from_http3 = λ c. some c; from_utf8_lossy = λ _. "" }

-- Inner streams: one at its end, one that is not ready, one that has no more than one byte.
abbrev at_its_end : Quinn
at_its_end = record {
  read_chunk = λ _. some (ok none);
  read_to_end = λ _. some (ok []);
  read_exact = λ n. some ([], err (ReadExactError.finished_early 0));
  received_reset = some (ok none);
}

abbrev busy : Quinn
busy = record {
  read_chunk = λ _. none;
  read_to_end = λ _. none;
  read_exact = λ _. none;
  received_reset = none;
}

abbrev one_byte : Quinn
one_byte = record {
  read_chunk = λ _. none;
  read_to_end = λ _. none;
  read_exact =
      λ n. if n == 3 then some (7 ∷ 0 ∷ 0 ∷ [], err (ReadExactError.finished_early 1)) else none;
  received_reset = none;
}

one_byte-IsBounded : IsBounded one_byte
one_byte-IsBounded = record {
  chunk_fits = λ max bytes h. cc;
  rest_fits = λ limit bytes h. cc;
  buffer_full = λ n buf r h. ground arith;
  early = λ n k buf h. ground arith;
}

at_start : List Event → RecvStream
unfolding new steps step start_at poll_at cancel_at give_back heir exit_at answer_at aexit_at
    drop_at read_fn do_stop ℕ_discrete
at_start es = steps plain_wire new es

abbrev read_all : Op
read_all = read (negsuc 0) none

-- A read is inside its poll; a read is pending; the stream was read to its end.
abbrev in_poll : List Event
in_poll = start 0 read_all ∷ poll 0 none ∷ []

abbrev pending : List Event
pending = start 0 read_all ∷ poll 0 none ∷ answer 0 busy none ∷ []

abbrev read_up : List Event
read_up = start 0 read_all ∷ poll 0 none ∷ answer 0 at_its_end none ∷ []

reads_nothing : (at_start read_up).tasks 0 ≡ done (ok (chunk []))
unfolding at_start
reads_nothing = refl

stop_interrupts :
    let s = at_start (
      start 0 read_all
      ∷ poll 0 none
      ∷ answer 0 busy none
      ∷ Event.stop 7
      ∷ poll 0 none
      ∷ poll 0 none
      ∷ []) in
    (s.calls ≡ Call.stop 7 ∷ run read_all ∷ []) × (s.tasks 0 ≡ done (err stopped_locally))
unfolding at_start
stop_interrupts = (refl, refl)

one_reader_example : ((◌≡◌ {A = ℕ} 0 0) × ((at_start pending).lock ≡ some 0))
unfolding at_start
one_reader_example = one_reader plain_wire pending 0 0 refl refl

stop_refuses_example :
    Refused (
      (steps plain_wire
          (at_start (Event.stop 7 ∷ start 0 wait_closed ∷ []))
          (poll 0 none ∷ poll 0 none ∷ [])).tasks
        0)
    × ((steps plain_wire
          (at_start (Event.stop 7 ∷ start 0 wait_closed ∷ []))
          (poll 0 none ∷ poll 0 none ∷ [])).cancelled
        ≡ true)
unfolding at_start
stop_refuses_example =
    stop_refuses plain_wire (at_start (Event.stop 7 ∷ start 0 wait_closed ∷ [])) 0
      (poll 0 none ∷ poll 0 none ∷ []) refl tt

stop_once_example :
    ((do_stop (at_start pending) 7).1 ≡ ok tt)
    × (do_stop (steps plain_wire (do_stop (at_start pending) 7).0 (poll 0 none ∷ [])) 8 ≡ (
      steps plain_wire (do_stop (at_start pending) 7).0 (poll 0 none ∷ []),
      err already_closed,
    ))
unfolding at_start
stop_once_example = stop_once plain_wire (at_start pending) 7 8 (poll 0 none ∷ [])

stop_sent_example :
    ((do_stop (at_start pending) 7).0.calls ≡ run read_all ∷ [])
    × Delivered plain_wire
        (steps plain_wire (do_stop (at_start pending) 7).0 (start 1 anext ∷ []))
        0
        (some 1)
        7
unfolding at_start
stop_sent_example =
    stop_sent plain_wire pending (start 1 anext ∷ []) 7 0 (some 1) refl (tt, tt) refl refl

stop_lost_example :
    ((do_stop (at_start in_poll) 7).1 ≡ ok tt)
    × ((step plain_wire (do_stop (at_start in_poll) 7).0 (answer 0 at_its_end none)).calls
        ≡ run read_all ∷ [])
    × ((step plain_wire (do_stop (at_start in_poll) 7).0 (answer 0 at_its_end none)).tasks 0
        ≡ done (ok (chunk [])))
    × ((step plain_wire (do_stop (at_start in_poll) 7).0 (answer 0 at_its_end none)).lock ≡ none)
unfolding at_start
stop_lost_example =
    stop_lost plain_wire (at_start in_poll) 0 7 none read_all at_its_end true (ok (chunk [])) refl
      refl refl refl

clean_exit_example :
    ((step plain_wire (at_start pending) (aexit 1 false none)).calls ≡ run read_all ∷ [])
    × ((step plain_wire (at_start pending) (aexit 1 false none)).tasks 1 ≡ exiting)
    × ((step plain_wire (at_start pending) (aexit 1 false none)).lock ≡ some 0)
    × ((step plain_wire (at_start pending) (aexit 1 false none)).cancelled ≡ false)
    × ((step plain_wire (at_start pending) (aexit 1 false none)).stop_code ≡ 0)
unfolding at_start
clean_exit_example = clean_exit plain_wire (at_start pending) 1 none refl

end_stays_example :
    ((steps plain_wire
        (at_start read_up)
        (start 1 anext ∷ poll 1 none ∷ answer 1 at_its_end none ∷ [])).eof
      ≡ true)
    × (requests
          (steps plain_wire
            (at_start read_up)
            (start 1 anext ∷ poll 1 none ∷ answer 1 at_its_end none ∷ [])).calls
        ≡ 1)
unfolding at_start
end_stays_example =
    end_stays plain_wire (at_start read_up)
      (start 1 anext ∷ poll 1 none ∷ answer 1 at_its_end none ∷ []) refl

read_at_end_example :
    ((steps plain_wire
          (at_start read_up)
          (start 1 anext ∷ poll 1 none ∷ answer 1 busy none ∷ [])).tasks
        1
      ≡ done (err end_of_iteration))
    × ((steps plain_wire
          (at_start read_up)
          (start 1 anext ∷ poll 1 none ∷ answer 1 busy none ∷ [])).calls
        ≡ run read_all ∷ [])
    × ((steps plain_wire
          (at_start read_up)
          (start 1 anext ∷ poll 1 none ∷ answer 1 busy none ∷ [])).lock
        ≡ none)
unfolding at_start
read_at_end_example =
    read_at_end plain_wire (at_start read_up) 1 none anext busy (err end_of_iteration) refl refl
      refl refl refl

read_fn-Fits_example : Fits 3 (read_fn plain_wire one_byte false (readexactly 3))
read_fn-Fits_example = read_fn-Fits plain_wire one_byte false (readexactly 3) one_byte-IsBounded

readexactly_short_example :
    (read_fn plain_wire one_byte false (readexactly 3)
      ≡ ended true (err (new_stream_incomplete_read_error 3 (7 ∷ []))))
    × (◌≡◌ {A = ℕ} 1 1)
readexactly_short_example =
    readexactly_short plain_wire one_byte 3 1 (7 ∷ 0 ∷ 0 ∷ []) one_byte-IsBounded refl

first_stop_wins_example :
    Carry 7 false (at_start pending).calls
    × Carry 7 true
        (steps plain_wire
          (do_stop (at_start pending) 7).0
          (Event.stop 8 ∷ poll 0 none ∷ poll 0 none ∷ [])).calls
unfolding at_start
first_stop_wins_example =
    first_stop_wins plain_wire pending (Event.stop 8 ∷ poll 0 none ∷ poll 0 none ∷ []) 7
      (tt, (tt, (tt, tt))) (tt, (tt, (tt, tt))) refl

-- A round of waiting, while an iteration is started and polled.
abbrev busy_rounds : List Round
busy_rounds =
    record {
      pending_answer = busy;
      let_go = none;
      outside = start 1 anext ∷ poll 1 none ∷ [];
      inside = [];
    }
    ∷ []

read_completes_example :
    Ended plain_wire
      (steps plain_wire (steps plain_wire new []) (
        start 0 read_all
        ∷ poll 0 none
        ∷ ([] ++ rounds 0 busy_rounds (answer 0 at_its_end none ∷ []))))
      0
      true
      (ok (chunk []))
unfolding at_start
read_completes_example =
    read_completes plain_wire [] 0 none read_all [] busy_rounds at_its_end none true (ok (chunk []))
      refl refl refl refl tt ((read_all_waits 0 refl, (λ e. cc, (λ e. cc, tt)), tt), tt)
      (Returns.read_all 0 [] refl)
