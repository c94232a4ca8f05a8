-- ===== src/SendStream/Completion.antt =====
-- Operations of src/send_stream.rs that are not interrupted.
use web_transport_quinn_py.Prelude.{ℕ, ◌≡◌, false, Option, none, List, [], ◌∷◌, ◌++◌, arith, All}
use web_transport_quinn_py.Errors.Exceptions.{PyResult}
use web_transport_quinn_py.Errors.Foreign.{Wire}
use web_transport_quinn_py.SendStream.{
  SendStream, Op, Value, Quinn, Event, idle, polling, suspended, done, new, poll_at, answer_at,
  start_at, step, steps, steps-keep, start, poll, answer,
}
use web_transport_quinn_py.SendStream.Lock.{OneOwner, owns, steps-OneOwner, step-OneOwner}
use web_transport_quinn_py.SendStream.Apart.{Apart, Stands, steps-Stands, steps-append}
use web_transport_quinn_py.SendStream.Answers.{Returns, Waits, write_fn-Returns, write_fn-Waits}

-- A poll at which the write is pending, what else happens until it is polled again, and what else
-- happens inside that poll.
pub record Round : Type 0 where
  pub pending_answer : Quinn
  pub let_go : Option ℕ
  pub outside : List Event
  pub inside : List Event

abbrev pub IsRound : ℕ → Op → Round → Type 0
IsRound i op r = Waits r.pending_answer op × All (Apart i) r.outside × All (Apart i) r.inside

-- The write is polled once for each round, and gets its answer in the end.
abbrev pub rounds : ℕ → List Round → List Event → List Event
rounds i [] rest = rest
rounds i (r ∷ rs) rest =
    answer i r.pending_answer r.let_go
    ∷ (r.outside ++ (poll i r.let_go ∷ (r.inside ++ rounds i rs rest)))

module _ (w : Wire) where
  -- Future `i` has returned `r`, and has not got the mutex.
  pub record Ended (s : SendStream) (i : ℕ) (r : PyResult Value) : Type 0 where
    pub result : s.tasks i ≡ done r
    pub left : owns s.lock i ≡ false

  answer-Ended :
      (s : SendStream) (i : ℕ) (op : Op) (q : Quinn) (m : Option ℕ) (r : PyResult Value)
      → OneOwner s
      → Stands i (polling op) s
      → Returns w q op r
      → Ended (step w s (answer i q m)) i r
  unfolding step answer_at
  answer-Ended s i op q m r one (h, e) a =
      let f = write_fn-Returns w q op r a in
      record {
        result = ground (arith, f);
        left = ground (arith, step-OneOwner w s (answer i q m) one i, f);
      }

  answer-Stands :
      (s : SendStream) (i : ℕ) (op : Op) (q : Quinn) (m : Option ℕ)
      → Stands i (polling op) s
      → Waits q op
      → Stands i (suspended op) (step w s (answer i q m))
  unfolding step answer_at
  answer-Stands s i op q m (h, e) wait =
      let f = write_fn-Waits w q op wait in (ground (arith, f), ground (arith, f))

  poll-Stands :
      (s : SendStream) (i : ℕ) (op : Op) (m : Option ℕ)
      → Stands i (suspended op) s
      → Stands i (polling op) (step w s (poll i m))
  unfolding step poll_at
  poll-Stands s i op m (h, e) = (ground arith, ground arith)

  steps-owner : (es : List Event) (s : SendStream) → OneOwner s → OneOwner (steps w s es)
  steps-owner es s one = steps-keep w OneOwner (step-OneOwner w) es s one

  rounds-Ended :
      (rs : List Round) (s : SendStream) (i : ℕ) (op : Op) (q : Quinn) (m : Option ℕ)
      (r : PyResult Value)
      → OneOwner s
      → Stands i (polling op) s
      → All (IsRound i op) rs
      → Returns w q op r
      → Ended (steps w s (rounds i rs (answer i q m ∷ []))) i r
  unfolding steps
  rounds-Ended [] s i op q m r one at_poll _ a = answer-Ended s i op q m r one at_poll a
  rounds-Ended (x ∷ xs) s i op q m r one at_poll ((wait, outer, inner), more) a =
      rw
        (steps-append w x.outside (poll i x.let_go ∷ (x.inside ++ rounds i xs (answer i q m ∷ [])))
          s1)
        (rw (steps-append w x.inside (rounds i xs (answer i q m ∷ [])) s3) (
          rounds-Ended xs s4 i op q m r
            (steps-owner x.inside s3
              (step-OneOwner w s2 _ (steps-owner x.outside s1 (step-OneOwner w s _ one))))
            (steps-Stands w i (polling op) x.inside s3 inner (
              poll-Stands s2 i op x.let_go (
                steps-Stands w i (suspended op) x.outside s1 outer
                  (answer-Stands s i op x.pending_answer x.let_go at_poll wait))))
            more a))
    where
      s1 : SendStream
      s1 = step w s (answer i x.pending_answer x.let_go)

      s2 : SendStream
      s2 = steps w s1 x.outside

      s3 : SendStream
      s3 = step w s2 (poll i x.let_go)

      s4 : SendStream
      s4 = steps w s3 x.inside

  -- In any history of a new stream, an operation that starts while the mutex is free and that is not
  -- interrupted returns what `Returns` says for the last answer of the inner stream, after
  -- any number of polls at which the answer was that it must wait, and whatever other futures and
  -- the setters do between and inside the polls; it lets go of the mutex.
  pub operation_completes :
      (before : List Event) (p : Option ℕ) (i : ℕ) (n : Option ℕ) (op : Op) (first : List Event)
      (rs : List Round) (q : Quinn) (m : Option ℕ) (r : PyResult Value)
      → (steps w (new p) before).cancelled ≡ false
      → (steps w (new p) before).lock ≡ none
      → (steps w (new p) before).tasks i ≡ idle
      → All (Apart i) first
      → All (IsRound i op) rs
      → Returns w q op r
      → Ended
          (steps w
            (steps w (new p) before)
            (start i op ∷ poll i n ∷ (first ++ rounds i rs (answer i q m ∷ []))))
          i
          r
  unfolding steps step start_at poll_at
  operation_completes before p i n op first rs q m r h l e apart more a =
      rw (steps-append w first (rounds i rs (answer i q m ∷ [])) s2) (
        rounds-Ended rs (steps w s2 first) i op q m r
          (steps-owner first s2 (
            step-OneOwner w s1 (poll i n)
              (step-OneOwner w s (start i op) (steps-OneOwner w before p))))
          (steps-Stands w i (polling op) first s2 apart (ground arith, ground arith)) more a)
    where
      s : SendStream
      s = steps w (new p) before

      s1 : SendStream
      s1 = step w s (start i op)

      s2 : SendStream
      s2 = step w s1 (poll i n)
