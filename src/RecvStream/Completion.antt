-- ===== src/RecvStream/Completion.antt =====
-- Operations of src/recv_stream.rs that are not interrupted.
use web_transport_quinn_py.Prelude.{
  ℕ, ◌≡◌, sym, Bool, false, Option, none, List, [], ◌∷◌, ◌++◌, arith, All,
}
use web_transport_quinn_py.Errors.Exceptions.{PyResult}
use web_transport_quinn_py.Errors.Foreign.{Wire}
use web_transport_quinn_py.RecvStream.{
  RecvStream, Op, Value, Quinn, Event, idle, polling, suspended, done, new, poll_at, answer_at,
  start_at, step, steps, steps-keep, start, poll, answer,
}
use web_transport_quinn_py.RecvStream.Lock.{OneOwner, owns, steps-OneOwner, step-OneOwner}
use web_transport_quinn_py.RecvStream.Apart.{Apart, Stands, steps-Stands, steps-append}
use web_transport_quinn_py.RecvStream.Answers.{Returns, Waits, read_fn-Returns, read_fn-Waits}

-- A poll at which the read is pending, what else happens until it is polled again, and what else
-- happens inside that poll.
pub record Round : Type 0 where
  pub pending_answer : Quinn
  pub let_go : Option ℕ
  pub outside : List Event
  pub inside : List Event

abbrev pub IsRound : ℕ → Op → Round → Type 0
IsRound i op r = Waits r.pending_answer op × All (Apart i) r.outside × All (Apart i) r.inside

-- The read is polled once for each round, and gets its answer in the end.
abbrev pub rounds : ℕ → List Round → List Event → List Event
rounds i [] rest = rest
rounds i (r ∷ rs) rest =
    answer i r.pending_answer r.let_go
    ∷ (r.outside ++ (poll i r.let_go ∷ (r.inside ++ rounds i rs rest)))

module _ (w : Wire) where
  -- Future `i` has returned `r`, `eof` is as given, and it has not got the mutex.
  pub record Ended (s : RecvStream) (i : ℕ) (eof : Bool) (r : PyResult Value) : Type 0 where
    pub result : s.tasks i ≡ done r
    pub end : s.eof ≡ eof
    pub left : owns s.lock i ≡ false

  answer-Ended :
      (s : RecvStream) (i : ℕ) (op : Op) (q : Quinn) (m : Option ℕ) (b : Bool) (r : PyResult Value)
      → OneOwner s
      → Stands i (polling op) s
      → Returns w q op b r
      → Ended (step w s (answer i q m)) i b r
  unfolding step answer_at
  answer-Ended s i op q m b r one (h, k, e) a =
      let f = rw (sym k) at (read_fn-Returns w q op b r a) in
      record {
        result = ground (arith, f);
        end = ground (arith, f);
        left = ground (arith, step-OneOwner w s (answer i q m) one i, f);
      }

  answer-Stands :
      (s : RecvStream) (i : ℕ) (op : Op) (q : Quinn) (m : Option ℕ)
      → Stands i (polling op) s
      → Waits q op
      → Stands i (suspended op) (step w s (answer i q m))
  unfolding step answer_at
  answer-Stands s i op q m (h, k, e) wait =
      let f = rw (sym k) at (read_fn-Waits w q op wait) in
      (ground (arith, f), ground (arith, f), ground (arith, f))

  poll-Stands :
      (s : RecvStream) (i : ℕ) (op : Op) (m : Option ℕ)
      → Stands i (suspended op) s
      → Stands i (polling op) (step w s (poll i m))
  unfolding step poll_at
  poll-Stands s i op m (h, k, e) = (ground arith, ground arith, ground arith)

  steps-owner : (es : List Event) (s : RecvStream) → OneOwner s → OneOwner (steps w s es)
  steps-owner es s one = steps-keep w OneOwner (step-OneOwner w) es s one

  rounds-Ended :
      (rs : List Round) (s : RecvStream) (i : ℕ) (op : Op) (q : Quinn) (m : Option ℕ) (b : Bool)
      (r : PyResult Value)
      → OneOwner s
      → Stands i (polling op) s
      → All (IsRound i op) rs
      → Returns w q op b r
      → Ended (steps w s (rounds i rs (answer i q m ∷ []))) i b r
  unfolding steps
  rounds-Ended [] s i op q m b r one at_poll _ a = answer-Ended s i op q m b r one at_poll a
  rounds-Ended (x ∷ xs) s i op q m b r one at_poll ((wait, outer, inner), more) a =
      rw
        (steps-append w x.outside (poll i x.let_go ∷ (x.inside ++ rounds i xs (answer i q m ∷ [])))
          s1)
        (rw (steps-append w x.inside (rounds i xs (answer i q m ∷ [])) s3) (
          rounds-Ended xs s4 i op q m b r
            (steps-owner x.inside s3
              (step-OneOwner w s2 _ (steps-owner x.outside s1 (step-OneOwner w s _ one))))
            (steps-Stands w i (polling op) x.inside s3 inner (
              poll-Stands s2 i op x.let_go (
                steps-Stands w i (suspended op) x.outside s1 outer
                  (answer-Stands s i op x.pending_answer x.let_go at_poll wait))))
            more a))
    where
      s1 : RecvStream
      s1 = step w s (answer i x.pending_answer x.let_go)

      s2 : RecvStream
      s2 = steps w s1 x.outside

      s3 : RecvStream
      s3 = step w s2 (poll i x.let_go)

      s4 : RecvStream
      s4 = steps w s3 x.inside

  -- In any history of a new stream, an operation that starts while the mutex is free and that is not
  -- interrupted returns what `Returns` says for the last answer of the inner stream, after
  -- any number of polls at which the answer was that it must wait, and whatever other futures and
  -- the setters do between and inside the polls; it lets go of the mutex, and the end of the
  -- stream, which was not seen before, is marked exactly if that answer says so.
  pub read_completes :
      (before : List Event) (i : ℕ) (n : Option ℕ) (op : Op) (first : List Event) (rs : List Round)
      (q : Quinn) (m : Option ℕ) (b : Bool) (r : PyResult Value)
      → (steps w new before).cancelled ≡ false
      → (steps w new before).eof ≡ false
      → (steps w new before).lock ≡ none
      → (steps w new before).tasks i ≡ idle
      → All (Apart i) first
      → All (IsRound i op) rs
      → Returns w q op b r
      → Ended
          (steps w
            (steps w new before)
            (start i op ∷ poll i n ∷ (first ++ rounds i rs (answer i q m ∷ []))))
          i
          b
          r
  unfolding steps step start_at poll_at
  read_completes before i n op first rs q m b r h k l e apart more a =
      rw (steps-append w first (rounds i rs (answer i q m ∷ [])) s2) (
        rounds-Ended rs (steps w s2 first) i op q m b r
          (steps-owner first s2 (
            step-OneOwner w s1 (poll i n)
              (step-OneOwner w s (start i op) (steps-OneOwner w before))))
          (steps-Stands w i (polling op) first s2 apart (ground arith, ground arith, ground arith))
          more a)
    where
      s : RecvStream
      s = steps w new before

      s1 : RecvStream
      s1 = step w s (start i op)

      s2 : RecvStream
      s2 = step w s1 (poll i n)
