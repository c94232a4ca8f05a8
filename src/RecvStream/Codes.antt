-- ===== src/RecvStream/Codes.antt =====
-- The codes with which src/recv_stream.rs stops the inner stream.
use web_transport_quinn_py.Prelude.{
  Option, ℕ, ◌≡◌, refl, Bool, true, false, List, [], ◌∷◌, arith, All,
}
use web_transport_quinn_py.Errors.Foreign.{Wire}
use web_transport_quinn_py.RecvStream.{
  RecvStream, Call, Task, Event, run, waiting, suspended, cancelling, exiting, new, poll_at,
  cancel_at, give_back, heir, exit_at, answer_at, start_at, drop_at, do_stop, step, steps, start,
  poll, answer, drop_future, aexit,
}

-- The `async with` block is not left.
abbrev pub Inside : Event → Type 0
Inside (aexit i b n) = ⊥
Inside _ = Unit

-- Every stop among the calls carries `code`, and there is one only if the token has fired.
abbrev pub Carry : ℕ → Bool → List Call → Type 0
Carry code fired [] = Unit
Carry code fired (Call.stop c ∷ cs) = (c ≡ code) × (fired ≡ true) × Carry code fired cs
Carry code fired (run op ∷ cs) = Carry code fired cs

Carry-fired :
    (code c : ℕ) (b fired : Bool) (cs : List Call) → b ≡ false → Carry code b cs → Carry c fired cs
Carry-fired code c b fired [] h k = tt
Carry-fired code c b fired (Call.stop d ∷ cs) h k = cc (k.1, h)
Carry-fired code c b fired (run op ∷ cs) h k = Carry-fired code c b fired cs h k

-- A future that does not leave the block, and that waits to send a code only if it may.
abbrev pub Orderly : Bool → Task → Type 0
Orderly fired exiting = ⊥
Orderly fired cancelling = fired ≡ true
Orderly fired _ = Unit

pub record Inv (s : RecvStream) : Type 0 where
  pub orderly : (j : ℕ) → Orderly s.cancelled (s.tasks j)
  pub carry : Carry s.stop_code s.cancelled s.calls

poll_at-Inv :
    (s : RecvStream) (i : ℕ) (n : Option ℕ) (t : Task)
    → s.tasks i ≡ t
    → Inv s
    → Inv (poll_at s i n t)
unfolding poll_at cancel_at give_back heir exit_at
poll_at-Inv s i n (waiting op) e v = record {
  orderly = λ j. ground (arith, v.orderly j);
  carry = ground (arith, v.carry);
}
poll_at-Inv s i n (suspended op) e v = record {
  orderly = λ j. ground (arith, v.orderly j);
  carry = ground (arith, v.carry);
}
poll_at-Inv s i n cancelling e v = record {
  orderly = λ j. ground (arith, v.orderly j);
  carry = ground (arith, v.carry, v.orderly i);
}
poll_at-Inv s i n exiting e v = absurd (ground (arith, v.orderly i))
poll_at-Inv s i n _ e v = v

Orderly-fired : (b : Bool) (t : Task) → Orderly b t → Orderly true t
Orderly-fired b exiting h = h
Orderly-fired b _ h = ground arith

do_stop-Inv : (s : RecvStream) (c : ℕ) → Inv s → Inv (do_stop s c).0
unfolding do_stop
do_stop-Inv s c v = record {
  orderly = λ j. ground (arith, v.orderly j, Orderly-fired s.cancelled (s.tasks j) (v.orderly j));
  carry = ground (arith, v.carry, Carry-fired s.stop_code c s.cancelled true s.calls);
}

module _ (w : Wire) where
  step-Inv : (s : RecvStream) (e : Event) → Inside e → Inv s → Inv (step w s e)
  unfolding step start_at answer_at drop_at give_back heir
  step-Inv s (start i op) h v = record {
    orderly = λ j. ground (arith, v.orderly j);
    carry = ground (arith, v.carry);
  }
  step-Inv s (poll i n) h v = poll_at-Inv s i n _ refl v
  step-Inv s (answer i q n) h v = record {
    orderly = λ j. ground (arith, v.orderly j);
    carry = ground (arith, v.carry);
  }
  step-Inv s (drop_future i n) h v = record {
    orderly = λ j. ground (arith, v.orderly j);
    carry = ground (arith, v.carry);
  }
  step-Inv s (aexit i b n) h v = absurd h
  step-Inv s (Event.stop c) h v = do_stop-Inv s c v

  steps-Inv : (es : List Event) (s : RecvStream) → All Inside es → Inv s → Inv (steps w s es)
  unfolding steps
  steps-Inv [] s h v = v
  steps-Inv (e ∷ es) s h v = steps-Inv es (step w s e) h.1 (step-Inv s e h.0 v)

  abbrev pub Fired : ℕ → RecvStream → Type 0
  Fired c s = (s.cancelled ≡ true) × (s.stop_code ≡ c)

  step-Fired : (c : ℕ) (s : RecvStream) (e : Event) → Inside e → Fired c s → Fired c (step w s e)
  unfolding step start_at poll_at answer_at drop_at do_stop cancel_at give_back heir exit_at
  step-Fired c s (start i op) h f = ground arith
  step-Fired c s (poll i n) h f = ground arith
  step-Fired c s (answer i q n) h f = ground arith
  step-Fired c s (drop_future i n) h f = ground arith
  step-Fired c s (aexit i b n) h f = absurd h
  step-Fired c s (Event.stop d) h f = ground arith

  pub steps-Fired :
      (c : ℕ) (es : List Event) (s : RecvStream)
      → All Inside es
      → Fired c s
      → Fired c (steps w s es)
  unfolding steps
  steps-Fired c [] s h f = f
  steps-Fired c (e ∷ es) s h f = steps-Fired c es (step w s e) h.1 (step-Fired c s e h.0 f)

  pub do_stop-Fired : (s : RecvStream) (c : ℕ) → s.cancelled ≡ false → Fired c (do_stop s c).0
  unfolding do_stop
  do_stop-Fired s c h = ground arith

  new-Inv : Inv new
  unfolding new
  new-Inv = record { orderly = λ j. tt; carry = tt }

  -- Inside the `async with` block, the first `stop` fixes the code of every stop of the inner stream
  -- that is called: before it none is called, and whatever happens next, others included, all carry
  -- its code.
  pub first_stop_wins :
      (before after : List Event) (c : ℕ)
      → All Inside before
      → All Inside after
      → (steps w new before).cancelled ≡ false
      → Carry c false (steps w new before).calls
        × Carry c true (steps w (do_stop (steps w new before) c).0 after).calls
  first_stop_wins before after c hb ha h = (
    Carry-fired s.stop_code c s.cancelled false s.calls h start_inv.carry,
    rw (fired.0, fired.1) at end_inv.carry,
  )
    where
      s : RecvStream
      s = steps w new before

      start_inv : Inv s
      start_inv = steps-Inv before new hb new-Inv

      end_inv : Inv (steps w (do_stop s c).0 after)
      end_inv = steps-Inv after (do_stop s c).0 ha (do_stop-Inv s c start_inv)

      fired : Fired c (steps w (do_stop s c).0 after)
      fired = steps-Fired c after (do_stop s c).0 ha (do_stop-Fired s c h)
