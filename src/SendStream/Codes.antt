-- ===== src/SendStream/Codes.antt =====
-- The codes with which src/send_stream.rs resets the inner stream, when no `async with` block is left
-- through an exception.
use web_transport_quinn_py.Prelude.{
  ℕ, ◌≡◌, refl, Bool, true, false, Option, List, [], ◌∷◌, arith, All,
}
use web_transport_quinn_py.Errors.Foreign.{Wire}
use web_transport_quinn_py.SendStream.{
  SendStream, Call, Task, Event, run, waiting, suspended, cancelling, exiting_reset, exiting_finish,
  new, poll_at, cancel_at, give_back, heir, exit_reset_at, exit_finish_at, answer_at, start_at,
  aexit_at, drop_at, do_reset, do_set_priority, step, steps, start, poll, answer, drop_future,
  aexit,
}

abbrev pub Plain : Event → Type 0
Plain (aexit i true n) = ⊥
Plain _ = Unit

-- Every reset among the calls carries `code`, and there is one only if the token has fired.
abbrev pub Carry : ℕ → Bool → List Call → Type 0
Carry code fired [] = Unit
Carry code fired (Call.reset c ∷ cs) = (c ≡ code) × (fired ≡ true) × Carry code fired cs
Carry code fired (Call.set_priority v ∷ cs) = Carry code fired cs
Carry code fired (run op ∷ cs) = Carry code fired cs

Carry-fired :
    (code c : ℕ) (b fired : Bool) (cs : List Call) → b ≡ false → Carry code b cs → Carry c fired cs
Carry-fired code c b fired [] h k = tt
Carry-fired code c b fired (Call.reset d ∷ cs) h k = cc (k.1, h)
Carry-fired code c b fired (Call.set_priority v ∷ cs) h k = Carry-fired code c b fired cs h k
Carry-fired code c b fired (run op ∷ cs) h k = Carry-fired code c b fired cs h k

-- A future that is not about to send code 0, and that waits to send a code only if it may.
abbrev pub Orderly : Bool → Task → Type 0
Orderly fired exiting_reset = ⊥
Orderly fired cancelling = fired ≡ true
Orderly fired _ = Unit

pub record Inv (s : SendStream) : Type 0 where
  pub orderly : (j : ℕ) → Orderly s.cancelled (s.tasks j)
  pub carry : Carry s.reset_code s.cancelled s.calls

poll_at-Inv :
    (s : SendStream) (i : ℕ) (n : Option ℕ) (t : Task)
    → s.tasks i ≡ t
    → Inv s
    → Inv (poll_at s i n t)
unfolding poll_at cancel_at give_back heir exit_reset_at exit_finish_at
poll_at-Inv s i n (waiting op) e v = record {
  orderly = λ j. ground (arith, v.orderly j);
  carry = ground (arith, v.carry);
}
poll_at-Inv s i n (suspended op) e v = record {
  orderly = λ j. ground (arith, v.orderly j);
  carry = ground (arith, v.carry);
}
poll_at-Inv s i n cancelling e v = record {
  orderly = λ j. ground (arith, v.orderly j);
  carry = ground (arith, v.carry, v.orderly i);
}
poll_at-Inv s i n exiting_reset e v = absurd (ground (arith, v.orderly i))
poll_at-Inv s i n exiting_finish e v = record {
  orderly = λ j. ground (arith, v.orderly j);
  carry = ground (arith, v.carry);
}
poll_at-Inv s i n _ e v = v

Orderly-fired : (b : Bool) (t : Task) → Orderly b t → Orderly true t
Orderly-fired b exiting_reset h = h
Orderly-fired b _ h = ground arith

do_reset-Inv : (s : SendStream) (c : ℕ) → Inv s → Inv (do_reset s c).0
unfolding do_reset
do_reset-Inv s c v = record {
  orderly = λ j. ground (arith, v.orderly j, Orderly-fired s.cancelled (s.tasks j) (v.orderly j));
  carry = ground (arith, v.carry, Carry-fired s.reset_code c s.cancelled true s.calls);
}

module _ (w : Wire) where
  step-Inv : (s : SendStream) (e : Event) → Plain e → Inv s → Inv (step w s e)
  unfolding step start_at answer_at drop_at aexit_at do_set_priority exit_reset_at exit_finish_at
      heir give_back
  step-Inv s (start i op) h v = record {
    orderly = λ j. ground (arith, v.orderly j);
    carry = ground (arith, v.carry);
  }
  step-Inv s (poll i n) h v = poll_at-Inv s i n _ refl v
  step-Inv s (answer i q n) h v = record {
    orderly = λ j. ground (arith, v.orderly j);
    carry = ground (arith, v.carry);
  }
  step-Inv s (drop_future i n) h v = record {
    orderly = λ j. ground (arith, v.orderly j);
    carry = ground (arith, v.carry);
  }
  step-Inv s (aexit i true n) h v = absurd h
  step-Inv s (aexit i false n) h v = record {
    orderly = λ j. ground (arith, v.orderly j);
    carry = ground (arith, v.carry);
  }
  step-Inv s (Event.reset c) h v = do_reset-Inv s c v
  step-Inv s (Event.set_priority p) h v = record {
    orderly = λ j. ground (arith, v.orderly j);
    carry = ground (arith, v.carry);
  }

  steps-Inv : (es : List Event) (s : SendStream) → All Plain es → Inv s → Inv (steps w s es)
  unfolding steps
  steps-Inv [] s h v = v
  steps-Inv (e ∷ es) s h v = steps-Inv es (step w s e) h.1 (step-Inv s e h.0 v)

  abbrev pub Fired : ℕ → SendStream → Type 0
  Fired c s = (s.cancelled ≡ true) × (s.reset_code ≡ c)

  step-Fired : (c : ℕ) (s : SendStream) (e : Event) → Plain e → Fired c s → Fired c (step w s e)
  unfolding step start_at poll_at answer_at drop_at aexit_at do_reset do_set_priority cancel_at
      give_back heir exit_reset_at exit_finish_at
  step-Fired c s (start i op) h f = ground arith
  step-Fired c s (poll i n) h f = ground arith
  step-Fired c s (answer i q n) h f = ground arith
  step-Fired c s (drop_future i n) h f = ground arith
  step-Fired c s (aexit i true n) h f = absurd h
  step-Fired c s (aexit i false n) h f = ground arith
  step-Fired c s (Event.reset d) h f = ground arith
  step-Fired c s (Event.set_priority p) h f = ground arith

  pub steps-Fired :
      (c : ℕ) (es : List Event) (s : SendStream) → All Plain es → Fired c s → Fired c (steps w s es)
  unfolding steps
  steps-Fired c [] s h f = f
  steps-Fired c (e ∷ es) s h f = steps-Fired c es (step w s e) h.1 (step-Fired c s e h.0 f)

  pub do_reset-Fired : (s : SendStream) (c : ℕ) → s.cancelled ≡ false → Fired c (do_reset s c).0
  unfolding do_reset
  do_reset-Fired s c h = ground arith

  new-Inv : (p : Option ℕ) → Inv (new p)
  unfolding new
  new-Inv p = record { orderly = λ j. tt; carry = tt }

  -- As long as no `async with` block is left through an exception: the first `reset` fixes the code
  -- of every reset of the inner stream that is ever called; before it none is called, and no other
  -- `reset` changes the code.
  pub first_code_wins :
      (before after : List Event) (p : Option ℕ) (c : ℕ)
      → All Plain before
      → All Plain after
      → (steps w (new p) before).cancelled ≡ false
      → Carry c false (steps w (new p) before).calls
        × Carry c true (steps w (do_reset (steps w (new p) before) c).0 after).calls
  first_code_wins before after p c hb ha h = (
    Carry-fired s.reset_code c s.cancelled false s.calls h start_inv.carry,
    rw (fired.0, fired.1) at end_inv.carry,
  )
    where
      s : SendStream
      s = steps w (new p) before

      start_inv : Inv s
      start_inv = steps-Inv before (new p) hb (new-Inv p)

      end_inv : Inv (steps w (do_reset s c).0 after)
      end_inv = steps-Inv after (do_reset s c).0 ha (do_reset-Inv s c start_inv)

      fired : Fired c (steps w (do_reset s c).0 after)
      fired = steps-Fired c after (do_reset s c).0 ha (do_reset-Fired s c h)
