-- ===== src/Server/Accepting/Tests.antt =====
-- Two tasks that accept requests from one server; requests are numbers.
use web_transport_quinn_py.Prelude.{none, ℕ, ◌≡◌, refl, some, List, [], ◌∷◌, ℕ_discrete}
use web_transport_quinn_py.Prelude.Result.{ok}
use web_transport_quinn_py.Server.Accepting.{
  Event, anexts, accepts, done, new, step, steps, start, poll, grant, answer, start_at, poll_at,
  answer_at, grant_at, outcome,
}
use web_transport_quinn_py.Server.Accepting.Laws.{received, Mine, each_told_once}

abbrev two_tasks : List (Event ℕ)
two_tasks =
    start 0 anexts ∷ start 1 accepts ∷ poll 0 ∷ poll 1 ∷ answer 0 (some 7) ∷ grant 1 ∷ poll 1 ∷ []

run_both : (steps new two_tasks).tasks 0 ≡ done (ok (some 7))
unfolding steps step new start_at poll_at answer_at grant_at outcome ℕ_discrete
run_both = refl

each_told_once_example :
    Mine {R = ℕ} anexts
      ((steps (step new (start 0 anexts)) (poll 0 ∷ answer 0 none ∷ [])).tasks 0)
      (received 0 (steps (step new (start 0 anexts)) (poll 0 ∷ answer 0 none ∷ [])).answers)
unfolding steps new
each_told_once_example = each_told_once [] (poll 0 ∷ answer 0 none ∷ []) 0 anexts refl
