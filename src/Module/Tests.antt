-- ===== src/Module/Tests.antt =====
-- The module at concrete inputs.
use web_transport_quinn_py.Prelude.{ℕ, ◌≡◌, refl, none, [], ◌∷◌, length}
use web_transport_quinn_py.Module.{get_runtimes, web_transport_names}

module_size : length web_transport_names ≡ 24
unfolding web_transport_names
module_size = refl

first_runtime : get_runtimes {R = ℕ} (4 ∷ 5 ∷ 6 ∷ []) none ≡ 4 ∷ 4 ∷ 4 ∷ []
unfolding get_runtimes
first_runtime = refl
