-- ===== src/Module.antt =====
-- src/lib.rs and src/runtime.rs: what the extension module holds, and the runtime that it starts.
mod Tests
use web_transport_quinn_py.Prelude.{
  ◌≡◌, refl, String, Option, none, some, List, [], ◌∷◌, ◌++◌, map, All, ◌∙◌, ap,
}
use web_transport_quinn_py.Errors.Classes.{register}

-- `RUNTIME`, a `OnceLock`: `get_runtime` builds a runtime if there is none yet.
unfoldable pub get_runtime {ℓ} : {R : Type ℓ} → (build : R) → Option R → R × Option R
get_runtime build none = (build, some build)
get_runtime build (some r) = (r, some r)

-- A list of calls of `get_runtime`, each with the runtime that it would build.
unfoldable pub get_runtimes {ℓ} : {R : Type ℓ} → List R → Option R → List R
unfolding get_runtime
get_runtimes [] cell = []
get_runtimes (b ∷ bs) cell = let (r, cell') = get_runtime b cell in r ∷ get_runtimes bs cell'

module _ {ℓ} {R : Type ℓ} where
  started : (r : R) (bs : List R) → All (λ x. x ≡ r) (get_runtimes bs (some r))
  unfolding get_runtimes
  started r [] = tt
  started r (b ∷ bs) = (refl, started r bs)

  -- The runtime is built once: every call returns the one that the first call built.
  pub runtime_once : (b : R) (bs : List R) → All (λ x. x ≡ b) (get_runtimes (b ∷ bs) none)
  unfolding get_runtimes
  runtime_once b bs = (refl, started b bs)

-- `_web_transport`: the names that the module holds, in the order in which they are added.
unfoldable pub web_transport_names : List String
unfolding register
web_transport_names =
    map (λ (name, _). name) register
    ++ ("Server" ∷ "SessionRequest" ∷ "Client" ∷ "Session" ∷ "SendStream" ∷ "RecvStream" ∷ [])
