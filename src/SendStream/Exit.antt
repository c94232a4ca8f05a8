-- ===== src/SendStream/Exit.antt =====
-- Leaving an `async with` block of src/send_stream.rs without an exception.
use web_transport_quinn_py.Prelude.{ℕ, ◌≡◌, Bool, true, false, Option, none, some, ◌==◌}
use web_transport_quinn_py.SendStream.{SendStream, Task, exiting_finish, dropped}
use web_transport_quinn_py.SendStream.Apart.{Apart}

-- An exit that has not got the mutex, or was given up.
abbrev pub is_outside : Task → Bool
is_outside exiting_finish = true
is_outside dropped = true
is_outside _ = false

-- Future `i` stands at `t` with the mutex, the token has not fired, and the exit `j` is outside.
abbrev pub Kept : ℕ → Task → ℕ → SendStream → Type 0
Kept i t j s =
    (s.cancelled ≡ false) × (s.lock ≡ some i) × (s.tasks i ≡ t) × (is_outside (s.tasks j) ≡ true)

-- The mutex is free, or was handed to future `j`.
abbrev pub available : Option ℕ → ℕ → Bool
available none j = true
available (some o) j = o == j
