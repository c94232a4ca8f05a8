-- ===== src/Lib.antt =====
-- The Python extension `_web_transport` (src/lib.rs), which gives Python the WebTransport clients,
-- servers, sessions and streams of the crate web_transport_quinn, as asyncio awaitables.
--
-- The parts, and the files that model them:
--   Errors       src/errors.rs. Classes holds the exception hierarchy and `register`, Exceptions the
--                exception values with their attributes, Foreign the errors of other crates, and
--                Mapping the functions `map_*_error`. Every method of the parts below raises what
--                Mapping makes of an error.
--   SendStream   src/send_stream.rs: the object behind `SendStream`, with its futures. State holds
--                the data, and SendStream.antt what happens to it.
--   RecvStream   src/recv_stream.rs: the object behind `RecvStream`, with its futures. State holds
--                the data, Reading what the methods ask of the inner stream, and RecvStream.antt
--                what happens to the object.
--   Session      src/session.rs: it makes the streams.
--   Config       the settings that `Server::new` of src/server.rs and `Client::new` of src/client.rs
--                read in the same words, and the `close` of both.
--   Server       src/server.rs, with the futures of `accept` and `__anext__` in Server/Accepting and
--                `SessionRequest` in Server/Request.
--   Client       src/client.rs, with the certificate verifiers in Client/Verify.
--   Module       src/lib.rs and src/runtime.rs.
--   Prelude      shared names, lists, tests, results and printed numbers.
-- The children of a part state what holds of it, and its Tests run it on concrete inputs.
--
-- A stream is a record: the mutex's owner, the cancellation token, the atomics, the calls made on
-- the inner stream (the latest first), and for each number the place where the future with that
-- number stands. `step` takes it through one event: Python starts an operation, leaves the `async
-- with` block, drops a future, or calls `reset`, `stop` or the setter of `priority`; the executor
-- polls a future; the inner stream answers the poll that a future is in. Events come in any order.
-- An operation goes from `waiting` (for the lock) to `polling` (inside a poll of its write or read)
-- and `suspended` (between two polls, with the lock), and ends as `done`. A poll that finds the
-- token fired drops the write or read with its lock, and goes on to lock the mutex, reset or stop
-- the inner stream, and raise, all in the same poll if the mutex is free; else the future waits in
-- `cancelling`. Leaving a block is one event with the first poll of its future. Since a thread may
-- call `reset` or `stop` while another polls, these events may fall between the poll and its answer.
-- The atomic accesses and the `try_lock` of one such call are one event, and so is a poll up to the
-- point where it calls the inner stream.
--
-- Where an event lets go of the mutex, it carries the number of the future that the mutex goes to at
-- once, if one is queued; only another future that waits for the mutex is taken. tokio picks the one
-- that has waited longest, which is one of the choices, so what holds for any events holds for it.
-- In Server/Accepting the mutex is let go first and handed over by the event `grant`.
--
-- A call of `reset` or `stop` on the inner stream is what the model shows of RESET_STREAM and
-- STOP_SENDING. The code discards what the inner stream answers to the call, and whether a frame
-- goes out is not modelled.
--
-- What the inner stream, the inner session, the endpoint, TLS and the conversions of numbers do is a
-- parameter: `Quinn`, `Platform`, `Conversions`, `CryptoProvider` and `Wire` are records of answers,
-- and the theorems hold for any, or name the bounds that they ask of it. No operation here takes
-- fuel: the source has no loop but those over lists. `is_subclass` climbs at most five steps, which
-- is how deep the hierarchy is. Bytes, codes and sizes are natural numbers, which the code only
-- passes on and compares.
--
-- Not modelled: the Python package and its interface file, the conversion of values between Python
-- and Rust, the getters of `Session` that read the inner session, and what other crates do.
pub mod Prelude
pub mod Errors
pub mod SendStream
pub mod RecvStream
pub mod Session
pub mod Config
pub mod Server
pub mod Client
pub mod Module
