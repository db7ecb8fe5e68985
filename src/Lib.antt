-- ===== src/Lib.antt =====
-- A verification library for the Python of this repository: IGNIS, a demonstration of a fire
-- detector that watches a room, confirms a fire deterministically, and asks for at most a limited
-- number of telephone calls.
--
-- The program. A camera device (poc/pi/ignis_poc) runs a model on each frame and a gate
-- (`FireVerifier`) over the model's outputs, and sends packets to a backend (backend/app) over TCP.
-- The backend parses the packets, keeps incidents, devices and call attempts in a database, and
-- places a demonstration call through a provider, under a policy that the database enforces in
-- one transaction.
--
-- Which file models which part:
--   Wire: backend/app/protocol.py. `Packet` is the header's layout and checks (`encode_packet`, and
--     the header part of `PacketParser.feed`), `Parser` the loop of `feed` on its buffer and the
--     header that waits, `Frame` the payload of a frame.
--   Verifier: poc/pi/ignis_poc/core.py. `Gate` is `FireVerifier.update` on the verifier's record,
--     `Decimal` the decimal counter in an incident's name.
--   Store: backend/app/database.py. `Schema` is the database as a record of tables, each module
--     below it the transactions on one table. A transaction that raises is rolled back, so it
--     returns an error and no database.
--   Backend: `RateLimit` is backend/app/rate_limit.py, `Destination` and `Dispatch` are
--     backend/app/communications.py, and `Settings` is `validate` and `Environment`
--     is `from_env` of backend/app/config.py.
--     `Registry` is backend/app/device_registry.py, with the state of the writers. `Session` is a
--     connection of backend/app/tcp_server.py: `Session/Login` is `_authenticate`,
--     `Session/Dispatch` is `_dispatch`, and `Session/Loop` is `_handle_connection`.
--     `Escalation` is backend/app/escalation.py, the code of `_wait` behind its sleep.
--     `Http` is backend/app/main.py: `Http/Actions` the routes of an action on an incident,
--     `Http/Calls` those of calls and of the arming, `Http/Zones` those of the configurations, and
--     `Http/Voice` that of the voice's address. `Zones` is the validators of backend/app/models.py.
--     `Hub` is backend/app/websockets.py.
--     `Observations` is backend/app/observation_formatter.py, and the context of a call that is
--     built from it.
--   Device: poc/pi/ignis_poc. `Stream` is `BackendStream` of edge.py, over `encode_packet` of
--     protocol.py, `Ack` is `receive_ack` of protocol.py, on what arrives on a socket, and `Edge` is
--     `run` of edge.py: the rounds of the loop behind camera and detector, with what they send and
--     log. `Detector` is the decoding of the outputs of YOLO and SSD models and the suppression of
--     overlapping boxes of model.py.
--   Simulator: simulator/ignis_simulator. `Scenarios` is scenarios.py, `Fragments` is `_send` of cli.py
--     with the fault "fragmented", over `packet` of protocol.py.
--   Training: training/ignis_training. `Split` is split_by_source.py, `Check` is validate_split.py.
--   Prelude: the shared names, tests, and lemmas on lists and strings.
--
-- State is passed explicitly, and the clock (`time.monotonic`, `utc_now`) is an argument. A time of
-- day is a count of microseconds and a monotonic time is a natural number, so it never precedes the
-- zero of its clock. The database is written under its lock, one transaction at a time, so a
-- transaction is a function; the call of the provider is an `await` between two of them, and
-- `begin_call` and `finish_call` are the code on either side. Bytes are numbers below 256 in a list,
-- and every field of a packet keeps its width.
--
-- Integers of the database have no bound here: sqlite3 raises OverflowError from 2^63 on, where the
-- model still writes.
--
-- A packet of a connection is one step of its session, so what other tasks do while a step awaits
-- is not interleaved with it; the arming and the clock may be others for each packet.
--
-- Loops are structural recursion, but for three: the parser's `drain` is on fuel, and
-- `drain_all` gives it one more than the bytes that it holds or waits for. Each round consumes
-- at least a byte of them or ends the loop, which is why that is enough (Wire.Rounds,
-- Wire.Stream). `receive_from` and the simulator's `cut` have as much fuel as bytes, and a round
-- of each takes a byte at least (Device.Ack.Handshake, Simulator.Fragments).
--
-- Parameters stand for code that is not of this repository: floating point numbers (`Floats`, with
-- the order that a theorem needs as its hypothesis), their arithmetic and roundings (`Arithmetic`,
-- `Plane`, `Rounding`), JSON (`Json`), SHA-256, the digits of `\d` that are not ASCII, hmac's
-- comparison, what is read out of a JSON value and pydantic's parsing (`Values`), and the provider's
-- answers.
--
-- Not modelled: the HTTP routes that list incidents, events and devices, the tasks of asyncio, the
-- camera and the sockets, the interpreters of the neural model, the LCD driver, the frames and the
-- other faults of the simulator, the training scripts that call machine learning libraries, and
-- everything that is not Python (qnx, frontend).
pub mod Prelude
pub mod Wire
pub mod Verifier
pub mod Store
pub mod Backend
pub mod Device
pub mod Training
pub mod Simulator
