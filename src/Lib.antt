-- ===== src/Lib.antt =====
-- The RFID middleware for the IDRO900E reader: a reader's bytes come over TCP, are cut into lines
-- and parsed into tags, each tag read is put once into a durable queue, and one worker sends the
-- queued rows to the server, with a gate for each reader that says whether its rows may be sent.
--
-- Prelude has the shared library. The program's parts, each with its proofs in child modules:
--   Protocol    internal/reader/protocol: Framer (`Framer.Push` is `push`), Parser (`Parse` is
--               `parse`) and Commands, over Cut, Blanks and Hex, which stand for what they use of Go's bytes,
--               strings and strconv
--   Domain      internal/domain: the values that the parts exchange
--   Store       internal/store/sqlite: the tables, and one function for each method; `Admit` is
--               `admit`, the other methods are in Queue and Gates
--   Gate        internal/gate: the registry of the readers' gates (`Set` is `set`, `RefreshMeta` is
--               `refresh_meta`)
--   Session     internal/reader/session/session.go: the commands of Protocol.Commands, and a session
--               as a machine (`serve` is `open_session` and `run`); `Run`'s delays are `run_delays`;
--               Probe is probe.go
--   Admission   internal/admission: `Handle` is `handle`
--   Congkong    internal/congkong: decoding of the answers (Json, Decode) and `Classify`
--   Sender      internal/sender: a round of `Run` is `round`, with `deliver` and its switch `settle`;
--               Preflight and Refresh are preflight.go and metarefresh.go
--   Resume      internal/app/resume.go: `QueueResume` is `queue_resume`
--   Config      internal/config: `validate` is `validate`, on the file as the decoder gives it (`Wire`); Addr
--               has `validateAddr` and what it uses of net and strconv; Valid says what a valid file is
--   App         internal/app/app.go and telemetry.go: the start of `Run` that brings the gates back (Restore),
--               a minute of its sweeper (Sweep), `drainWait` (Drain), telemetry, and `writeStatus` (Status),
--               and what `Run` makes of the configuration (Wiring)
--   Clock       internal/clock: the fake clock
--   Logging     internal/logging: records, masking and the files that are kept; `latestLogFile` of internal/gui
--   Net         internal/winnet: `HostIPFor` is `host_ip_for`, `Candidates` is `candidates`
--   Replay      internal/replay: `RunRaw` is `run_raw`, `RunNDJSON` is `run_ndjson`
--   Gui         internal/gui: `BuildState` is `build_state` and `evalSignal` is `eval_signal` (Signal), the ring
--               of log lines (LogRing), `maskLogLine` (Mask), the catalogue and its manager (Catalog), the core's
--               controller (Core), the writes of the configuration (CfgWrite), what the operator changes and what is added
--               to the state (Apply and Augment, of run.go: `apply_session`, `resume`, `core_control`, `augment`), the check of a site (Wizard, whose
--               `run` is `run`), the requests of the browser (Body, Server and Routes, of server.go: `Serve` is `serve`), the
--               channels of its windows (Hub), and the two callers of `WriteConfig` (Save: `configSave` is `config_save`, and of
--               cmd/rfid-middleware/main.go `cmdConfig` is `set_reader`)
--   System      the parts on one registry and one store, as a relation of interleaved steps
--   Tests       runs on small inputs
--
-- The configuration that Config accepts is what App's parts are given (`Reader`, `Config`); App's `write_status` reads
-- the registry, the tables and the telemetry, and Gui's `build_state` reads what it writes. Gui's writes of the
-- configuration are parsed by Config before they take the place of the file.
--
-- State is passed from one function to the next: the tables (`Db`), the registry, and for the worker
-- a `World`, which has both and notes the log, the requests and the callbacks. What a mutex makes
-- atomic is one function. The server's answers, the failures of the database driver and of the calls on files, those of a rollback too, the clock's
-- instants, the text of an instant and the digest of a token are arguments. Numbers are the native
-- ones; Go's `int` is `ℤ` where it may be negative, and 64-bit identifiers and instants are taken
-- not to run over. Instants before 1970 are left out.
--
-- Fuel: the loop of `push` gets the length of the buffer and one, and each round takes two bytes or
-- more out of it. The loop of `Run` is endless; `until_wait` runs it over a list
-- of turns, each with an instant, failures and answers of its own, until it waits.
-- The digits of a 64-bit integer are nineteen at most, which is the fuel of `decimal`.
--
-- Parameters: net/url and path/filepath are a `Platform`, JSON texts a `Codec` or what a decoder made of them, and an
-- instant's text is read by a function that may fail.
--
-- Not modelled: SQLite itself and the migrations, HTTP and TCP, the goroutines and channels
-- of `Run`, the texts of the window's answers and its views, the isolated run of the site check and its report, opening and writing the
-- files of the log, what reads and sets the network of Windows, its service, and the command line but for `config set-reader`. The model of
-- the session leaves out dialling, and the fake clock does not go back. The body of an answer is the JSON value that its text writes, if it
-- writes one; the text of JSON is not read.
pub mod Prelude
pub mod Protocol
pub mod Domain
pub mod Store
pub mod Gate
pub mod Admission
pub mod Congkong
pub mod Sender
pub mod Config
pub mod Session
pub mod Resume
pub mod Logging
pub mod Net
pub mod Clock
pub mod Replay
pub mod App
pub mod System
pub mod Gui
pub mod Tests
