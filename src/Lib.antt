-- ===== src/Lib.antt =====
-- kuangshi16pro-lcc is the control center of a laptop: a daemon that keeps a snapshot of the machine,
-- takes requests over D-Bus (set a profile, a mode, power limits, a fan table, the fan boost) and writes
-- them to the hardware through a backend. All paths below are under kuangshi16pro-lcc/.
--
-- How the parts interact. A request runs as a transaction on the manager: its target is composed from
-- what was asked for before (preflight), tested against the capabilities (gate), given to the backend
-- (route), and the snapshot is read anew (refresh); the transaction and the diagnostics of the last
-- apply, which are part of the snapshot, are updated all along. The backend of a real machine is
-- converged: a pair of a standard backend (sysfs) and amw0 (ACPI), each operation routed to one of the
-- two or, for power limits, split. Fan tables, modes and power limits become plans, which are bounded
-- arrays of writes to the embedded controller.
--
-- Which file models which part.
--   Prelude, Text: shared names; a char array is the list of its bytes before the NUL, and a write of n
--     bytes keeps n - 1 of them, as snprintf does.
--   Status: include/lcc/error.h, src/common/lcc_error.c.
--   State: include/lcc/state.h, include/lcc/power.h, the modes of include/lcc/profile.h.
--   Attribution, Metadata, Backend: src/backends/backend.c and include/lcc/backend.h. A backend is a
--     table of optional operations over a context of any type; an operation gets the result record and
--     the context and returns its status with both. Nothing is assumed of what an operation does.
--   Reader: src/core/state/reader.c (`lcc_state_reader_refresh` is `reader_refresh`). Its local `result`
--     is not initialised in the source: its content is the argument `uninit`.
--   Manager: src/daemon/manager.h, with the log lines written so far.
--   Request, Summary, Bookkeeping, Transaction: src/daemon/transaction.c; `lcc_transaction_execute` is
--     `execute`, cut into `begin`, `gate`, `route`, `finish`, `complete` and the two failures at its
--     early returns.
--   Daemon: src/daemon/manager.c, with the detection of capabilities as a parameter, and
--     Detect: src/core/capabilities/detect.c and model-map.c, which Daemon/Detected puts in its place.
--   Amw0: src/backends/amw0. Its parts are the packets (Packet), the call file (Host, Transport), the
--     read of a byte (Readback, Access), the encoding of the modes (Control), the shadow state (Device),
--     the read of the state (Live, ReadState), the writes (Apply, FanPlan) and the table of operations
--     (Ops). The files are the operations of a `Host` over a world of any type, of which nothing is
--     assumed. The digits of a number in hexadecimal are on fuel: four are enough for 16 bits.
--   Mock: src/backends/mock/mock-backend.c.
--   Loader: src/core/profile/loader.c, over a function from paths to what opening and reading them
--     comes to. The loop over the points of a JSON array is on fuel: 17 rounds are enough, since the
--     17th object is refused. Scan and Strtoul are what it uses of the C library.
--   Render: src/core/state/model.c. A text that is cut by its buffer is `fit`, and a part that must fit is
--     an Option.
--   Plan, Fan, Profile: src/core/profile/plan.c, src/core/fan/table.c, src/core/fan/table-apply.c,
--     src/core/profile/mode-profile.c, src/core/profile/validator.c, src/core/power/limits.c.
--   Converged: src/backends/converged/backend.c. A pointer to one of the two backends is a `Route`; the
--     text that the four routed operations repeat in the source is the one function `routed`; the read
--     and the overlay of what amw0 knows are in Converged/Read and Converged/Overlay.
--   Tests: concrete backends, managers and tables.
--
-- Bounds. Integers are natural numbers; a sum that the source narrows to 8 or 16 bits has its remainder
-- written out. The loops run over lists or over the 16 points of a curve, so few loops have fuel:
-- the printing of numbers, where five decimal and four hexadecimal digits are enough for 16 bits, and the
-- scan of a JSON array.
--
-- Not modelled: tests of object pointers against NULL that the callers rule out (a pointer to text or to
-- limits that a client gives may be NULL, and is an Option), the D-Bus service, the command line, the
-- standard backend (in the converged backend, both of the pair are parameters), the printing of a decoded
-- state for the debug command, and logging.
pub mod Prelude
pub mod Text
pub mod Status
pub mod State
pub mod Render
pub mod Detect
pub mod Mock
pub mod Scan
pub mod Strtoul
pub mod Loader
pub mod Amw0
pub mod Attribution
pub mod Metadata
pub mod Backend
pub mod Reader
pub mod Summary
pub mod Manager
pub mod Request
pub mod Bookkeeping
pub mod Transaction
pub mod Plan
pub mod Fan
pub mod Profile
pub mod Converged
pub mod Daemon
pub mod Tests
