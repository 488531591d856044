-- ===== src/Lib.antt =====
-- Verification library of the Kor Travel Docker Manager backend: the registries that decide which
-- pair of source revisions may run, the runner of background jobs, the login
-- audit, and the targets that a command acts on.
--
-- The backend pins one revision of each of two sources (Map and PinVi). The pair has a digest, the
-- pinset. A registry file names the current pair, its history and the pinsets that must not run
-- again; a second registry binds a pinset to a revision of the Manager itself, an execution. The
-- command line changes both; other processes read the published copy. Long operations run as jobs.
--
-- Parts, their files, and the code under backend/src/kor_travel_docker_manager/services/:
--   Release      pinned_runtime_release.py: the source documents and the pinset digest.
--   Checks       the field checks of runtime_pin_registry.py (`_require_*`) and of
--                runtime_execution_registry.py (`_text`, `_timestamp`).
--   Pins         runtime_pin_registry.py. Entries, Registry and Document hold the values, their
--                `__post_init__` checks, the strict parser and the payload; Rotation holds
--                build_registry, build_runtime_pin_pair_rotation, the block and the rollback as
--                functions of the loaded registry and the time; Files and Store hold the registry
--                file, the preserved and the published copies and the cache as one state, with
--                load, write, rotate, block, roll back and verify as functions on it.
--   Executions   runtime_execution_identity.py and runtime_execution_registry.py: bindings, blocked
--                executions, the registry, its parser, and migrate, rebind, rotate and block.
--                Files holds the checks of its files, load, write and verification.
--   Pairs        runtime_pair_rotation.py: the intent that is stored before both registries are
--                changed. Files and Disk hold its file and the state of all three parts, with a
--                result for each system call that can fail; Transaction holds the rotation of the
--                pair and of a single role and the rollback, as do blocks over that state.
--   Targets      registry.py: the targets of docker-targets.yml. Names, hosts and ownership; Sequence
--                holds the dependency closure with its loop and what is derived from it, Groups the
--                services by Compose project, Validation the references between targets. The
--                configuration is the value that `load_targets_config` returns.
--   Requests     runtime_pin_request.py: the request that the user interface leaves for root. Files holds
--                what stands under its path (nothing, a symbolic link or a file) and the read, the
--                exclusive write, the cancellation and the discard, each with the outcomes of its
--                system calls; other processes may act between the read and the creation.
--   Jobs         job_runner.py: the table of jobs. Each section under the lock is a function, and
--                Reach puts them together as steps in any order.
--   Auth         auth_service.py: the client's address, the login audit with its retention, the login
--                rate limit that is counted from it, the sanitized path, and in Sessions the signed
--                cookies and their rows. The table of events is a list, newest row first.
--   Json, Errors the documents that `json.loads` returns, and one constructor for each message.
--   Common       Boolean tests, lists, texts and the result type of code that may raise.
--   Tests        concrete inputs for the theorems.
--
-- Parameters: `Platform` is what the code takes from Python's standard library and does not define
-- (the digit class of `re`, `str.lower`, SHA-256 of a document, the size of an encoded document);
-- `Host` and `Site` say who runs the process and which system calls succeed; `Codec` is HMAC, SHA-256
-- and the encoding of a session's payload; `iterate` is the order in which Python iterates a set.
-- Times, identifiers from uuid4, the current host and the outcome of a submitted function are
-- arguments.
--
-- Bounds: the lists of the registries are cut or checked at 500 entries as in the code. Three loops
-- have fuel. The eviction loop of the job runner has the number of finished jobs: each turn removes
-- one of them. The loop over the dependencies of a target has one more than the number of the
-- dependencies of all targets: each target is entered once, and pushes its dependencies then. The
-- recursion through `include` has a depth that the caller gives. Python's unbounded integers are
-- natural numbers where the code has times and counts.
--
-- Not modelled: the paths and the atomic replacement of files (they succeed or fail), one
-- directory for the intent and both registries (each has its own in the model), the event loop,
-- passwords and origins, the reading of docker-targets.yml with the checks of its single fields, the
-- runtime topology, and the modules that drive Docker, Git and PostgreSQL.
pub mod Common
pub mod Json
pub mod Errors
pub mod Platform
pub mod Release
pub mod Checks
pub mod Pins
pub mod Executions
pub mod Pairs
pub mod Targets
pub mod Requests
pub mod Jobs
pub mod Auth
pub mod Tests
