-- ===== src/Lib.antt =====
-- Reinstate: a library that verifies the core of the program in internal/.
--
-- Reinstate moves the sessions of coding agents between the devices of an account. Seven parts of it
-- are modelled here.
--
-- * Workspace (internal/workspace): before a session continues, what was recorded of its checkout is
--   compared with the checkout as it is, and the worst finding decides. Workspace/Model.antt has the
--   data of model.go; Workspace/Provenance, NewCheck, WorkingTree and Compare.antt are compare.go,
--   with `Compare` as `compare_fingerprint` and `aggregateDecision` as `aggregate_decision`.
-- * SafeText (internal/safetext): metadata is freed of terminal sequences, controls and needless
--   spaces. SafeText/Strip.antt is the scanner `stripTerminalSequences`, SafeText/Write.antt the loop
--   of `Text` as `clean_text`. A text is a list of code points; the tables of package unicode are the
--   parameter `Unicode`, and `IsStandard` states the classes of the few code points that the code
--   names.
-- * Preflight (internal/preflight): before a native agent is launched, `Verify` makes checks of its
--   observations, and `Authorize` decides on the launch. Preflight/Model and Observed.antt are the
--   data of types.go and what the probes report; Preflight/Checks and its children are the checks of
--   verify.go, which Checks/Gather.antt appends in their order and makes a report of (`assemble`);
--   Preflight/Normalize and Aggregate.antt are `normalizeChecks` and `aggregate`; Preflight/Report
--   and Authorize.antt are policy.go. The checks of Workspace enter by `translate_workspace_checks`.
--   Lower case, quoting and the digest in an id are the parameter `Library`.
-- * Daemon (internal/daemon): the event loop that pushes after changes, pulls on a schedule, polls
--   for approvals and writes a status. Daemon/Model and Settings.antt are the data, `fill` and
--   `Alive`; Daemon/Backoff, Actions, Approvals and Run.antt are loop.go. `Run` is `start` followed
--   by one `step` for each turn of its `select`; the clock readings and the answers of the syncer
--   and of the account are arguments, and what leaves the loop is appended to `effects`.
-- * Backend (internal/backend): the storage interface as the record `Storage` over a state, the
--   in-process store of internal/backend/memory as its implementation, and `HasConditionalPut`, what
--   a client of conditional writes relies on.
-- * Keyring (internal/keyring): the object that holds the root key for each enrolled device and
--   under the recovery code, in signed generations. Keyring/Model, Message, Verify, Wraps, Unwrap,
--   Enrol, Rollover, New and Parse.antt are keyring.go and signing.go, Recovery.antt is recovery.go, and
--   Store.antt is store.go over the `Storage` of Backend. Keyring/Crypto.antt is the interface of
--   the cryptography: age, ed25519, argon2id, XChaCha20-Poly1305, SHA-256, base64 and the decimal
--   printer are parameters, and `IsLawful` states their documented behaviour. encoding/json is the
--   parameter `Codec`.
-- * Sync (internal/sync): a push writes an immutable snapshot, and then moves the head of the session
--   in the remote manifest by a conditional write. Sync/Model.antt is the data, with the manifest and
--   the envelope of internal/schema; Sync/Plan and Paths.antt are plan.go and the excluded paths;
--   Sync/Manifest.antt is `updateManifest` with the reads and writes under it, Sync/Push.antt
--   `PushSession` and Sync/Pull.antt `PullArtifact`, over the `Storage` of Backend. The encryption,
--   encoding/json, the key prefix, SHA-256 and path/filepath are parameters.
--
-- Base holds what the parts share, and Examples the concrete inputs: Examples/Toy.antt is a lawful
-- instance of `Crypto`.
--
-- A change of state is a function from the old state to the new one; an error is a value of
-- `Result`. Numbers are natural numbers. The two places where the width of an integer is felt keep
-- it: the doubling of the backoff is done modulo 2^64 and compared as a signed number, and the
-- Crockford encoder keeps its 32-bit accumulator. Durations and instants are natural numbers, since
-- `fill` treats a negative duration like zero; a generation number below 1 is entered as 0, which
-- the code refuses alike. Five loops run on a count. Those of `Update` and of `updateManifest` retry
-- eight and four times, as the code does; the loop of `backoff` runs at most as often as there were
-- failures; the loop that takes five bits at a time from the Crockford accumulator is given as many
-- turns as there are bits; and the padding after it as many as characters are missing.
--
-- Not modelled: log lines and the wording of errors; the files that the daemon writes; probing a
-- checkout with Git, and the probes of agents, runtimes and capabilities with their deadlines;
-- `workspaceExpectation` and `BaselineFromReport`; the conflict records and the migration of a
-- profile; the temporary files of a push and of a pull; the S3 client; pairing; the wiping of keys
-- in memory; and the components of internal/ that are not named above, the command line and
-- the user interfaces among them.
pub mod Base
pub mod Workspace
pub mod SafeText
pub mod Preflight
pub mod Daemon
pub mod Backend
pub mod Keyring
pub mod Sync
pub mod Examples
