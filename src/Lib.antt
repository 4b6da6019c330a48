-- ===== src/Lib.antt =====
-- SourceOS Boot: the boot, recovery and update logic of src/sourceos_boot, modelled and verified.
--
-- The A/B dual-slot update machine (src/sourceos_boot/ab_update_machine.py) is under Ab: Ab/Types
-- the slots, phases and records; Ab/Table the transition table and its index; Ab/Machine the
-- machine, its exceptions and the helpers that touch slots; Ab/Checks `_assert_invariants`, the
-- guards, `_resolve` and `_offer`; Ab/Events the event methods; Ab/Construct `__post_init__`;
-- Ab/Commands the replay loop of src/sourceos_boot/cli.py with the method that each event name
-- selects; Ab/Documents the UpdateTransaction and UpdateSlot documents, as records of the keys that
-- vary, Ab/Urn `_local` and Ab/Restart `machine_from_slot_documents`. A method is a function from
-- the machine to an outcome, returned or raised, and the machine as it then is, so what was written
-- before a raise stays written. Python's strings from closed sets are data types; the message of a
-- result or an exception is a constructor with the values that it interpolates; the empty string
-- that `_from_slot` and `_to_slot` start with is `none`; the caller's clock is a function of the
-- number of calls made. boot_priority, tries_remaining and max_attempts are naturals: the schema of
-- UpdateSlot has them at 0 or more, and every value that the machine itself writes is. A dict of
-- the two slots is a record of both with the order of insertion. Dataclass validation of a slot's
-- strings is what their types say.
--
-- The other files under Ab hold proofs. Ab/Invariant says what holds of an open transaction between
-- two events; Ab/Effects writes out what each event does to the state; Ab/Keeps shows that each
-- effect keeps the invariant; Ab/Admission, Ab/Behaviour, Ab/Watchdog and Ab/Opening show that each
-- method has its effect; Ab/Steps and Ab/Progress put the events together; Ab/Replays goes over
-- lists of events, and Ab/Guarantees, Ab/Endings, Ab/Checked and Ab/Renderings say what follows.
-- Ab/Widths and Ab/Bounds are about the widths of a slot's partition entry, in every phase and also
-- where a method raises.
-- The loops of the program run over lists; only the decimal digits of a generation's number
-- (Rollback/Chain) are computed on fuel, and one more than the number is enough, since each step
-- divides by ten.
--
-- The release-lifecycle engine (src/sourceos_boot/lifecycle_state_machine.py) is under Lifecycle:
-- Lifecycle/Types the states, transitions, table, requests and records; Lifecycle/Engine the index,
-- `lookup`, `_record` and `apply_transition`. The promotion lineage is a relation of its own in
-- Lifecycle/Rules; Lifecycle/Gates and Lifecycle/Complete compare the engine with it in both
-- directions, and Lifecycle/History follows an object that a caller advances with the engine. A
-- state or transition name outside the two vocabularies is `unlisted`; uuid4 and the clock are
-- arguments.
--
-- The rollback path is under Rollback: Rollback/Chain is src/sourceos_boot/asahi_boot_chain.py,
-- with what it reads of os, os.path and int as a record of functions; Rollback/Executor is
-- src/sourceos_boot/rollback_executor.py, whose subprocess is a function on a state; Rollback/Sort
-- is Python's `sorted` as a stable insertion sort. Rollback/Plans, Rollback/Previous,
-- Rollback/Reports, Rollback/Steps and Rollback/Executions hold the proofs.
--
-- Decoded JSON is Json: a value as Python's json gives it, with Json/Equality for Python's `==`; a
-- dict is the list of its items, whose keys differ, and a float is a dyadic number, so not-a-number
-- and the infinities are left out. Result is what a function that may raise returns, and Reading the
-- chains that read an object. json.dumps and sha256 are a record of functions, Hashing.
--
-- The commands of src/sourceos_boot/cli.py that update the slots are under Cli: Cli/Probe
-- `probe_definition_digest`, Cli/Events the table of events with its defaults, Cli/AbUpdate
-- `_load_ab_update_machine`, `ab_update_plan` and `ab_update_replay`; Cli/Loaded, Cli/Runs and
-- Cli/Drills carry the theorems on the machine over to them. The slot documents and the events are
-- arguments, decoded: a field of an event is a text or absent. An idle machine has no transaction
-- document, so a command that would print it ends with the error `no_transaction`. `rollback_plan` and its chain are
-- under Rollback.
--
-- ControlPlane/Planner is src/sourceos_boot/control_plane.py, ControlPlane/Plannable compares it
-- with a test on the document, ControlPlane/Copied and ControlPlane/Described say what a plan holds,
-- and ControlPlane/Command is `plan_control_plane` of cli.py.
-- Adapter/Handoff is src/sourceos_boot/adapter.py with `adapt_nlboot` of cli.py; Adapter/Laws says
-- when it hands over and Adapter/Records what. `str` of a value that is no text is a parameter of
-- both. The texts of their messages are left out, save for the names in them.
--
-- TrustChain is src/sourceos_boot/validate_trust_chain_boot_verification.py: TrustChain/Schema
-- `validate_schema`, over schemas of the keywords that it reads, TrustChain/Document the schema of
-- the repository (schemas/trust-chain-boot-verification-evidence.v0.1.schema.json), and
-- TrustChain/Evidence the rules for a record and `main`. TrustChain/Conforms compares the validator
-- with a relation, and TrustChain/Rules and TrustChain/Decided say what an accepted record holds.
-- ReleaseSet is src/sourceos_boot/validate_boot_release_set.py: ReleaseSet/Patterns its regular
-- expressions and ReleaseSet/Validator its checks, with urlparse as a parameter; ReleaseSet/Checks,
-- ReleaseSet/Parts and ReleaseSet/Accepted compare them with a test on the document,
-- ReleaseSet/Command goes over the files, and ReleaseSet/Digests says what the patterns of a digest
-- match. Manifest/Ratchet is
-- tools/validate_manifest_declarations.py, with the tracked files and their texts as parameters, and
-- Manifest/Holds says when it exits with 0. The recursions on JSON values and on texts are
-- structural, so none of these needs fuel.
--
-- Not modelled: argparse, printing and the reading of files; to_dict of the rollback plan and result;
-- `rollback_plan` and `rollback_execute` of cli.py, which print; the texts of
-- messages; the schemas and examples, which are data.
pub mod Ab
pub mod Adapter
pub mod Base
pub mod Cli
pub mod ControlPlane
pub mod Json
pub mod Lifecycle
pub mod Manifest
pub mod Reading
pub mod ReleaseSet
pub mod Result
pub mod Rollback
pub mod TrustChain
