-- ===== src/Lib.antt =====
-- DDSleuth decides from the recorded events of a DDS Security experiment whether the middleware
-- under test kept its promises. This library models the part that decides: the data model of a
-- scenario and of the evidence, the policy semantics, the ten oracles, and their evaluation; and of
-- the parts that prepare and drive a run, the parsing of a scenario, the pairwise choice of its
-- cases, the assignment of their values, the schedules of its trajectories, the waiting for barriers
-- and the reduction of a run that shows an artifact.
--
-- How the program's parts interact. A run yields events. `EvidenceBundle.create` numbers them and
-- an evidence file holds them as JSON. `evaluate` refuses evidence of another scenario, asks the
-- registered oracle of each assertion for a result, gathers failed and incomplete processes, and
-- combines all of it in one verdict. The oracles read the events and the declared policy only.
--
-- Which file models which part:
--   Json               JSON values and mappings as Python holds them
--   Model              the records of src/ddsleuth/models.py; Model/EventKind its event vocabulary
--   Evidence           src/ddsleuth/evidence.py and the dictionaries of an event;
--                      Evidence/RoundTrip and Evidence/Sequencing prove
--   Semantics          src/ddsleuth/semantics.py; Semantics/Glob is `fnmatchcase` of the standard
--                      library, and Semantics/Permissions proves
--   Fingerprints       the fingerprint prefix of src/ddsleuth/fingerprints.py
--   Oracles/Base       src/ddsleuth/oracles/base.py
--   Oracles/RecipientBinding, Authorization (unauthorized_key_disclosure), Impersonation,
--   ObserverHealth, PolicyConsistency, Lifecycle, KeyScope, TokenTransport, EndpointLifecycle and
--   SessionRotation    one oracle each, the file of src/ddsleuth/oracles with that name; the
--                      child Verdict proves when it reports a violation and when it passes.
--                      SampleDelivery is the search within the loop of session_rotation.py
--   Oracles/Evaluate   src/ddsleuth/oracles/evaluate.py; its child Capabilities is `_capabilities`,
--                      Guards and Completion are lemmas and Verdict proves
--   Matrix             `_pairwise_rows` of src/ddsleuth/matrix.py; Matrix/Pairs and Placing are
--                      about the sets of pairs, Filling about one row, Covering, Rounds and Rows
--                      about all of them.
--                      Matrix/Path is `_set_path`
--   Coordination       src/ddsleuth/coordination.py: `wait_for_barriers`, with the rounds given by
--                      what each poll observed (Waiting, Exited and Released prove), and in Monitor the
--                      polls of the logs (Chunks proves). Json/Equality is Python's `==`
--   ScenarioParser     `parse_scenario` of src/ddsleuth/scenario.py: Values are its single checks,
--                      Participants and Roles its parts; WellFormed says what it promises, Checks
--                      and the children Guarantees are lemmas, and Accepted proves
--   Artifacts          the record of an artifact, of src/ddsleuth/artifacts.py
--   Reduction          src/ddsleuth/reduction.py: Plans reads and changes the actions of a document,
--                      Loop takes actions away, Schedule brings times down; Reproduced, Preserved and
--                      Minimized prove what is kept, Minimal where the loop stops, and Removal what
--                      a removal leaves
--   Trajectory         the schedules of src/ddsleuth/trajectory.py. Descriptors lists them (Sameness is
--                      their equality, Enumerated proves which there are), Causal applies a crossing
--                      of two actions (Positions, Times and Retimed are lemmas, Crossing proves),
--                      Inferred finds the crossings (Crossings are lemmas, Adjacent proves), Schedule
--                      applies a schedule (Later are lemmas, Applied and Ordered prove), and Selection
--                      keeps to the budget (Bounded and Covered are lemmas, Full proves)
--   Prelude            shared names, loops that append, sets, Python's int, results
--   Samples, Tests     a small experiment, and the theorems applied to it
--
-- How the code is rendered. An oracle's `evaluate` is a function of the scenario, the assertion and
-- the bundle. A loop over `enumerate(events)` that appends is `collect` with its body as a function
-- into Option, one for each list that it appends to; a `continue` is none. A dict is an association
-- list in insertion order, a set in a result is sorted without duplicates. An exception is a value
-- of an error type. Python's int is a whole number of any size, and a float a multiple of 2^-1074
-- or one of the values that are no numbers. Every loop over a list is structural recursion. The
-- loop of `_pairwise_rows` has fuel, the number of open pairs, and it is proved that this is
-- enough: each row covers its seed, so each round leaves fewer pairs open. The loop of
-- `wait_for_barriers` has no bound but the clock, so its rounds are those of the observations that
-- it is given. The first loop of the reduction has fuel, the executions that it may take, and it is
-- proved that this is enough, since each of its rounds takes one. The executor is an argument, by
-- the number of the execution and the document. The rounds of the selection of trajectories have
-- the budget as fuel, since each adds one or is the last, and Full proves that they end so. A sum
-- of times is rounded as a double is.
--
-- What is not modelled: files, processes, clocks, certificates and the command line, which are
-- input and output; the other parts of the program before and behind a run (the cases that a row
-- stands for, the candidates that a schedule yields, campaigns, coverage, the discovery of
-- artifacts), which this library does not reach; HMAC in the fingerprints; `json.loads` of the
-- bytes of a log's event, a parameter; SHA-256 in the digest of a scenario, which is a parameter of
-- the parser; and in the trajectories, whose parameters are the first byte of the digest of an
-- action's name, and the digests that a candidate is ranked and grouped by. The `to_dict` methods
-- of the evaluation report copy its fields.
mod Prelude
pub mod Json
pub mod Model
pub mod Evidence
pub mod Semantics
pub mod Oracles
pub mod Matrix
pub mod Coordination
pub mod ScenarioParser
pub mod Artifacts
pub mod Reduction
pub mod Trajectory
pub mod Fingerprints
mod Samples
mod SampleDocument
