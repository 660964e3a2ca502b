-- ===== src/Lib.antt =====
-- The consumer side, the thing model, the real-time rules and the commands of harns: how the running
-- consumers share out the job identifiers, the jobs that they write, read back and run, the aggregates
-- that a rollup job computes, the thing types and things with their parents, the table of expressions
-- that rules put at incoming data, and the command types with the commands that are delivered.
--
-- Parts, and the files of the repository that they are about:
--
-- Prelude: Boolean tests, lists, maps, bits, integers and decimal text over the native numbers, and
-- `Outcome`, the value, the error or the panic of a Go function.
--
-- BitSet (pkg/util/bitset/bits.go): `BitSet` with `New`, `Get`, `Set`, `Clear`, `SetValue`, `Clean`,
-- `NextSet` and `NextClear`. BitSet/Words, BitSet/Access, BitSet/Find and BitSet/Search hold the
-- proofs. `String` is not modelled.
--
-- Registry (pkg/consumer/instance/registry.go and consumer.go): `allocateIDs` as a function from the
-- table that `read` returns to the table that `write` stores, with `findByName`, `collate`,
-- `allocate` and `getLockedIDs`. It takes identifiers from the bit set. Registry/Holders counts who
-- holds an identifier; Registry/Growth and Registry/Release are about the two loops of `allocate`.
--
-- Job (pkg/consumer/job): job.go and constants.go are Job (the types and tables), Job/Text (`String`
-- and `Of`), Job/Clock (time blocks and due times), Job/Hash (`consumerID`) and Job/Make (the
-- constructors); manager.go is Job/Manager, whose cache decides which jobs reach the log storage, and
-- whose `Query` keeps of pkg/logstorage/query/range.go the table, the worker, the times and the limit.
-- Job/RoundTrip, Job/Schedule, Job/Cache, Job/Once and Job/Retrieve hold the proofs. The identifiers
-- that the registry gives out are the worker identifiers of the jobs.
--
-- Rollup (pkg/consumer/data/rollup.go and types.go): Rollup/Booleans is `aggregateBool`,
-- Rollup/Numbers is `aggregateNumeric`, `rollupNumeric` and `toFloat64`. Rollup/Durations,
-- Rollup/Extremes and Rollup/Partition hold the proofs; Rollup/Stored is about the items as they come
-- back from the JSON that `persistRollup` writes.
--
-- Generic (pkg/generic/utils.go): the removals from a list and the differences and the intersection of
-- two lists, with the proof in Generic/Sets. The order of a map is a parameter.
--
-- Thing (pkg/model/thing, pkg/model/runtime and pkg/model/v1): Thing holds the data. Thing/Types is
-- manager.go on thing types, Thing/Inherit the walks up the parents, Thing/Sorter and Thing/Filter
-- are filter.go with `GetThings` and `GetThingTypes`, Thing/Things and Thing/Update are manager.go
-- on things with `Update` of rest.go and `ValidateThingUpdate` of pkg/model/validation, Thing/Rows
-- is `getThingCharacteristics`. The proofs: Thing/Forest and Thing/Lineage (the parents of thing
-- types), Thing/Nearest and Thing/Walks (what is inherited), Thing/Indexed and Thing/Reindex (the
-- maps beside the lists), Thing/Children, Thing/Below and Thing/Cycle (`isMyChildThing`),
-- Thing/Stored, Thing/Moves, Thing/Acyclic, Thing/Creation, Thing/Runs, Thing/Orphans and
-- Thing/Tree (the parents of things), Thing/Values (an update of the characteristics). An update
-- takes its parts from Generic. What the repository answers, the new identifiers and the clock are
-- fields of `Env` and `ThingEnv`.
--
-- RealTime (pkg/data/realtimecomputation/rule.go, pkg/rule/runtime and pkg/rule/validation/parser.go):
-- RealTime holds the data, RealTime/Operands is `Parse` and the reading of operands, RealTime/Paths is
-- `path.Join` of the standard library, RealTime/Rules the handlers and `processEvent`. RealTime/Removal
-- is about the loop that swaps a rule's expressions out, RealTime/Keys, RealTime/Rounds and
-- RealTime/Collected about the loops over keys, RealTime/Events about deletions and updates,
-- RealTime/Mentions, RealTime/Effects, RealTime/Handled and RealTime/Process about any event; a removal carries a rule with
-- the identifier only, as pkg/generic/store.go sends it (`removed_rule`). The new and old keys of a
-- rule are split by Generic. The order in which maps are visited is a parameter, and so is the PromQL
-- parser.
--
-- Control (pkg/control/command, pkg/control/runtime and pkg/control/v1): Control holds the data,
-- Control/Values the loops of `deliverCommand`, Control/Deliver `deliverCommand` and `dispatchCmd`,
-- Control/Create `createCommandType`, Control/Delete `deleteCommandType` and `DeleteCommandTypes`, of
-- which the jobs are kept as a list of identifiers. Control/Legal, Control/Refused, Control/Accepted, Control/Required,
-- Control/Options and Control/Delivered are about the options of a command, Control/Names and Control/Taken about the names of
-- the options of a command type. Things and thing types are those of Thing.
--
-- The runs and the theorems at concrete inputs are in the module Tests of each part, and in Thing/RunTests.
--
-- Numbers: `uint` words keep 64 bits and `uint16` identifiers are taken modulo 2 ^ 16. Times are
-- natural numbers since 1970, so earlier times and the overflow of int64 are not modelled. Differences
-- of times and block indexes are integers. Floating-point numbers are a parameter (`Floats`); what is
-- assumed of their order (`IsOrdered`) holds of float64 without NaN. A location has a fixed offset from
-- UTC (`FixedZone`); zones that change to daylight-saving time are not covered. The walks along parents, which have no bound in the code, run on fuel: those up the thing types
-- return with one round for each thing type and one more, and the search below a thing returns with
-- some fuel on every map that the operations make. Every other loop is a recursion on a list or on its
-- number of rounds; the loop that swaps expressions out has one round for each expression, and the scan
-- for operands one for each byte, which is proved to be enough. The walks of `createCommandType` run on
-- fuel, and `endless` says that it is used up.
--
-- Not modelled: the log storage and its JSON (a list of rows or statements, or what it lists for a
-- query, stands for it; of the JSON of rollup items, that numbers come back as float64), the
-- goroutines and the races on the cache, `rollupBool`, `GetRollupsOnTheFly` and `Rollup` of
-- pkg/consumer/data/rollup.go, and the other packages. Of pkg/model/thing: the update of a thing type,
-- the filter by a type and those below it, the event loop, the index at start, and what a deletion
-- starts on its own for jobs, agents and other things. White space and names of time zones are those of
-- ASCII and of a parameter. Calls on things, events of rules and requests for commands come one after
-- the other. Of the rules: the evaluation of expressions, the actions and the manager of rules. Of the
-- commands: the update and the listing of command types, which share pointers, and the
-- history. Numbers of a request are a parameter, as floating-point numbers are.
pub mod Prelude
pub mod BitSet
pub mod Registry
pub mod Job
pub mod Rollup
pub mod Generic
pub mod Thing
pub mod RealTime
pub mod Control
