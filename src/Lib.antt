-- ===== src/Lib.antt =====
-- ani-inference-service: the lifecycle of inference services.
--
-- The service accepts commands that create, start, update, restart, stop and delete inference
-- services. Each command becomes a durable operation, which a worker executes one persisted step at
-- a time, through ports to quota, accelerator, Kubernetes, publication and model providers.
--
-- Parts and files
--   Prelude     shared names: native numbers, texts with Go's strings functions, lists, results;
--               Prelude/Rows searches tables, Prelude/Order is the order of texts.
--   Effect      computations over a state that can fail, with do blocks.
--   Gpu         internal/biz/gpu/gpu.go: requests, topologies, frozen executions and snapshots;
--               Gpu/Patterns has the regular expressions as functions on characters, Gpu/Pods
--               compares TotalPods with a specification, Gpu/Frozen has stored snapshots,
--               Gpu/Release the validation of internal/biz/gpu/release.go, Gpu/Proof its proofs, with
--               the hashes and the JSON encoding as parameters, and Gpu/Arranged reasons about these.
--   Resources   internal/biz/resources: the records; Normalize has Normalize of resources.go with the
--               quantities and names of Kubernetes as a parameter, Settled is about one resource,
--               Entries about all. Aggregate has Aggregate of aggregate.go and ValidateCreate of
--               internal/biz/admission/admission.go; Scaled, Demanded and Counted reason about them.
--   Operation   internal/biz/inference/operation.go: kinds, phases, steps, paths, and
--               ValidateOperationStepTransition. Operation/Edges is the diagram without the lists;
--               Operation/Soundness and Operation/Completeness compare the two. Operation/Store has
--               internal/data/postgres/operation_state.go with its statements; Standing and
--               Persisted say where durable operations can stand. ReleaseScope has the Pods of a
--               managed GPU release in internal/data/postgres/operation_store.go with their
--               statements, MergedPods and SavedPods reason about them. Audited has its stepWithAudit,
--               a step and its audit event in one transaction; Replaced, Journaled and Recorded reason
--               about it, with Stepped and Deleted, which say without its statements what a step
--               finds and leaves.
--   Failure     the error values of the runner, with errors.Is and errors.Join.
--   Runner      internal/biz/inference/runner.go. State has its records, World its ports, calls and
--               the effect monad, Ports the calls. Quota, Release, Provision, Expose and Teardown
--               have one function for each case of runStep, and Execute has transition, retry and
--               Execute. Inversion has the rules of reasoning, Leads and Successor say where a step
--               leads, StepCalls which calls it makes, Discipline in which order, Evidence what a
--               step has done when it succeeds, Loaded how an execution begins, Moves how often it
--               changes the durable step, and Retry what a failed step leads to.
--   Work        the statements on inference_resource_work: Table has the tables, Claim the statement
--               ClaimResourceWork, Settle the others of internal/data/postgres/work.sql.go and
--               inference.sql.go, History sequences of them. Rows, Keys and Invariants reason about
--               all rows. Scheduled and Liveness are about recurring work, Notified about
--               notifications, Fence, Held and Exclusive about leases. Store has WorkStore
--               (work_store.go), Worker RunOnce of internal/biz/work/worker.go and loop.go over any
--               store; Completion and Pass are about their results. Recover has Recover and Repair,
--               Listed, Recovered, Appended, Repaired and Restored reason about them; Loop has
--               Loop.Run, with a unit of fuel for each round, and Ended shows how many rounds are enough.
--   Reconcile   internal/biz/reconcile/reconcile.go over any repository and runtime; Saved is
--               about its success.
--   Access      internal/biz/accesskey: Bytes, Base64, Key and Secret have secret.go, Issue, Service,
--               Operations and Check access_key.go over any repository and policy. Laws says what
--               is relied on of the cipher, RoundTrip and Verified are about single secrets, the
--               others about the operations.
--   Names       lists of names, as Go code sorts and searches them, with Names/Sorted.
--   Policy      internal/biz/accesspolicy/policy.go. Trim is about trimmed names, Normal and Again
--               about Normalize.
--   Command     internal/data/postgres/command_usecase.go as a transaction: Database has the tables,
--               Model the input, Accept the operations with their statements. Rows, Stages,
--               Prepare, Accepted and Outcome reason step by step, Promise says without the code
--               what a command promises, Results, Repeats and Fence are about a whole command.
--   Contract    api/inference/contract/v1/managed_contract.go: Topology has NormalizeTopology.
--   Examples    concrete worlds and operations, and the theorems at these.
--
-- State and effects. A port of the runner is a function of the history of calls made so far, which
-- covers every deterministic environment; a computation takes the history and returns a result and
-- the longer history. Go's string types with constants are data types with a constructor for any
-- other string. Nil pointers are `none`, errors are values, maps are lists of entries. Generations,
-- versions and attempts are native numbers; replica counts, which the code tests for negative
-- values, are integers. JSON that is only stored is kept as the record it encodes, and error texts
-- as the errors. Fuel is taken by Loop.Run, as above, and by the decimal digits of a number
-- `n`, which has fewer than `n + 1` of them.
--
-- A statement on the work tables is a function of the tables and of one clock_timestamp(); times are
-- microseconds and versions unbounded. Concurrent transactions are sequences of statements, and the
-- rows that another transaction has locked a parameter of the claim.
--
-- The cipher, the hash, the random bytes and the parsing of identifiers are parameters, the first
-- three with the laws of Access/Laws. A transaction of Command is a function of the tables that
-- leaves them as they were where it fails; a lost connection is not modelled, an advisory lock does
-- nothing, generations are below 2^63, the columns that no modelled code reads are left out, and
-- acceptManagedDelete is a parameter. The JSON column of a release's Pods is a data type.
--
-- Not modelled: internal/biz/state, which no other package imports, the validation of a refund,
-- creating and updating services, reading queries, the stores of access keys and
-- policies, payloads and their validation. The Kubernetes adapters, the clients of other services,
-- transport, configuration and generated code apart from the SQL statements named above are ports
-- here or glue. Metrics change no state of the program.
pub mod Prelude
pub mod Gpu
pub mod Resources
pub mod Failure
pub mod Runner
pub mod Operation
pub mod Names
pub mod Policy
pub mod Work
pub mod Effect
pub mod Access
pub mod Reconcile
pub mod Command
pub mod Contract
pub mod Examples
