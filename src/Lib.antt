-- ===== src/Lib.antt =====
-- A verification library for chronos-code, a coding agent for the terminal. It models the parts
-- that decide what the agent may do, what it may spend, and when it may call a task done.
--
-- The program's parts and how they interact. A task runs under an evidence ledger
-- (internal/execution/ledger.go): each write, call and check becomes an event, and Reduce turns
-- the ordered events into a state that says which checks are still current. The file store
-- (internal/execution/ledger_store.go) keeps the events as lines of a file, and Open replays them.
-- The completion policy (internal/verification/policy.go) derives the checks that a change needs
-- and compares them with the events before a task may end in success. The task budget
-- (internal/execution/task_budget.go) counts steps, tokens and cost; the session budget
-- (internal/budget/budget.go) prices model calls and reserves their cost under a cap. A delivery
-- (internal/execution/delivery_domain.go) is the durable form of a task, with states and
-- requirements, whose queue (internal/execution/delivery_queue.go) leases it to one worker at a
-- time over the tables of the store (internal/execution/delivery_store.go), and an event stream
-- (internal/execution/envelope.go) reports a run to its caller. The security policy
-- (internal/security/policy.go) is an embedded floor narrowed by layers, decides which servers of
-- tools are trusted, and, with internal/security/permissions.go, whether a shell command runs, is
-- asked about or is denied. The claims store (internal/claims) keeps what the agent believes of
-- the code, anchored in spans of files, and marks a belief when its text changes. Retention
-- (internal/retention/retention.go) chooses the records to remove.
--
-- Files:
-- - Base and its children: shared names, tests, lists, bytes, maps as association lists, integers
--   of 64 bits, results. FilePath: the functions of Go's path/filepath that the program calls, on
--   Unix. Decimal: the %d of an unsigned number.
-- - Ledger: Event (Event, validateEvent), Scope (ScopesOverlap, VerificationInputsOverlap), Reduce
--   (Reduce), Store (Ledger, Append, Record), FileStore (loadLocked, Open, AppendEvent). The
--   proofs stand in Step, Currency, History, Inside, SharedPath, Recording, Recorded and Recovery.
-- - Policy: Obligation (matches, covers, overlap), Derive (Derive), Assess (Reduce, Assess);
--   proofs in Support.
-- - TaskBudget: all of task_budget.go; proofs in Counting.
-- - Budget: Price (sumScaled, cost, costWithCache), Tracker (Reserve, ReconcileUsage, Before,
--   After, Level); proofs in Sum, Cap, Reserve and Settle.
-- - Delivery: Domain (Transition, validateRequirement); proofs in Lifecycle and Requirements.
-- - Queue: Rows (the tables and the values), Cases (the rows of one key), Journal (transitionInTx,
--   appendDeliveryEvent), Loading (loadDelivery), Selection (the query of Claim), Worker (Claim,
--   Heartbeat, Checkpoint, PublishResult), Outcome (TransitionLease, Release, Finalize), Service
--   (QueueAdmitted, SignalWaiting, Cancel, Load), Replay (ReplayDelivery), Admit (Admit,
--   AdmitRunnable, normalizeAdmission), Append (AppendEvent), Steps (the queue over time); proofs
--   in Epochs, Evolution, Endings, Admitted, Claimed, Fencing, Order, Due, Sorted, Claiming,
--   Replays, Projection and Refinement.
-- - Envelope: NewEvent and ValidateEventOrder; proofs in Order.
-- - Claims: Anchor (hashSpan, hashAnchor, locate, normalizePath), Store (Add, Get, List, Refresh,
--   applyDerived); proofs in Window, Locate, Ordered, Refreshed, Kept and Added.
-- - Retention: selectCandidates; proofs in Selected and Limits.
-- - Security: Rules (Policy, policyYAML, union, difference, firstNotIn, validateNarrowerPaths),
--   Paths (pathWithin), Overlay (applyOverlay, compile, ResolvePolicy), Mcp (MCPServerIdentity,
--   DecideMCPServerIdentity and the grants of trust); Shell (analyzeShellCommand), Command
--   (interpretedSegments, checkShellArgs, CheckContext for the shell tools); proofs in Sets,
--   Allowed, Ratchet, Resolve, Mcp/Identity, Mcp/Trust, Unbroken, Auto and Pieces.
-- - Examples: the definitions run on concrete inputs, and the theorems applied there.
--
-- How the model reads Go. A struct is a record; a method returns the value after it. A string is
-- its list of bytes; a string type with named values is a data type with a constructor `other` for
-- the values without a name. A map is an association list. A time is a number of nanoseconds with
-- 0 for the zero time, and the clock's answer is an argument. int, int64 and uint64 keep their 64
-- bits and their wrap-around; the hypotheses of a theorem say where sums must fit. A method that
-- holds a mutex throughout is one step. Loops over slices are recursions on lists, so nothing runs
-- on fuel but the digits of a decimal number, which get one more than the number's value, and the
-- loop of locate over the windows of a file, which gets as many rounds as there are windows.
--
-- The tables of the deliveries are one list of cases, each with the rows under one primary key; a
-- transaction is one step, whose error leaves the store. A time in a row of the queue is the text
-- that SQLite compares byte by byte; epochs, attempts and sequences count from 0 by SQLite's sums,
-- which do not wrap around. A delivery's goals, requirements and decisions are kept in the order
-- of their insertion, and loadDelivery sorts them by their keys. Times are read back as they were
-- written.
--
-- Parameters stand for code that is not in the repository: the coding of JSON, the format of
-- times, the hash of an admission, the sink of a ledger, which texts compile as regular
-- expressions, the hash of an identity and of a span of lines, the contents of the workspace's
-- files, the token counts of the library chronos's model.Usage, and floating point.
--
-- Not modelled: the file system beyond one file's bytes, SQL beyond the statements of the delivery
-- queue, its failures, networks, processes, terminals and language models; the mutex and the
-- scheduling of goroutines; the texts of error messages. strings.ToLower, strings.TrimSpace,
-- strings.Fields and bytes.TrimSpace are those of ASCII texts, where Go's also know Unicode's
-- white space and case.
pub mod Base
pub mod FilePath
pub mod Decimal
pub mod Ledger
pub mod TaskBudget
pub mod Delivery
pub mod Policy
pub mod Queue
pub mod Security
pub mod Budget
pub mod Envelope
pub mod Examples
pub mod Claims
pub mod Retention
