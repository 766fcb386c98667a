-- ===== src/Lib.antt =====
-- Verification of the control logic of hexaqueue, a batch queue for jobs and distributed test runs.
--
-- The program. Jobs wait in a queue until a scheduling cycle gives them slots of the cluster; their
-- states follow a fixed machine, which the controller leaves only where a node dies, a job is placed or
-- a run is rewound, and roll up into the state of a run. A job may wait for others in a
-- dependency graph. What jobs cost is held and settled in a ledger of tenants. The tests of a run
-- are cut into slices, which a coordinator leases to workers until each has been reported.
-- A job that starts is placed on a worker node, one with its files in the cache if there is one. The
-- scheduler reads the life cycle only through its lists of pending and running jobs; the dependency
-- graph reads the outcomes of the life cycle; the ledger and the coordinator are called by the server
-- with identifiers; the autoscaler sizes a pool of nodes for the waiting jobs, within the balance
-- that it reads from the ledger. The controller puts these together: it takes runs, keeps their jobs
-- and graphs, queues the jobs that are ready, holds and settles their cost, places them on nodes, and
-- recovers those of nodes that die. The free-tier governor places jobs on the clouds whose free caps
-- leave room for them.
--
-- Files and code. Paths are from the repository's root, with core for
-- packages/hexaqueue_core/src/hexaqueue_core and server for
-- packages/hexaqueue_server/src/hexaqueue_server.
--   Job                core/domain/job.py: the fields of JobSpec that the scheduler reads
--   Scheduling/Pool    core/domain/scheduling.py, class ResourceSlotPool
--   Scheduling/Priority  core/domain/priority.py, class JobPriorityCalculator
--   Scheduling/Preemption  scheduling.py, class ControlledPreemptionEngine
--   Scheduling/Backfill    scheduling.py, class ConservativeBackfillScheduler
--   Scheduling/Engine, Scheduling/Cycle  scheduling.py, class BatchSchedulerEngine; a method keeps its
--                      name without the leading underscore, and `_calculate_anchor_reservation_window`
--                      is anchor_reservation_window
--   Placement/Node     core/domain/node.py
--   Placement          server/domain/placement.py
--   Lifecycle          core/domain/lifecycle.py
--   Dag, Dag/Sorting, Dag/Downstream  core/domain/dag.py, class JobDagEngine
--   Controller         server/adapters/local.py, class LocalSchedulerControllerAdapter: its state, and
--                      the queue of core/adapters/queue/in_memory.py
--   Controller/Advance, Budgets, Runs, Jobs, Nodes, Rewind, Status  its methods, by their names without
--                      the leading underscore
--   Controller/Commands  its calls as data, and histories of calls
--   Budget/Reservation core/domain/budget.py; its methods settle_segment and release are
--                      add_segment and release_hold
--   Budget/Ledger      core/adapters/budget/in_memory.py, class InMemoryBudgetAccountingAdapter
--   Autoscaler         server/domain/autoscaler.py, core/domain/pool.py and core/ports/pool.py
--   Fairshare          core/domain/fairshare.py: the nodes of FairShareTree, add_node and record_usage
--   Freetier           core/domain/freetier.py: the profiles, and class FreeTierGovernor for one provider
--   Freetier/Mesh      core/adapters/freetier/governor.py, class MultiCspFreeTierGovernor
--   Leases/Model       core/domain/lease.py
--   Leases/Coordinator, Leases/Reports  server/domain/lease_coordinator.py
-- The other files of a part hold its proofs, and Examples and Defects the runs at concrete inputs.
-- Prelude has the shared lemmas on lists, dictionaries, sorting and integers.
--
-- How state is modelled. An object with fields is a record, and a method that mutates it returns the
-- new record beside its result; the slot pool that the scheduler shares with its parts is passed
-- through them. A dictionary is an association list in the order of insertion; a list sort is a
-- stable insertion sort by the same key. A raised error is a value (`raised`, or `none` where there is
-- one error), and the state is the one before the call, except that a report of a slice with an entry
-- that does not fit raises when its lease is gone already. An asynchronous method that runs under the
-- lock is one step, so an interleaving of callers is a list of calls.
--
-- How values are modelled. A time is a whole number of clock ticks, and the clock is an argument; so
-- is a fresh identifier, with its freshness as a hypothesis where a property needs it. Floats are
-- fixed-point numbers in millionths, so rounding errors of floats are not seen. Identifiers that are
-- only compared are numbers, whose order stands for the order of strings, and 0 for a blank one.
-- Integers are Python's, unbounded. Loops are over lists, and so need no fuel, except the loop over the
-- queue of the topological sort, which has one unit of fuel for each job, and each round sorts a job
-- that was not sorted before; the search for dependents, with a unit for each root and each job with
-- dependencies; and the passes over the dependents of a run, each of which but the last blocks a job.
-- The loop from a node of the fair-share tree to the root has a unit for each node, which is enough where
-- no node is its own ancestor.
--
-- Parameters. The fair-share factor of a user is any function; the addresses from the collateral
-- service and the storage port are any functions to optional addresses; the governor of a pool is any
-- record of its operations over any type of clouds; the controller's cost model is any record of two
-- functions, and its free-tier check any predicate of a job.
--
-- Not modelled: the decay, the normalized shares and the factor of the fair-share tree; job groups and
-- suites; of the controller the collateral bundles, the notifications, the telemetry and the simulation
-- of placements; and the command line, network, database and cloud adapters, which are input and output.
pub mod Prelude
pub mod Job
pub mod Lifecycle
pub mod Dag
pub mod Controller
pub mod Fairshare
pub mod Freetier
pub mod Scheduling
pub mod Placement
pub mod Leases
pub mod Budget
pub mod Autoscaler
