-- ===== src/Lib.antt =====
-- Verification of the deterministic execution kernel and of the state machines around it.
--
-- The program lets a planner propose steps and a kernel execute them. `kernel_step` of
-- rfsn_kernel/kernel.py is the only path to execution: it normalizes the raw step, checks the tier's
-- budgets and gate, validates, simulates, scores the risk, decides, executes through a callback,
-- verifies, and writes a record to a hash-chained ledger on every path. Beside the kernel stand the
-- circuit breaker of the services, the phase tracker of the orchestrator, the repair loop, a
-- replicated log, the agent's memory, the monitor of its health and the swarm of agents.
--
-- Files and sources:
--   Base            shared names, lists, dictionaries, texts as code points, Python's integers and
--                   floats
--   Ledger          rfsn_kernel/hard_ledger.py: LedgerRecord, HardLedger.__init__ (load, init),
--                   append (seal, append) and verify_chain; the file is a list of lines
--   Kernel/State    rfsn_kernel/state.py: Proposal, SystemState, Outcome
--   Kernel/Policy   the keys that the code reads of the policy dictionary
--   Kernel/Simulate rfsn_kernel/simulate.py, with OutcomeHistory in Simulate/History
--   Kernel/Risk     rfsn_kernel/risk.py
--   Kernel/Decide   rfsn_kernel/decide.py
--   Kernel/Verify   rfsn_kernel/verify.py
--   Kernel/RunState rfsn_kernel/run_state.py: the table of runs; an assignment through the object
--                   that `get` returns is a write to the table
--   Kernel/Tier     rfsn_kernel/tier_policy.py
--   Kernel/Registry rfsn_kernel/tool_registry.py
--   Kernel/Validate rfsn_kernel/validate.py, with the reading of patches in Validate/Patch
--   Kernel/FailureKinds  rfsn_kernel/failure_kinds.py
--   Kernel/Normalize     rfsn_kernel/normalize.py
--   Kernel/Core     rfsn_kernel/kernel.py: HardKernel and KernelStepResult as records
--   Kernel/Guard    kernel_step: the tier's budgets and gate
--   Kernel/Commit   _append_kernel_event and _commit_ledger
--   Kernel/Settle   kernel_step: from the outcome of an execution to the tier of the run
--   Kernel/Reject   kernel_step: the records of a step that is not executed
--   Kernel/Step     kernel_step itself; its proofs are in Step/Course (the four courses of a step),
--                   Step/Safety, Step/Loop, Step/Bounds, Step/Audit, Step/Synced and Step/Tiers
--   Kernel/Control  __init__, reset_for_run, reset_for_iteration, end_run
--   Repair          rfsn_kernel/repair_loop.py
--   Breaker         system/circuit_breaker.py
--   Phase           services/orchestrator/phase_tracker.py
--   Scheduler       rfsn_kernel/scheduler.py
--   ModelCheck      rfsn_kernel/model_check.py
--   Consensus       services/consensus/deterministic_consensus.py
--   Swarm           rfsn_kernel/swarm/protocol.py and the results of coordinator.py;
--                   Swarm/Coordinator is SwarmCoordinator, and Swarm/Debate the protocol of one
--                   subtask
--   Healing         rfsn_kernel/self_healing: Signals, Memory (FailureMemory) and Core
--                   (SelfHealingCore)
--   Replay          rfsn_kernel/replay.py, with read_all of hard_ledger.py
--   Dispatcher      rfsn_kernel/dispatcher.py
--   HashChain       rfsn_kernel/ledger_chain.py
--   Gate            rfsn_swebench/gate.py: diff_analysis; Gate/Decide is patch_risk_gate
--   Minimize        rfsn_kernel/patch_minimize.py
--   Memory          rfsn_kernel/memory.py: Score, Immune (the operations that change the state),
--                   Retrieve, Persist (save and load) and Frustration
--   Tests           tests and concrete uses of the theorems
--
-- State is passed explicitly: `kernel_step` takes a kernel and a world and gives a result, a kernel
-- and a world, where only the execution callback changes the world. Numbers are the native natural
-- numbers; Python's integers that can be negative are the ℤ of Base/Int. A time is a count of one
-- clock unit, or a float where the program computes with it, and the clock is read once in a step.
-- The agents of the swarm take and give a world, and are assumed to return. All loops are structural
-- recursions; those of the model checker are on the source's own bound `max_states`.
--
-- Parameters stand for what the repository does not implement: SHA-256 (of which only the length of
-- a digest is used), the canonical JSON texts, the HMAC signature, floats, the tables of Unicode,
-- regular expressions, `fnmatch`, and the execution callback, which returns an outcome or raises.
--
-- Not modelled: the loading of the policies from YAML, the texts of messages, the statistics for
-- display, the branch of `simulate` for memory entries, which the kernel
-- never passes, append_save of the memory, whose list of unsaved entries shares them with the store,
-- the exceptions inside the dispatcher's handlers, values that `int` refuses in the states of the
-- repair loop and the outputs of executors, ledger records that lack a key which the ledger always
-- writes, the services over HTTP and the planner.
pub mod Base
pub mod Breaker
pub mod Phase
pub mod Repair
pub mod Consensus
pub mod Scheduler
pub mod Swarm
pub mod Healing
pub mod Memory
pub mod ModelCheck
pub mod Ledger
pub mod Replay
pub mod HashChain
pub mod Dispatcher
pub mod Gate
pub mod Minimize
pub mod Kernel
pub mod Tests
