-- ===== src/Lib.antt =====
-- terragraph runs Terraform nodes in the order of their dependencies and keeps a record of each
-- execution. This library models the parts of it that decide: which nodes run and in which
-- order, what may be applied, what is recorded, and what an unresolved execution holds up.
--
-- The parts, with the code they model:
--   Blueprint          internal/blueprint/types.go: references, edges, remote sources.
--   Graph              internal/graph/build.go and source.go: the graph that wiring leaves.
--   Module             internal/module/inspect.go: the variables and outputs of a module.
--   Graph.Validate     internal/graph/validate.go: `wiring_problems` is the part of Validate that
--                      looks for the supplier of each input, `conflicts` the end of
--                      backendProblems.
--   Graph.Group        internal/graph/group.go: `rewrite_edge` is rewriteEdge, `resolve_export` is
--                      resolveExport, `synthesize_schema` is synthesizeSchema, `apply_use_vars` is
--                      applyUseVars, `use_info` the end of resolveUse, `expand_edges` of build.
--   Graph.Source       internal/graph/source.go: `source_nodes` is sourceNodes, on fuel: one for
--                      each group that can be on the stack, and one for the blueprint, are enough.
--   Graph.Declared     internal/blueprint/types.go, and validateEdges and the reference checks of
--                      parseGroupBlock in parse.go: what a scope declares.
--   Graph.Build        internal/graph/build.go and backend_address.go: `build_root` is Build,
--                      `build` and `resolve_use` are build and resolveUse, Build.Settings has
--                      the settings of one node. On fuel, as `source_nodes`.
--   Graph.Topo         internal/graph/topo.go: `levels` is Levels, `topo_sort` is TopoSort.
--   Graph.Select       internal/graph/selection.go: `select` is Select, `selected_levels` is
--                      SelectedLevels, `validate_membership` is ValidateMembership.
--   Engine.Approve     internal/blueprint/approve.go, internal/engine/approve.go and IsReplace
--                      of internal/exec/runner.go: `not_permitted` is notPermitted.
--   Engine.Store       internal/engine/execution_store.go: `read`, `write`, `remove` and `list`
--                      are the methods of the local store.
--   Engine.Journal     internal/engine/execution_journal.go: `publish`, `transition` and `fail`
--                      are those of the session, `record_plugin` its recordPlugin of plugins.go;
--                      Journal.Calls is NeedsRecovery of internal/plugins/lifecycle.go.
--   Engine.Apply       internal/engine/prepared_plan.go: `apply_prepared_plan` is
--                      applyPreparedPlan, around what the runtime and the others answer.
--   Engine.Run         internal/engine/run.go: `run_levels` is runLevels; Run.Level takes the
--                      goroutines of one level step by step.
--   Engine.StoreS3     internal/engine/execution_store_s3.go: the same methods on S3.
--   GraphLock          internal/graphlock: `acquire`, `close`, `release`, `holder`.
--   S3                 the S3 client that both use, which is not part of the repository.
--   Engine.Recovery    readExecutionRecord, checkExecutionBarrier and finish of the journal,
--                      internal/engine/execution_cleanup.go and execution_recovery.go;
--                      Recovery.Outputs is recoverNodeOutputs of recovery_outputs.go.
--   Engine.Retention   internal/engine/execution_cleanup.go: `prune_executions` is pruneExecutions.
--   Engine.Begin       internal/engine/execution_journal.go: `begin_execution` is beginExecution.
--   Prelude, Tests     shared lists, strings, orders and maps; runs on small inputs.
--   Engine.SavedNode   internal/engine/saved_execution.go and plan_bundle.go: `save_frontier_node`
--                      and `apply_saved_node` are saveFrontierNode and applySavedNode.
--   Engine.Saved       saved_execution.go: `save_plans`, `apply_saved_plans`, `finish_saved_session`
--                      are SavePlans, ApplySavedPlans and finishSavedSession behind the opening
--                      of the session; Saved.Commands opens or starts it and runs any
--                      sequence of them.
-- Graph.Group turns the edges of a scope into edges between nodes, which Graph adds to the two
-- lists of each node; Graph.Validate reads the nodes with their modules and the edges. Graph.Build
-- puts these together: it resolves the nodes of a scope, builds and validates the group of each
-- `use` by itself, splices it in, and adds the edges.
-- Select reads the graph of Graph, SelectedLevels the levels of Graph.Topo. The journal keeps a
-- selection in its record and checks it by `validate_membership` when it reads the record, and
-- publishes through `write` of the store. The barrier reads all records of the store. An execution
-- starts behind the barrier and after pruning; a saved one keeps its plans in the store beside its
-- record, and applies each by `apply_prepared_plan`.
--
-- State and failures. The session with its store is passed along and returned. What the system
-- answers to the steps of a call of the store (the context, the files, the directory) is the
-- record `Io`, one for each call; the random identifiers are the argument `draw`; times are
-- numbers. An error is a value, without its text. The mutex of the store and of the session
-- makes each call one step, and the locks of a run are held by the callers.
-- What the plugins record when a mutation of a node has ended is the field `host` of the session,
-- with an `Io` for each write; it is set where a run starts its plugins. What the credential
-- plugins record while outputs are collected is a part of `Collected`. The calls at other events
-- (the preparation of a node, the admission of a plan, the end of a run) come as answers alone,
-- and are not put into the record.
--
-- Representations. Names and texts are lists of bytes, compared as Go compares strings. Maps
-- from names to lists (In, Out, degrees) are functions or association lists, and the places
-- where the source ranges over a map are followed by a sort, here as there. A record stands in
-- the store as itself where the source stores its JSON.
--
-- Bounds. The rounds of Levels and of the search of Select, and the passes of
-- ValidateMembership, are recursions on fuel with one unit more than there are nodes: a round
-- that is not the last places, reaches or settles at least one node. The nesting of groups in
-- `source_nodes` and in `build` has one unit more than there are groups, since none contains
-- itself. Where the fuel could run out the result says so, and theorems show that it does not.
--
-- Not modelled: parsing of HCL, the runtimes and the plugins behind their processes, the S3
-- client, locks and file permissions, logging and the texts of messages, and the answer of a
-- plugin to an event: they are input and output. What Build asks of the files is its argument
-- `site`, the loading of groups its argument `load`, and the checks of Validate beyond those named
-- above its argument `other_problems`. Inputs and snapshots, contracts and their merge, the
-- observation build, vendoring and the editor support are outside this library.
mod Prelude
pub mod Blueprint
pub mod Graph
pub mod S3
pub mod GraphLock
pub mod Module
pub mod Engine
pub mod Tests
