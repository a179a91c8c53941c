-- ===== src/Lib.antt =====
-- codewatch: a command line tool that indexes a TypeScript repository into a graph of its code,
-- draws views of the graph, audits the code, has a language model triage the findings of the
-- audit, and evaluates agents on coding tasks. This library models the parts that compute: each
-- file names the source that it models, and a definition has the source's name in snake case.
--
-- The parts and their files
-- Base (Lists, Maps, SortedKeys, Missing, Tally, Equality, Sort, Text, Numeral, Prefixes, Int):
-- what the parts share. A Map or an object is an association list in the order of insertion; a Set
-- is a list without repetitions; a text is a list of characters; `sort` with a comparator is a
-- stable insertion sort.
-- Graph: the nodes, edges and metrics of a snapshot (@titan-design/code-graph) as packages/render
-- reads them.
-- Render: the views of packages/render/src. Collapse has what the collapses share: an index of
-- files by group, and one weighted edge for each pair of groups. Packages is collapse-packages.ts,
-- Directories is collapse-directories.ts, Focus is focus-package.ts, Barrels is barrel-resolve.ts,
-- Diff is the union and the statuses of diff-snapshot.ts, and Snapshots its loadDiff and
-- resolveSnapshot over the reads of an opened store.
-- Triage: the triage of packages/cli/src/commands, in the order of a run. Questions is the table
-- of triage-questions.ts; Select is triage-select.ts, which chooses the files; Persist.skip_judged
-- takes out what already has a verdict; Excerpt is triage-excerpt.ts and the packing of triage-
-- bundle.ts, which prepare what a reader is shown; ControlPick is triage-control-pick.ts, which
-- plants controls; Verify is triage-verify.ts with redactSpec of triage-spec.ts, which checks a
-- reader's output; Score is triage-score.ts, which scores the controls; Persist is triage-
-- persist.ts, which merges and stores the verdicts; Run has the pure steps between them, of
-- triage.ts, triage-plan.ts and triage-output.ts; Keys is triage-keys.ts.
-- Audit: Score is audit-score.ts, whose ranks Triage.Select reads; GraphWalk is audit-graph-
-- walk.ts; Changed is audit-changed.ts, whose hunk headers HunkHeader reads.
-- Arch: Domains is graph-arch-domains.ts; Split is graph-arch-split-filter.ts; Evidence is graph-
-- arch-split.ts, which Split filters.
-- Dashboard: the payload of the dashboard, packages/cli/src/commands/dashboard-*.ts. Report has
-- the records that the report hands over; Context is the data of a snapshot that dashboard-
-- payload.ts reads once, with the metrics of NodeMetrics and the symbols of Exports, both of
-- dashboard-node-metrics.ts, and of Coupling, dashboard-symbol-coupling.ts; Health is dashboard-
-- health.ts; Payload is buildPayload, which puts these together for one churn window; Windows is
-- computeWindowPayloads, which builds one for each window, and dashboard-windows.ts.
-- Commands: other commands of the same folder. Coupled is graph-coupled.ts, Relevant is graph-
-- relevant.ts, Check is the choice of snapshots of graph-check.ts.
-- Eval: packages/cli/src/eval. TaskType is coding-task-type.ts, Grader is grader.ts and retrieval-
-- grader.ts, Impact is impact-grade.ts, Stratify is stratify.ts, Gate is coding-gate.ts with the
-- choice of commands of coding-pm.ts, and Ledger with Json is coding-ledger.ts. Screen is coding-
-- screen.ts over Hardness, which is coding-hardness.ts with the import specifiers of coding-
-- mine.ts in Imports; TaskType reads what Screen found. Localize is coding-localize.ts. Reach is
-- coding-reach.ts, which follows the specifiers of Imports, also into the packages of Workspace,
-- coding-workspace.ts.
-- Mcp: Guard is packages/cli/src/mcp/http-guard.ts, which decides what the HTTP server serves.
-- SnapshotRef: packages/cli/src/utils/snapshot-ref.ts, which snapshot an option names.
--
-- State and effects. A handler that fills maps in a loop is a function from its state to the next:
-- the state is a record with the source's variables, and the loop is recursion on the list that it
-- runs over. The gate works on a world that it threads through; what an install and the admission
-- gate do to the world are parameters. A `continue`, an early return or a thrown error is a case
-- of a result.
--
-- Parameters. Code of other packages and of the runtime is an argument of the definitions that use
-- it: the order of `localeCompare`, of `sort()` and of `<` on texts, `JSON.parse` and
-- `JSON.stringify`, the parser of a reader's output, the check of a citation, seeded picking, glob
-- matching, the store's reads, page ranks, communities, `diffSnapshots`, hashes and git. What a
-- theorem needs of one is a hypothesis: that the locale's comparison is an order, that picking
-- returns what it is asked for, that a successful install provides the dependencies, that a report
-- is on a snapshot, that equal JSON texts of window data are of equal data.
--
-- Numbers. Counts, ranks, lines and tokens are natural numbers. Edge weights are of any type of
-- numbers with an addition, so the theorems on them use no law of arithmetic that floating point
-- lacks. Scores are exact fractions, ranks are rounded exactly; page ranks and cosines are of any
-- type of scores. Costs are whole numbers. The tokens of a ledger are integers, since a gap may be
-- negative.
--
-- Fuel. The binary search of the percentiles runs on the length of the list, which is enough since
-- each round shortens the range. A numeral runs on its number, since each round divides by ten,
-- and a replacement or a stripping of prefixes runs on the length of the text, since each round
-- shortens it. The walk over imports has one round for each file and each test, and that these are
-- enough is proved. The walk over callers takes its fuel from its user: one round more than the
-- graph has edges is enough, since a symbol is stacked once.
--
-- Not modelled: what reads and writes files, runs git, tests or a language model, opens the
-- database or prints; schemas and prompts; layout and templates; the making of a report; the graph
-- library and its clustering; parsing of domain configurations; the building of excerpt units from
-- ranges; the rank correlation of grader.ts; and the mining of coding tasks.

pub mod Base
pub mod Graph
pub mod Render
pub mod Triage
pub mod Arch
pub mod Audit
pub mod Eval
pub mod Dashboard
pub mod Commands
pub mod SnapshotRef
pub mod HunkHeader
pub mod Mcp
