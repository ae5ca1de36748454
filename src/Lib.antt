-- ===== src/Lib.antt =====
-- Verification library of CumulusCI: the configuration, the flows and the dependencies of a project,
-- its release branches and package versions, queues of work, and the order of tables in mappings.
--
-- A project's configuration is merged from layers (cumulusci.yml of the project, the user's and
-- CumulusCI's own). It names tasks and flows. A flow is a numbered list of steps, each a task or
-- another flow; it is unfolded to a plan of task steps, sorted, and run. Preflight checks are
-- expressions that may run tasks before a flow. A project depends on packages and on other
-- repositories: these are resolved to a commit and perhaps a package, flattened to what they need
-- in turn, and what is static is then installed, in part by running flows.
--
-- Config/ models cumulusci/core/utils.py. Value is parsed YAML; Merge is `dictmerge`; Steps and
-- Layers are the clean-up of overridden flow steps and `merge_config`; Options/Plugins is
-- `deep_merge_plugins` and Options/Managed is `determine_managed_mode` with `process_bool_arg`.
-- Python copies the configurations and writes into the copies: here a function returns the new
-- dictionary, and where two are written it returns both.
--
-- Flow/ models cumulusci/core/flowrunner.py. Spec has its records and the errors it raises; Steps
-- is `_visit_step`, Plan is `_init_steps`, Loops is `_check_infinite_flows`, Run is `run_step`,
-- `_run_step` and `run`, and Preflight is PreflightFlowCoordinator with TaskCache and
-- CachedTaskRunner. `_visit_step` writes options into the project's configuration: that state is
-- `Shared`, and every visit passes it on. Tasks and conditions are functions of what has run so
-- far, and both may raise; Run.Course is the relation of the steps that a run takes. Step numbers are LooseVersions of Python's library: their order is a parameter with its
-- laws (Sort). The recursion over flows that name flows has fuel of one more than the number of
-- the project's flows; the search for cycles stops with an error before the fuel is used up.
--
-- Deps/ models cumulusci/core/dependencies/base.py, resolvers.py and dependencies.py. Model has the
-- data, Resolvers the strategies, Pins the pins, Flatten what a dependency needs in turn, and Static the
-- loop of `get_static_dependencies`, whose bound of 50 rounds is the source's own. A repository is
-- a record of the answers it gives. Equality of dependencies is a parameter.
--
-- Tables/ models the sort of cumulusci/tasks/bulkdata/generate_mapping_utils/dependency_map.py. Its
-- loop takes at most two rounds for each table, and each sort by a higher priority leaves fewer
-- lookups above its own: the fuel is one more than twice the number of tables, and one more than
-- the number of lookups. Tables.Referenced is
-- cumulusci/tasks/bulkdata/extract_dataset_utils/calculate_dependencies.py: its loop adds each table
-- of the schema at most once, and its fuel is the number of the declarations and of those tables.
--
-- Release/ models the names of release branches. Pattern is `pattern_to_regex` of
-- cumulusci/utils/release_branch.py with what the expression matches, Identifier its checks, and Previous
-- its previous identifiers; Naming is the format in a configuration; Branch is the part of
-- cumulusci/utils/git.py on branches; Hosted is `get_branches` of AbstractVcsReleaseBranchResolver in
-- cumulusci/core/dependencies/resolvers.py, over a repository that is a record of its answers. Texts are
-- lists of code points (Prelude/Text), and digits are the ASCII ones.
--
-- Versions/ models cumulusci/core/versions.py: Number has the versions with their formats, Match lists
-- the ways to match VERSION_RE in the order of Python's re, and Parse reads a version or a tag.
--
-- Queues/ models the queues of parallel workers, cumulusci/utils/parallel/task_worker_queues. Steps has
-- the folders of a queue with its operations, and the events that come in any order: pushes, ticks,
-- and the moves and ends of the workers. Each tick lists the inboxes in an order of its own (Listing).
--
-- Tasks/ models loops and checks of the base classes of tasks, cumulusci/core/tasks.py: Retry is `_retry`,
-- which its number of retries bounds, Poll is `_poll`, with fuel for the number of its polls, and
-- Objects is the injection of a namespace into the names of objects.
--
-- Not modelled: the other regular expressions, parsing by pydantic, logging, the network, names of
-- tasks and flows of other projects, installation, and two jobs of one name in a queue.
pub mod Prelude
pub mod Config
pub mod Flow
pub mod Deps
pub mod Tables
pub mod Release
pub mod Versions
pub mod Queues
pub mod Tasks
