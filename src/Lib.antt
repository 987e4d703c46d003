-- ===== src/Lib.antt =====
-- Rubydex indexes a Ruby program into one graph, keeps it up to date as documents change, and
-- answers questions about it. The development models the core crate, rust/rubydex.
--
-- The parts and how they interact. An indexer walks a document and makes calls on a local graph
-- (rust/rubydex/src/indexing/local_graph.rs). The graph of the whole program
-- (rust/rubydex/src/model/graph.rs) takes a local graph in by `consume_document_changes`, which
-- invalidates what the old document supported, removes its data and merges the new data by
-- `extend`. What is left to resolve is queued as pending work. The resolver
-- (rust/rubydex/src/resolution.rs) takes the work, declares what the definitions define, linearizes
-- ancestors and resolves references, until a round over its queue makes no progress; what is left
-- then is pending work again. The queries (rust/rubydex/src/query.rs) read the graph.
--
-- The files:
--   Base            lists, sets and maps of ids, and the type `Checked` of code that may panic
--   Model           rust/rubydex/src/model: ids, names, references, definitions, declarations,
--                   documents, and the reverse index from names to what depends on them
--   LocalGraph      rust/rubydex/src/indexing/local_graph.rs, with the calls by which the indexers
--                   (ruby_indexer.rs and rbs_indexer.rs beside it) change it; LocalGraph/Run is
--                   about any sequence of these calls
--   Graph/Counts    `intern_string` to `untrack_name_recursive`: use counts
--   Graph/Extend    `extend`
--   Graph/Names     resolutions of names and references, pending work
--   Graph/Declarations  `add_declaration`, promotion, `add_member`
--   Graph/Lookup    from a definition to its declaration
--   Graph/Alias     `alias_targets`, `resolve_alias`
--   Graph/Visibility    `visibility`
--   Graph/Invalidate, Graph/Worklist  `invalidate` and its worklist
--   Graph/Remove    `remove_document_data`, `delete_document`, `consume_document_changes`
--   Query           `declaration_search`, `match_score`, `find_member_in_ancestors`,
--                   `follow_method_alias`
--   Resolution      rust/rubydex/src/resolution.rs: the resolver's state, and its methods as actions
--                   on that state
--   Resolution/Order, Resolution/Depth      `prepare_units`, `compute_name_depths`
--   Resolution/Units      `resolve` and the handling of each unit
--   Resolution/Declare    `handle_constant_declaration` and the owners of constants
--   Resolution/Constants, Resolution/Scopes  `resolve_constant_internal` and its searches
--   Resolution/Chains     `resolve_alias_chains`, `resolve_to_namespace`
--   Resolution/Linearize, Resolution/Mixins  `linearize_ancestors`
--   Resolution/Singleton  `get_or_create_singleton_class`, the parents of classes
--   Resolution/Remaining, Resolution/Owners, Resolution/Eager, Resolution/Variables,
--   Resolution/Visibilities   `handle_remaining_definitions` and `resolve_method_visibilities`
--   Resolution/Grows and each file called Growing   what the resolver leaves as it is
--   Integrity       rust/rubydex/src/integrity.rs
--   JobQueue        rust/rubydex/src/job_queue.rs, the workers as a step relation
--   Tests           a small program and applications of the theorems to it
-- A function has the name that it has in the source, unless it is a part of one; a method that
-- changes the graph takes it and returns the new one, with the result if there is one.
--
-- How the code is read. `Checked` has a value for a normal return, one for a panic and one for a
-- loop that runs out of fuel. The debug build is modelled: a `debug_assert!` that fails and an
-- overflow of a `u32` are panics. A hash map is an association list whose order stands for the order
-- of iteration, and a hash set a list without repetition. The hash function of the crate xxhash_rust
-- is a parameter of what computes ids. Characters are code points. Flags are records of Booleans.
-- The structs of the three kinds of attributes share one record, as do those of the three kinds of
-- variables, and those that the macros of declaration.rs generate.
--
-- Fuel. `resolve_alias` and `follow_method_alias` get one more than the graph has declarations, and
-- it is shown that this is enough, as every round meets a new one. The walk up the nesting of
-- definitions gets as much as there are definitions, which is enough for nesting without cycles; so
-- does the lookup of the declaration of a definition, which may go on to the definition of `self`.
-- `visibility` needs two. The fuel of the worklist of `invalidate` is an argument: it ends
-- unless names nest in a cycle, which is not shown here; the theorems on it speak of every run that
-- returns. In the resolver, the recursion of the linearization and the number of rounds have fuel
-- as an argument, and the theorems on `resolve` speak of every run that returns. The walks up
-- names and definitions get as much as there are of them, and `resolve_alias_chains` one more than
-- all aliases have targets, which is shown to be enough.
--
-- The unstable sorts of the resolver are insertion sorts; nothing is shown of the order of equal
-- keys. A callback that is passed down together with a flag is an argument of the function.
--
-- The steps of the threads of the job queue are interleaved in a sequentially consistent order, and
-- the queues of the crate crossbeam_deque do what they document.
--
-- Not modelled: the indexers, which walk syntax trees of other crates; completion and
-- require paths of query.rs; the listing of files, statistics and
-- visualization; the C interface, the MCP server and the Ruby extension.
pub mod Base
pub mod Model
pub mod LocalGraph
pub mod Graph
pub mod Query
pub mod Resolution
pub mod Integrity
pub mod JobQueue
pub mod Tests
