-- ===== src/Lib.antt =====
-- A model of AgentPinBoard, the session-scoped fact graph of an LLM agent, and theorems about it.
--
-- The program. Tools return structured results; the `@pin` decorator extracts facts from them into
-- a graph of event nodes (one for each tool call) and fact nodes (one for each type and canonical
-- value), with edges from events to facts.
--
-- The files, and the code each is about (paths from the repository's root):
--   Prelude            tests, lists, Python's sets and dicts as lists in insertion order
--   Value              Python values as far as the code tells them apart
--   Models             agent_pinboard/models.py, entity.py, enums.py, exceptions.py
--     Models.Host      `str`, `repr` and the hash, which are the host's
--     Models.FactId    fact_node_id
--   Networkx           the interface of networkx.MultiDiGraph; Networkx.Assoc keeps its promises
--   Graph              agent_pinboard/graph.py: FactGraph and its mutations
--     Graph.Nodes, Graph.Invariant, Graph.Persists, Graph.Upsert, Graph.Autolink: the proofs
--     Graph.Snapshot   from_snapshot and `_backfill_fact_provenance`; its children Events, Sorted,
--                      Provenance, Rebuilt and Loaded have the proofs
--     Graph.Queries    find_by_value, all_events; Queries.Found has the proofs
--     Graph.Dump       dump_to_dict and load_from_dict; Dump.Edges and Dump.Reloaded have
--                      the proofs
--   Fields             agent_pinboard/fields.py, and `_declaring_class` of extract.py
--   Extract            agent_pinboard/extract.py
--     Extract.Rule, Extract.Emit, Extract.Sound, Extract.Covered, Extract.Raises, Extract.Errors:
--                      the proofs
--   Decorator          agent_pinboard/decorator.py: `_validate`, `_build_payload`, `_last_matching`
--     Decorator.Listed, Decorator.Round, Decorator.Recorded, Decorator.Payloads,
--                      Decorator.Duplicates: the proofs
--     Decorator.Arguments      `_resolve_runtime` and `_canonical_args_repr`
--     Decorator.Wrapper        the synchronous wrapper, with its log and the ingest event; its
--                              children Sound, Kept and Repeated have the proofs
--     Decorator.AsyncWrapper   the asynchronous one; AsyncWrapper.Agreement has the proof
--   Explore            agent_pinboard/tools.py: the search of `_render_explore`, `_neighbours`
--     Explore.Steps, Explore.Walks, Explore.Rounds, Explore.Layers, Explore.Returns,
--                      Explore.Reach, Explore.Limit: the proofs
--   Relevance          agent_pinboard/tools.py: the scores of `timeline`; Relevance.Overlap has the
--                      proof
--   History            agent_pinboard/tools.py: what `what_have_i_done` lists; History.Filters and
--                      History.Selected have the proof
--   PathGraph          agent_pinboard/tools.py: the graph of facts of `find_path`, and `all_facts` of
--                      agent_pinboard/graph.py; PathGraph.Joined, PathGraph.Returns and PathGraph.Adjacent have
--                      the proof
--     PathGraph.Selection      the paths that it keeps, of those that networkx yields
--   Summary            agent_pinboard/tools.py: the facts that `graph_summary` lists of a type;
--                      Summary.Largest has the proof
--   Store              agent_pinboard/store.py: the dicts, their readers, `persist_delta`, over the
--                      interface `BaseStore` of langgraph's store
--     Store.Api        load_graph, the log of tool calls, the registry and the raw returns
--     Store.AsyncApi   the asynchronous operations
--     Store.Codec, Store.Json, Store.Intact, Store.Reading, Store.Session, Store.Written,
--                      Store.Ordered, Store.Log: the proofs
--   Config             agent_pinboard/config.py
--   Session            agent_pinboard/session.py: locks, loading, thread ids; Session.Locked has the
--                      proof
--   Registry           agent_pinboard/registry.py; Registry.Returns has the proof
--   Websocket          agent_pinboard/integrations/websocket_hook.py: the queue of deltas
--     Websocket.Newest: the proofs
--   Samples            small inputs; its children have tests and instances of the theorems
--
-- How state and operations correspond. A `FactGraph` is a record of the networkx graph and the two
-- index dicts; a method returns the new graph. Code that may raise returns a `Result`; what it had
-- done to the graph before it raised is dropped, as the caller drops that graph. A fact's object is
-- mutated in place through the graph, so lists of fact nodes are lists of ids. Readings of the
-- clock, UUIDs, hashes and user callables are parameters. A walk over a model instance recurs on the
-- instance, and an exploration on its depth, which the code counts down too. Only the scan of a
-- model class takes fuel, a bound on its depth: one more than the number of classes is enough. The
-- order in which Python reads a set is a parameter of the exploration.
--
-- Distinct keys that a session makes are assumed to have distinct hashes, though the code keeps only 16
-- digits of a hash.
-- The theorems that need it say so by `Ids`.
--
-- The wrapper acts on a world: the store, the ingest events that were delivered and what the logger
-- got. A step has its result beside the world that it leaves, so an error keeps what was written
-- before it. The tool is a function of the store that may raise; the store that it leaves is also
-- what other calls made of it meanwhile. What is awaited is what it gives. The window under the
-- session's lock is one step.
--
-- Not modelled: the rest of the graph tools and their rendering, the Mermaid text, the
-- websocket's snapshot; and as plain I/O the Langfuse hook and the websocket server.
pub mod Prelude
pub mod Value
pub mod Models
pub mod Networkx
pub mod Graph
pub mod Fields
pub mod Extract
pub mod Decorator
pub mod Explore
pub mod Relevance
pub mod History
pub mod PathGraph
pub mod Summary
pub mod Store
pub mod Config
pub mod Registry
pub mod Session
pub mod Websocket
pub mod Samples
