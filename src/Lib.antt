-- ===== src/Lib.antt =====
-- Verification of the tick framework, a Go framework for web services: its storage, its registry of
-- components and its helpers.
--
-- Parts of the program and the files that model them:
--
-- - utility/kvstore.go, records in a file: Utility/Kvstore.antt. `get` and `set` work on the contents
--   of the file; lengths are cut to 32 bits as in the source.
-- - filesystem/block, a block store that keeps values in content files and an index of them in memory
--   and in an index file: Filesystem/Block. `Index.antt` is index.go, `ContentFile.antt` and
--   `IndexFile.antt` are file.go, `Engine.antt` is block.go with the methods Set, Get and Del as state
--   passing with errors over a `Store`, that is, a block and the disk. `Disk.antt` states what the
--   code uses of files: whole contents by path, appends, which paths can be written, and how many
--   bytes a write that fails leaves there. `Dump.antt` is dumpIndex in its three parts, between which
--   other threads write; the order in which Go goes through a map is a parameter there. The other
--   modules below `Engine` treat the store as a map and the index file as a log of its table;
--   `Failures.antt` is about what writes that fail leave.
-- - filesystem/lru_file.go, the recency list: Filesystem/Lru.antt, with list elements by identity, so
--   that the table's pointers into the list are real.
-- - registry.go and component.go, the registry of components and values: Registry.antt, with the
--   removal inside range in `Sweep.antt`, canonical names in `Name.antt`, lists of named things in
--   `Named.antt` and SortComponent in `Sorting.antt`.
-- - middleware.go, the registry of middlewares: Middleware.antt, over the same lists of named things.
-- - ltick.go, the engine: Engine.antt has New, Startup and Shutdown as methods that leave an engine
--   also where they fail; `Engine` logs the hooks that were called. The components' hooks, the
--   middlewares, the callback, the injection and the loading of the configuration are parameters,
--   the record `World`. `Steps.antt` has the steps that change only the context, `Visits.antt` what
--   the loops over the components keep, `Calls.antt` the log against the states, `Making.antt` and
--   `Starting.antt` the engine behind New and Startup.
-- - server.go and the assembly of routes in ltick.go: Server.antt has routers as the program fills
--   them, `Mesh.antt` the mesh in which Startup merges routes of one method, group and path,
--   `Routes.antt` its calls from a router, `Dispatch.antt` the choice of a route by the host of a
--   request, `Options.antt` the timeouts, with time.ParseDuration as a parameter.
-- - session/protocol.go: Session.antt has sessions found by the cookie, the query or a header of a
--   request, started, destroyed and renewed, over a provider that is a parameter; `Cookie.antt` the
--   cookies that are encrypted, dated and signed, with gob, the cipher, base64, HMAC and decimal
--   numbers as parameters, whose documented laws are the record `IsLawful`.
-- - utility/pooling.go, a pool of connections: Utility/Pool.antt has the critical sections as functions
--   on the pool, `Threads.antt` the interleavings of any number of threads as a step relation.
-- - utility/string.go: Utility/Wildcard.antt has the match with wildcards, Utility/Naming.antt the names
--   in snake case and camel case.
-- - utility/array.go: Utility/Array.antt. utility/context.go, merged contexts: Utility/Context.antt.
-- - middleware/ipfilter.go, the whitelist of addresses: Middleware/IpFilter.antt.
-- - api/acceptencoder, the choice of an encoding: Api/AcceptEncoder.antt, with floats as an interface;
--   `Pools.antt` has the pools of compressors and the writing with them.
-- - api/param.go and api/api_handler.go: Api/Tags.antt has the tags of parameters, read in one pass over
--   the bytes, Api/Params.antt parameters by name and the parameters of a description, with
--   sort.Strings as a parameter.
-- - convert_types.go, values turned into pointers and back: Convert.antt over a memory of cells,
--   `Types.antt` with the function of each type, `Time.antt` with the conversions of times.
--
-- Base has what these share: Go's results (a value, an error, or a panic), maps as association lists,
-- slices and big-endian words on lists of bytes, Boolean tests on numbers, and `int` counters.
--
-- How they interact: the block store's files are records of the store of records; the registry of
-- middlewares and that of components use one removal; routes are chosen by the match with wildcards;
-- SortComponent uses the search of the array helpers. A text is the list of its bytes; letters are
-- changed in case as ASCII.
--
-- Fuel: loading an index file takes the file's length, since a round passes ten bytes at least;
-- eviction takes the list's length, since a round takes an element; SortComponent takes any number
-- above the first component's number of dependencies for its loop and above the depth of the
-- dependencies for its calls. Theorems state that this is enough. The match with wildcards and the
-- other loops are structural.
--
-- What the compressors make of a content is a parameter, as is how far they get where their Close
-- fails, and a pool of the Go library gives out any of its items, or a new one. The components
-- that are sorted are taken to be distinct. The parameters of the engine (injection, assembly of
-- routes, loading of the configuration) have one outcome each for a whole run.
--
-- Not modelled: what calls services and libraries (databases, Redis, Kafka, HTTP, metrics, logging),
-- reflection (injection and binding of parameters), and, so far, the start and the defragmentation of
-- the block store. The routing library, which the registrations go to, is not part of the model.
pub mod Api
pub mod Base
pub mod Utility
pub mod Filesystem
pub mod Registry
pub mod Server
pub mod Middleware
pub mod Convert
pub mod Session
pub mod Engine
