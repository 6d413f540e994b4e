-- ===== src/Lib.antt =====
-- A model of the core logic of codeRAG, a Go server that keeps a graph of a code base and offers
-- it to agents: the tasks that agents work on, the stable identifiers of graph entities, the queue
-- of runtime observations, the privacy firewall on outbound context, the graph repository in memory,
-- the context cache and the developer context kept in it, and the slice calculator.
--
--  * Common: Boolean tests, lists and texts measured by native numbers, signed integers, sorting.
--  * Ids: internal/ids/ids.go, and the two builders of runtime.go. An identifier is a kind, a colon and
--    the rest; SHA-256 is a parameter.
--  * Task: internal/services/tasks.go. Types has the records and transition tables, Stages and
--    Hypotheses the loops of Update, Fields and Service the operations Create, Get, Update and
--    Resume. An operation takes the world and returns a result and the next world (Action), and
--    keeps what it wrote when it fails. The graph repository, the reference resolver, git and the
--    JSON codec are the record Repo (Task/Repo.antt), a parameter of every operation; RepoLaws says
--    that a stored task is found again and decodes to itself. A confidence is a float64, held as a
--    multiple of 2 ^ -1074, which is exact. The remaining modules are theorems.
--  * Runtime: EventQueue of internal/runtime/queue.go, a ring buffer with the policies block, drop and
--    oldest; Spec is the bounded list that it implements. The int64 counters wrap around at 2 ^ 64.
--    DequeueAll takes as much fuel as the ring has places, which is enough. Go runs Enqueue without a
--    lock; the model is one goroutine, and DequeueBlocking, which polls a clock, is left out.
--  * Privacy: internal/privacy. A text is its list of bytes (Privacy/Bytes.antt has the functions of
--    the package strings), a mode is a Go string. What a compiled regular expression matches is a
--    parameter. Privacy/Service.antt has the service of internal/services/privacy.go over the cache and
--    the repository, with JSON as the parameter Codec. A map of the pseudonymizer is an association list
--    with the newest entry first, read by its find. PseudonymizeText takes the order in which Go's map
--    iteration meets the names.
--  * Graph: MemoryGraphRepository of internal/graph/memory.go, with the kinds of
--    internal/graph/repository.go and the structs of internal/models/domain.go. Property values and
--    reflect.DeepEqual are the record Values, a parameter; new identifiers and the time are arguments;
--    Go's random order of a map is the order of a list.
--    Graph/Repository.antt has the interface GraphRepository, as the cache and the context store use
--    it, with laws; Graph/Memory.antt fills both in with the operations in memory. In the interface a
--    failed write returns no value, and a failed GetNode is a missing node.
--  * Cache: internal/cache. Manager, Invalidation and Lookups have CacheManager over any repository
--    that keeps the laws, Semantic and Jobs the semantic cache and the job registry. SHA-256, JSON, time
--    and the roundings of float64 are parameters (Host, Arithmetic). Counters of type int are natural
--    numbers, which they stay for 2 ^ 63 calls. A nil map is stored as an empty one. Go's order of
--    the projects in a purge is that of their first entries.
--  * Ctxstore: internal/ctxstore. Records has the packing of lines under a token budget, Digest the two
--    digests, Store the operations over the repository but Add and Search.
--  * Evidence: EvidenceService and AntiLoopDetector of internal/services/evidence.go and anti_loop.go
--    over the repository. A confidence given as a Go int is left out, since JSON makes none; the groups
--    of equal claims come in the order of their first claims. strings.ToLower and time are parameters.
--  * Slice: ComputeSlice of internal/services/slice.go with 64-bit wrap-around, without the text of
--    the notation.
--
-- Tasks call identifiers (Ids.looks) and the repository; the cache, the context store and the evidence
-- service call the repository; the privacy service calls the pseudonyms and policies of Privacy, the
-- cache and the repository; the queue and the slice calculator stand alone. Not modelled are the
-- persistent repositories, search and the memory service, most other services, the MCP handlers, the
-- parsers of binaries, and everything that reads files or the network.
pub mod Common
pub mod Ids
pub mod Task
pub mod Runtime
pub mod Privacy
pub mod Slice
pub mod Cache
pub mod Ctxstore
pub mod Evidence
pub mod Graph
