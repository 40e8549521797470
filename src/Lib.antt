-- ===== src/Lib.antt =====
-- docsiq: a knowledge server for projects' documents and notes (Go). This library models the parts
-- of the program that decide something by themselves and leaves out what only calls a file system,
-- a database, a network or a model.
--
-- Parts and files (paths from the repository's root):
--   Prelude            shared types and operators; Prelude/Text (bytes, `strings`), Prelude/Space
--                      (`strings.TrimSpace`), Prelude/Split (`strings.Split`, `strings.Join`),
--                      Prelude/FilePath (package path/filepath on Unix), Prelude/Int (int),
--                      Prelude/Distinct (lists without repetition), Prelude/Sort
--                      (`sort.Strings`), Prelude/Heap (package container/heap).
--   Api/Auth           internal/api/auth.go, session.go: `bearerAuthMiddleware`, the two session
--                      handlers.
--   Api/Indexes        internal/api/vector_indexes.go: the cache of vector indexes as steps of
--                      requests in any order.
--   Api/Scope          internal/api/project.go: `projectMiddleware` over the registry.
--   Api/Stores         internal/api/stores.go: the cache of the projects' open stores.
--   Api/Timeout        internal/api/request_timeout.go: `requestTimeoutMiddleware`.
--   Community          internal/community/louvain.go: `NewGraph`, `Louvain`; in Community/Levels
--                      `HierarchicalLouvain`.
--   Crawler            internal/crawler/crawler.go: `bfsCrawl`, `extractLinks`, `resolveURL`; in
--                      Crawler/Sitemaps `parseSitemap`, `discoverSitemap` and `Crawl`.
--   Embedder           internal/embedder/embedder.go: the batch size and `EmbedTexts`.
--   Extractor          internal/extractor/entities.go: `ExtractEntities` and `mergeResults`.
--   Hookinstaller      internal/hookinstaller: `Install`, `Uninstall` and `Status` for Codex,
--                      Copilot, and for the two others in Hookinstaller/Claude and
--                      Hookinstaller/Cursor.
--   Notes/Graph        internal/notes/graph.go: `BuildGraph` and `Related`; `List` of notes.go.
--   Notes/Key          internal/notes/notes.go: `ValidateKey` and `resolvePath`.
--   Notes/Files        internal/notes/notes.go: `Read`, `Write`, `Delete` and `ListKeys` on a disk of
--                      paths and contents.
--   Notes/Frontmatter  internal/notes/frontmatter.go: the YAML block before a note's body.
--   Notes/History      internal/notes/history.go: the message of a note's commit.
--   Notes/Links        internal/notes/wikilinks.go: the links in a note's body.
--   Pipeline           internal/pipeline/pipeline.go: `indexFile` and `indexRawDoc` on the table of
--                      documents; in Pipeline/Graph `extractGraph`, in Pipeline/Finalize the
--                      start of `finalize`.
--   Project/Slug       internal/project/slug.go: `Slug` and `IsValidSlug`.
--   Project/Registry   internal/project/registry.go: the table of projects, `Register`, `Get`,
--                      `GetByRemote`, `List`, `Delete`.
--   Search             internal/search/local.go: `LocalSearch`; in Search/Summaries global.go,
--                      `GlobalSearch`.
--   Store              internal/store/store.go: the table of documents.
--   Vectorindex        internal/vectorindex/hnsw.go, builder.go: the HNSW index with `Add`, `Remove`,
--                      `Search` and `BuildFromStore`; nodes are cells at addresses.
--   Workq              internal/workq/workq.go: `New`, `Submit`, `Stats`, `Close` and the workers'
--                      loop `run` as steps on one state. A run is a list of steps in any order.
--
-- A request passes the key's test (Api/Auth) and gets its project (Api/Scope), whose slug comes
-- from the git remote (Project/Slug) and is looked up in the registry (Project/Registry). A
-- project's notes are files under a directory (Notes/Key, Notes/Frontmatter, Notes/Files) that
-- link each other (Notes/Links, Notes/Graph); uploads are indexed in the background (Workq) as versions of documents (Pipeline, Store) and a
-- site's pages are fetched (Crawler), with entities that a language model finds (Extractor), texts
-- embedded in batches (Embedder) and communities of entities (Community). The open stores and the
-- vector indexes (Vectorindex) of the projects are cached (Api/Stores, Api/Indexes). A question is answered from
-- the chunks and the graph around them, or from the summaries of communities (Search). Clients are
-- told of the server by a hook in their settings (Hookinstaller).
--
-- Conventions. A text is a list of byte codes. An operation that returns an error is an `Option`
-- or a type of results with the source's errors; the wording of a message is not kept. A Go method
-- that holds a lock throughout is one step. Loops over a text are structural, or run on fuel that
-- is the length of the text: each round reads at least one byte, so it is enough, and the theorems
-- on such a loop hold without a condition on fuel. The crawl's loop decreases the pages still
-- wanted and, where a page is skipped, the queue. `parseSitemap` has no bound in the source: its
-- fuel is the depth of the recursion, and running out of it is a result of its own. The graph of
-- entities keeps a matrix as a function of its indices. The loops of `greedyStep` and `searchLayer`
-- have as many rounds as the index has nodes, and one, those of a heap as many as it has elements;
-- the theorems show that both are enough.
--
-- Parameters, for code outside the repository, for package store and, in the caches, for the index:
-- package yaml.v3 (`Yaml`), the language model and the JSON decoder (`Llm`, `Json`), net/url,
-- net/http, the XML and HTML decoders and the page loader (`Web`), float64 with the random and
-- unordered choices of the runtime (`Runtime`), the embedding provider (`Provider`), what builds a
-- vector index (`Builder`), the values of a frontmatter and the package time (`Env`), which steps
-- of a write succeed (`Steps`), what `os.Remove` meets (`Removal`), whether the registry's database
-- can be read and written (`Access`), what the steps of an indexing answer (`Run`), SHA-256 and the
-- splitter of texts, the store, the vector index and the scores of a search (`World`),
-- float32 with its order and the level of a new node (`Floats`), the order of `range`,
-- `strings.ToLower` on text that is not ASCII, the working directory of the process, the clock,
-- and which of two violated constraints SQLite reports.
--
-- Not modelled: package store (SQL) but for the table of documents, the claims and the summaries of
-- the pipeline, the runs of git, the HTTP handlers, the MCP server, the loaders, the command line and
-- the web interface, which are calls of libraries or are left to extensions of this library.
pub mod Api
pub mod Community
pub mod Crawler
pub mod Embedder
pub mod Extractor
pub mod Hookinstaller
pub mod Notes
pub mod Pipeline
pub mod Prelude
pub mod Project
pub mod Search
pub mod Store
pub mod Vectorindex
pub mod Workq
