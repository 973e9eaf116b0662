-- ===== src/Lib.antt =====
-- Creel keeps documents in topics, cuts them into chunks with embeddings, and answers similarity
-- searches over what a caller may read. A gRPC service (internal/server) authenticates the caller,
-- asks the authorizer (internal/auth) and works on PostgreSQL tables through stores (internal/store);
-- background workers (internal/worker) claim jobs from a table and process them.
--
-- Exec: a Go function with an error, as a function from a state to a result and a state. What was
--   written before an error stays written.
-- Store/World: the state: the tables, a counter of statements, and an environment that decides for each
--   statement whether it fails, what `now()` is and which UUID a new row gets. The environment is a
--   parameter: the theorems hold for every one, unless they say that statements succeed.
-- Store/Rows, Store/Schema, Store/Cascade: the structs of the rows, the keys that migrations/*.sql
--   promise, and what ON DELETE takes along or refuses.
-- Store/Topics, Documents, Chunks, Links, Compactions, Jobs, Memories, Grants, Vectors: one function for
--   each method of internal/store/{topic,document,chunk,link,compaction,job,memory,grant}.go and of
--   internal/vector/pgvector/pgvector.go, one `statement` for each SQL statement. Store/Reads says what
--   the reading ones return. Store/Jobs/Locks has ClaimNext between its UPDATE and its COMMIT,
--   and Store/Jobs/Alone compares the two.
-- Store/Accounts: internal/store/system_account.go, a key by its hash; `resolve` is the query of
--   LookupKeyHash. Store/Stats: stats.go. Store/Configs: the statements that the five stores of
--   configurations share, over a `Table`; Store/Configs/{ApiKeys,Llms,Embeddings,Prompts,Backends} are
--   internal/store/{api_key,llm,embedding,extraction_prompt,vector_backend}_config.go.
-- Auth/ApiKey, Auth/Oidc, Auth/Middleware: internal/auth/{apikey,bootstrap,oidc,middleware}.go, from the
--   metadata of a request to the principal that the handler gets.
-- Auth/Authorizer: internal/auth/{authorizer,grant_authorizer}.go over the interface `GrantStore`,
--   which Store/Grants implements. Decision and Access hold what the two methods decide.
-- Server/Status: gRPC codes and what all handlers begin with. Server/{Topic,Document,Chunk,Link,
--   Compaction,Job,Memory}: the handlers of the file of that name in internal/server, the caller as
--   an optional principal. Server/Guarded and the Guarded child of each service show who may make it
--   write; Server/Api puts them together, Server/Queries does for eight of the
--   reading calls. Server/Topic/Sharing is on grants, Server/Compaction/Reversal
--   on the two directions of a compaction.
-- Server/Admin: internal/server/admin.go. Server/Config and its children: internal/server/config.go, one
--   child for each kind of configuration.
-- Config, Config/Load, Config/Endpoint: internal/config. Slug: internal/slug.
-- Retrieval/Search, Retrieval/Context: internal/retrieval.
-- Server/Retrieval: internal/server/retrieval.go.
-- Vector/Registry: internal/vector/registry.go, each section under a lock as one step.
-- Worker/Status: how the workers mark a document as failed. Worker/Text: trimming and json_extract.go.
--   Worker/{Extraction,Chunking,Embedding,Compaction,Messages}: internal/worker/{extraction,chunking,
--   embedding,compaction,memory_messages}.go. Worker/Providers: the answer of the OpenAI provider in
--   openai_embedding.go, and the stub provider of embedding.go. Worker/Pipeline puts the workers of a
--   document one after the other.
-- Worker/Split: `SplitText` of internal/worker/chunking.go over bytes; the loop runs on fuel, one round
--   for each byte and one more, which is enough. Worker/Pool: one poll of internal/worker/pool.go;
--   Worker/Pool/Interleaving has the poll loops of any number of goroutines as a step relation: there
--   the UPDATE of a claim, which locks a row, and its COMMIT are two steps, and those of others come
--   between them. Worker/Memory: internal/worker/memory_maintenance.go; the LLM's answer is a parameter.
-- Tests: concrete tables and callers.
--
-- A statement is one atomic step. Transactions are sequences of statements that are undone on error;
-- but for the claims in Worker/Pool/Interleaving, nothing else runs between those of one.
-- Numbers of type int and int32 are unbounded integers; timestamps are numbers; the bits of floats are
-- not looked into. The distance of vectors, JSON containment, the order of texts in the database, the
-- fetcher of URLs and the random part of a slug are parameters.
--
-- The parsers of HTML, PDF and JSON, the LLMs and embedding providers, the hash of API keys, the
-- verification of OIDC tokens and the cipher of stored keys are parameters too.
--
-- Not modelled: the HTTP clients (internal/llm, internal/fetch, the request in openai_embedding.go),
-- encryption, the server's start, the command-line programs, the MCP server, the dashboard and the SDKs.
pub mod Slug
pub mod Config
pub mod Base
pub mod Exec
pub mod Auth
pub mod Store
pub mod Retrieval
pub mod Vector
pub mod Worker
pub mod Server
pub mod Tests
