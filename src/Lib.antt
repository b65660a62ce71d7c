-- ===== src/Lib.antt =====
-- Verification of the notevault server: a model of its storage, file and share services in pkg/, with
-- the theorems that make them correct.
--
-- The parts. A request reaches a service of pkg/internal/service, which keeps its rows in a database,
-- its objects in an object store, and copies of its rows in a key-value store.
--
-- * Kv models pkg/internal/storage/kv: Kv/Ttl the wrapper with an expiry of ttl.go (encodeWithTTL is
--   encode_with_ttl, decodeWithTTL is decode_with_ttl), Kv/Store the interface KVStore of kv.go with
--   the promises its clients rely on (KvLaws), Kv/Memory the store of memory.go (get, set, delete,
--   exists and keys are the methods of MemoryKV; the map is an association list), Kv/Nats that of
--   nats_kv.go and Kv/Groupcache that of groupcache.go, with methods of the same names; Kv/Registry is the
--   choice of a store in kv.go.
-- * Cache models pkg/cache/cache.go over the interface of Kv/Store: get, set, get_or_set, clear and
--   run_cleanup_once are Get, Set, GetOrSet, Clear and runCleanupOnce.
-- * Share models pkg/internal/service/shares.go with pkg/internal/model/share.go: Share/Record the
--   records, Share/Env what the service stands on, Share/Cache the helpers at the end of the file and
--   getShareCached, Share/Service the operations, one function for each method. Share/Coherence
--   states when the key-value store agrees with the database, Share/Loading and Share/Writing prove
--   that reading and writing keep this, and the other files draw the consequences.
-- * Files models the file service: Files/Store the object store, Files/Operations the batches of
--   files_operations.go, Files/Paths and Files/Folders the folders of files_folder.go with the
--   helpers of file_helper.go, and Files/Versions the versions of files_versions.go.
--   Files/Catalog is files.go over the table of pkg/internal/model/file.go: Files/Catalog/Month the
--   lists of a month, Files/Catalog/Search the search and Files/Catalog/Sync the synchronisations.
--   Files/Transfer is files_upload.go and files_download.go: Files/Transfer/Upload the uploads and
--   Files/Transfer/Download the downloads.
-- * Middleware models pkg/middleware: Middleware/RateLimit the handler of rate_limit.go with its keys
--   and limiters and the rounds of its cleaning goroutine (sweep), Middleware/CircuitBreaker that of circuit_breaker.go, and Middleware/ResponseCache
--   cache.go: Key the keys of requests, Capture the writer that keeps what it passes on, and Handler
--   the handler, which reads and writes the generic cache of Cache. The rest of the chain is the list
--   of the calls that it makes on its writer, which behaves as that of gin v1.10.1 is documented to, and
--   the goroutine that stores a response is a value that
--   the handler gives back and run_job carries out.
-- * Handle models handlers of pkg/internal/handle: Handle/User has checkUser of handle.go, Handle/Shares
--   the handlers of shares.go (handle_create_share is CreateShare, and so on), and Handle/Search and
--   Handle/Month are SearchFiles, which keeps its answers in the key-value store, and
--   ListFilesThisMonth of files_list.go.
-- * Prelude holds what they share: texts, results, Go's integers and instants, association lists,
--   codecs and actions. Sample holds concrete stores and codecs, where the Tests modules apply the
--   theorems.
--
-- How code becomes definitions. A method is a function from the state it may change to a result and the
-- new state; what was written before an error stays written. A text is the list of its code points. An
-- instant is the number of nanoseconds since the zero time.Time, and each reading of time.Now is an
-- argument, so that the theorems hold whatever the clock shows; durations wrap around as int64 where
-- the code multiplies or converts. Loops over slices are recursion on lists, so no fuel is used but
-- for the decimal digits of a number n, which has at most n + 1 of them.
--
-- What the code stands on and does not contain is a parameter: the databases behind gorm (ShareDb,
-- FilesDb) with the meaning of LIKE, the object store behind the MinIO client (ObjectStore, Transfers),
-- the bucket of NATS, the group of groupcache, the circuit breaker, the limiter, JSON (Codec), SHA-1, SHA-256,
-- MD5 and xxhash as functions on texts, the canonical form of a header's name,
-- time.ParseDuration, strconv.Atoi, the calendar, the validator's test of a user,
-- presigned URLs and the rendering of instants. Their documented behaviour stands in ShareDbLaws,
-- FilesDbLaws, ObjectStoreLaws, TransferLaws, KeyValueLaws, GroupLaws, StaysClosed and IsJson; the
-- stores of Sample and of the Tests modules satisfy them.
--
-- Not modelled: one call runs at a time, so races between calls do not show; the other HTTP
-- handlers, routes and the other middleware; the adapter for Redis, whose methods are one
-- call of its client each; configuration, logging, metrics and start-up, which set up third-party
-- libraries.
pub mod Prelude
pub mod Kv
pub mod Middleware
pub mod Share
pub mod Sample
pub mod Cache
pub mod Files
pub mod Handle
