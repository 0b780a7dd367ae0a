-- ===== src/Lib.antt =====
-- MonoBucket: a verification development for the core of the backend, an S3-compatible object
-- store.
--
-- The backend takes an S3 request, classifies it, finds who sent it and what that identity may
-- do, looks its bucket up through a cache, and hands it to a storage engine. The engine keeps
-- records in an ordered key-value store, bytes in files, and a ledger of what each bucket holds
-- against its allocation. This development models the parts that decide: the engine and its
-- metadata store, the ledger, the authorisation matrix, the checks of the router, the
-- classification of requests, the decoder of signed streaming bodies, the cross-origin rules, the
-- names, the keys and the records, the caches, and the console's sessions and graphs.
--
-- Files, and the code they model (paths from the root of the repository):
-- - Base: shared names, Boolean tests, 64-bit arithmetic, lists, dictionaries, results, bytes and
--   signed integers.
-- - Storage/Quota: backend/src/storage/quota.hpp and quota.cpp, with what is reported of them in
--   Storage/Quota/Capacity. Each method of the ledger is a function on its state, since a mutex
--   makes it one atomic step. Storage/Quota/Writers holds the claims of all writers in flight and
--   the events that interleave on them, Admission, Sums and Races what single methods and pairs
--   of calls do.
-- - Storage/Codec and Storage/Records: backend/src/storage/codec.cpp and records.cpp. A reader is
--   a function from the bytes left to a value and the bytes after it, or an error.
-- - Storage/Keyspace: backend/src/storage/keyspace.cpp. Keys as bytes, and the order the store
--   compares them in.
-- - Storage/Metadata: the rows of backend/src/storage/rocksdb_metadata_store.cpp and the
--   interface to the database, with what it is relied on for (Database, IsLawful);
--   Storage/Metadata/Store has the methods, each one atomic step, Listing the listing of objects
--   over the rows that the iterator yields, and Memory a database in which that can be had. Keys
--   are the names they are made of; Storage/Keyspace has their bytes.
-- - Storage/Engine: backend/src/storage/storage_engine.cpp and the writers of blob_store.cpp.
--   Storage/Engine itself has writes, reads, deletions and reclamation, Uploads and Multipart the
--   multipart uploads, Buckets the buckets and their settings. A method runs to its end before
--   the next begins; Whole/Race takes one apart. Storage/Engine/Whole has the agreement of rows
--   and payloads, Whole/Run the sequences of methods, and Whole/Refines the engine as a map from
--   keys to payloads. Blob ids, upload ids and times are arguments, and the digests a parameter.
-- - Core/Identity: backend/src/core/identity.hpp and identity.cpp.
-- - S3/Uri: uriEncode and uriDecode of backend/src/s3/uri.cpp.
-- - S3/Query, S3/Names, S3/Range: findQuery and hasQuery of backend/src/s3/uri.cpp, and the names
--   and byte ranges of backend/src/s3/request.cpp.
-- - S3/Operation, S3/Errors: backend/src/s3/operation.cpp and s3_error.cpp.
-- - S3/Buckets: requireBucket and invalidateBucket of backend/src/s3/handlers.cpp, over a context
--   with the store's rows of the buckets (Storage/Records/Rows, with encodeBucket and
--   decodeBucket of rocksdb_metadata_store.cpp), what reading a row throws, the cache, the audit
--   log and the count of anonymous requests.
-- - S3/Router: authorize and the resolution of the identity in backend/src/s3/router.cpp. What is
--   thrown there is modelled as the answer that serve gives to it. Signed describes what an
--   identity may do by which operations only read.
-- - Cache/Shard and Cache/Pool: backend/src/cache/memory_cache.cpp. A shard is the list of its
--   entries from the tail, the next to be evicted, to the head; Pool has the shards and the hash
--   of a key as a parameter. The clock is an argument of each call.
-- - Cache/Fallback: backend/src/cache/fallback_cache.cpp, over two tiers that are parameters. Its
--   child Cooldown has the breaker under any order of calls that run at once, Recovery and Probe
--   calls that run one after the other.
-- - S3/Text: the small functions on texts that chunked.cpp, cors.cpp and sigv4.cpp each declare.
-- - S3/Sigv4: the comparison of signatures, the derivation of the key, and the signatures of
--   chunks and trailers in backend/src/s3/sigv4.cpp; HMAC-SHA256 is a parameter.
--   S3/Sigv4/Authorization: the reading of the Authorization header, of a credential, of the
--   signed headers' names and of the mode of the body, and the canonical value of a header. The
--   loop over the fields has a round of fuel for each byte of the header, and each round reads at
--   least the byte after a name.
-- - S3/Base64: backend/src/s3/base64.cpp. S3/Encoded: the continuation tokens of
--   backend/src/s3/bucket_handlers.cpp and the check of a Content-MD5 in handlers.cpp.
-- - S3/Chunked: backend/src/s3/chunked.cpp. Lines and Trailers have the parts of the framing,
--   Signed a description of a signed body apart from the decoder, Written and Accepted the two
--   compared, Fuel that the decoder ends, and Encodings the tokens of a Content-Encoding.
-- - S3/Cors: backend/src/s3/cors.cpp. Validation has the checks of a configuration, Patterns and
--   Decisions what the matching decides, Handlers the requests and the preflight over the context
--   of S3/Buckets, its child Changes what a change of the rules leaves for the next request, and
--   Unreadable the validation and the codec of the records together.
-- - Server/Sessions, Server/Throttle: backend/src/server/console_session.cpp. Server/History:
--   backend/src/server/metrics_history.cpp, with its ring in History/Buffer.
-- - Modules named Tests hold examples.
--
-- Numbers: a std::uint64_t is a natural number, and where the code adds or subtracts on 64 bits
-- the model does so modulo 2 ^ 64 (add64, sub64); a theorem that needs a sum not to wrap says so.
-- Loops are structural recursion, but for these, on fuel: writing a varint has as much fuel as
-- its value, which each step divides by 128; the eviction loop has one more than the entries, and
-- each round removes one; the search for a power of two has as much as its bound, and each step
-- doubles; the loops of the chunked decoder have the length of the body, and each round reads two
-- bytes at least (S3/Chunked/Fuel). What the theorems state of these routines holds with that
-- fuel.
--
-- Outside the model: the database itself and the failures it and the file system report, the
-- durability of a write, checkpoints but for their effect on reclamation, the listing of uploads,
-- the sweep of idle uploads, recovery and the consistency check, the wire forms of objects, parts
-- and uploads, the paths of files, digests, the canonical request and the checks around a
-- signature, policies, XML, the Redis backend, the routes of the console and of the server, and
-- the configuration. The cache that S3/Buckets uses is a dictionary that keeps what it is given,
-- with no expiry. A text is read as a string where the code compares it whole, and as its bytes
-- where the code walks it. Storage/Metadata keeps its rows as records, and a row that cannot be
-- read occurs only in S3/Buckets. The listing of objects starts after the check that the bucket
-- is there, abortUpload is one step although it reads the upload before its lock, the shared
-- caches are never given a null value, the clock and a time to live add up without overflow, and
-- the count of failed logins has no upper bound. The texts of messages, and the times of audit
-- entries, are left out.
pub mod Base
pub mod Core
pub mod Storage
pub mod Cache
pub mod S3
pub mod Server
