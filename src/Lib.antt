-- ===== src/Lib.antt =====
-- CDFS, a file store over HTTP: a request is routed to a handler, the handler reads the query or
-- the multipart form, and stores or finds a file's metadata in LevelDB.
--
-- The parts, and the files that model them:
-- - server/UrlUtils.cc (splitTarget, decode, parseQuery): Url, with Url/Targets, Url/Decoding and
--   Url/Queries. A thrown exception is a value of `Result` (Base/Exceptions).
-- - common/util.h (UrlDecode, ToHex, FromHex, VerbToString, the 64-bit byte order functions): Util,
--   with Util/ByteOrder. A failed assertion is `none`.
-- - server/MultipartParser.cc and .h (extract_value, parse): Multipart, with Multipart/Loop,
--   Multipart/Bodies, Multipart/Rounds, Multipart/Parts and Multipart/Values. The loop runs on
--   fuel, one more than the body is long;
--   each round that goes on moves forward inside the body, so the fuel is never used up.
-- - server/HttpContext.h: Context, with Context/Forms, and with the responses, the form cache
--   and parse_multipart.
-- - server/Router.cc and .h (add_route, add_prefix, dispatch, not_found): Router, with Router/Order,
--   Router/Exact and Router/Choice. A handler is a value of a type parameter, and a dispatch gives
--   the handler that is called with its context, or the answer that the router sends.
-- - file/CryptoUtils.h: Crypto, with Crypto/Names and Crypto/Texts. OpenSSL's digest is a
--   parameter.
-- - file/MetaFile.h and config/metaConfig.h: MetaFile. The JSON text of a file's metadata
--   (nlohmann's macros, dump and parse) is a parameter, `Codec`, with the promise that parse reads
--   what dump wrote.
-- - file/MetadataStore.cpp and .h: Metadata, with Metadata/Keys, Metadata/Lookup, Metadata/Saved,
--   Metadata/Removed, Metadata/Updated, Metadata/Indices, Metadata/Shards, Metadata/Listing and
--   Metadata/Statistics. The store is a record of the database, the configuration and the cached
--   statistics, and an operation takes it and returns it. Metadata/Catalogue has an abstract view
--   of the store, a set of files under their MD5; Metadata/Statuses, Metadata/Held,
--   Metadata/Simulation and Metadata/Refined relate the two.
-- - LevelDB is an interface, `LevelDb` in Database, with what its documentation promises: a batch
--   takes effect in its order, and an iterator goes over the entries in the order of the keys.
--   Database/Order and Database/Scan have the order and what a scan of a prefix finds, and
--   Database/Sorted is a store in memory that keeps the interface's promises.
-- - std::filesystem::path: Paths, with Paths/Joins, as the text that a path holds on POSIX.
-- - file/filestore.cpp and .h, config/StoreConfig.h: FileStore, with FileStore/Written,
--   FileStore/Reading, FileStore/Scenes, FileStore/Others, FileStore/Made and FileStore/Ready, over
--   Disk (with Disk/Directories), which models what the program uses of std::filesystem and the file streams:
--   the files with their contents, the directories, and, as a parameter, what the operating system
--   allows and keeps (`Device`).
-- - controller/FileCtl.cpp and .h (handleCheck, handleUpload, handleChunkUpload): FileCtl, with
--   FileCtl/Uploads and FileCtl/Stored. A handler takes the state of the server, which is the
--   metadata store, the disk and the counter of uploads, and gives the new state and the response.
-- - controller/FileCtl.cpp (handleDownload): Download, with Download/Served. common/MineMap.h:
--   Mime, with Mime/Letters.
-- - file/filestore.cpp (get_shard_index) and controller/FileCtl.cpp (handleCheckChunk, handleMerge):
--   Chunks, with Chunks/Merge for the handlers, and Chunks/Sorted, Chunks/Copied, Chunks/Listed,
--   Chunks/Merged, Chunks/Places, Chunks/Missed, Chunks/Uploaded and Chunks/Found. The order in which an iterator
--   gives the entries of a directory, and what a stream leaves in a file, are the parameter
--   `DirectoryService`.
-- - server/HttpSession.cc and .h, with the counters of const.h and common/global.cc: Session. Each
--   member function takes and gives the state, which is the session and the counters; on_read calls
--   Router.dispatch. Session/Steps has the steps that the socket, the timer and the handlers may
--   take as a relation, and Session/Watched, Session/Answers, Session/Endings and Session/Latency
--   what holds on every way that a connection takes.
-- - server/cServer.cc and .h, the accept loop: Accept, with Accept/Pending. It starts sessions with
--   Session's `run`.
-- - controller/SystemCtl.h: System, with System/Fields and System/Periods, on the texts of /proc and
--   the counters of Session.
-- - common/logStream.h and .cc, common/logger.h and .cc: Logging, with Logging/Lines,
--   Logging/Columns and Logging/Times.
-- - test/server_test.cc, the server program: Server, with the routes that it registers and a request
--   on the state of the whole program, and Server/Journey.
-- - JSON documents that the handlers build: Json.
-- - Base has what all parts share: numbers' tests, lists, byte texts with the standard library's
--   searches, maps, decimal texts, and the integers with std::stoi (Base/Int).
-- - The files below Tests run the definitions on small inputs.
--
-- Texts are lists of byte values. `size_t`, `uint64_t` and `uint32_t` arithmetic that can wrap is
-- written with its remainder. parse_query runs on the length of the query as fuel; every round goes
-- on behind an ampersand, so it is enough. std::sort leaves the order of prefixes of equal length
-- open; the model takes the insertion sort that common libraries use on short vectors. Sorting the
-- numbers of chunks has one result. The loop that raises the longest latency runs over the values
-- that its failed exchanges meet. The quotients of floating point numbers in SystemCtl are kept as
-- their two sides.
--
-- Not modelled: the sockets, of which only whether they are open is kept; the clock
-- (Timestamp::now), which is an argument; the locks: operations of the metadata store are steps that
-- do not overlap, as under its lock, and the one look-up of save_meta outside the lock is taken with
-- them; the constructor that opens the database; the threads of the server program: a request is
-- one step; what the handlers write to the log; AsyncLoging.h, which is empty, and node.h,
-- MetaFileSet.h, FileGuard.h and ShardedTransferConfig.h, which nothing uses.
pub mod Accept
pub mod Base
pub mod Chunks
pub mod Context
pub mod Crypto
pub mod Database
pub mod Disk
pub mod Download
pub mod FileCtl
pub mod FileStore
pub mod Json
pub mod Logging
pub mod MetaFile
pub mod Metadata
pub mod Mime
pub mod Multipart
pub mod Paths
pub mod Router
pub mod Server
pub mod Session
pub mod System
pub mod Tests
pub mod Url
pub mod Util
