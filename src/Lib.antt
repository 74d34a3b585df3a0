-- ===== src/Lib.antt =====
-- demostroage: the storage daemon of a small distributed file store, in the manner of FastDFS.
--
-- A client connects, sends a header of eleven bytes and a package, and is answered with a header
-- and data; one thread serves a connection. Files lie under `base_path/data`, what was changed is
-- written to a binlog, and counters of requests to a statistics file.
--
-- The files, and the code that each is about:
-- - Prelude: tests, lists and integers over the native numbers.
-- - Libc: what is used of the C library's string functions, qsort and bsearch.
-- - Shared: shared_func.c (trim, splitEx, getOccurCount, int2buff, chopPath).
-- - Hash: hash.c (PJWHash).
-- - Base64: fdfs_base64.c (base64_encode_ex), over a record of its static variables.
-- - LocalHost: storage_global.c (is_local_host_ip, insert_into_local_host_ip).
-- - Metadata: the metadata of tracker_proto.c and storage_sort_metadata_buff.
-- - Runtime: the state (a connection, the system, the global variables) and commands over it: a
--   run gives a value, leaves a block with a status, is undefined, or lacks fuel. Keeps and
--   Frames say which predicates a command keeps, Runs how a run goes on.
-- - Posix: the system calls. Any call may fail, by a list of coming outcomes.
-- - Socket: sockopt.c (tcprecvdata, tcpsenddata), over what `select`, `read` and `write` give.
-- - FileIo: getFileContent and writeToFile of shared_func.c.
-- - Binlog: storage_sync.c (storage_sync_init, storage_binlog_write, rotation).
-- - Wire: the header and the commands of include/tracker_proto.h.
-- - Ini: ini_file_reader.c, over fgets, qsort and bsearch (Libc).
-- - StatFile: the statistics file of storage_func.c, written, and read when the daemon starts.
-- - Conf: storage_load_from_conf_file of storage_func.c, with the sorted array of trackers.
-- - Service: storage_service.c. Reading has the handlers of downloads and metadata, Deleting,
--   Replicating, SetMeta and Uploading those of the other commands, Loop the thread of a
--   connection (storage_thread_entrance).
-- - DataDirs: the folders of the data, made by storage_check_and_make_data_dirs.
-- - Tracker: tracker_validate_group_name, tracker_quit and tracker_recv_response of
--   tracker_proto.c.
-- - Reporter: the messages of tracker_client_thread.c to a tracker, and the parts of a session.
-- - Launch: main.c up to the threads, and the folder of the log.
-- - Threads: the rest of main.c and the ends of the threads, as a step relation on counters and
--   flags.
-- - Tests: runs at concrete inputs.
--
-- A handler of the code sets `resp.status` in a block `while (1) { … break; }` and replies behind
-- it: here `block` is such a block and `leave` such a break. Memory is not modelled but for the
-- places where the code reads or writes outside of it, which are undefined here, and for bytes
-- that nothing has written, which are an arbitrary function.
--
-- Bounds and fuel: an `int` is a 32-bit pattern, written out where it wraps. Loops over strings
-- recurse on the string or on its length. The loop of a connection has fuel, and more fuel than
-- the bytes and events that the connection has in store is enough. The search for a name makes
-- the 1024 tries of the code. `iniLoadItems` reads at most as many lines as the file has bytes,
-- which is the fuel of its loop.
--
-- The name of a tracker is resolved by a parameter, for getIpaddrByName of sockopt.c, which asks the
-- C library's resolver. What a peer sends and how it is cut into packets is part of the state.
--
-- Not modelled: the log (logger.c) but for its folder and its effect on errno; daemon_init;
-- socketServer, nbaccept, connectserverbyip and getIpaddr of sockopt.c, which only pass on what the
-- kernel gives. The steps of Threads interleave the starts and ends of the threads, not what they do
-- in between: a session of a thread with its tracker (Reporter.Session) is one of its phases.
pub mod Prelude
pub mod Libc
pub mod Shared
pub mod Hash
pub mod Base64
pub mod LocalHost
pub mod Metadata
pub mod Runtime
pub mod Posix
pub mod Socket
pub mod FileIo
pub mod Binlog
pub mod Wire
pub mod StatFile
pub mod Service
pub mod Conf
pub mod DataDirs
pub mod Ini
pub mod Launch
pub mod Reporter
pub mod Tests
pub mod Threads
pub mod Tracker
