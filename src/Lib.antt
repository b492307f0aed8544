-- ===== src/Lib.antt =====
-- Verification library of the key-value storage engine: stores behind one interface, a log-structured
-- hash table (`src/bitcask.cpp`), a log-structured merge tree (`src/lsm.cpp`) and a store in memory,
-- with the file formats, the in-memory structures and the merge that they use, and a protocol.
--
-- A byte is a number below 256, and a vector, a span and a string are lists of bytes. Integers are
-- natural numbers with the wrap-around of their C++ type written out. `Status` and `Result<T>` are
-- the result type of Prelude/Outcome; a status keeps its code and not its message. Code that the
-- repository does not hold is a parameter: zlib's crc32 (`Zlib` of Crc), and `std::lround` of the
-- bloom filter's probe count.
--
-- The files and the code that they model, by paths from the repository's root:
--   Encoding     src/encoding.hpp, and append_u32 and append_u64 of src/sstable.cpp and
--                src/manifest.cpp; Encoding/Cursor reads on from a position of a block
--   Crc          crc32_of of src/record.cpp
--   Record       include/kvstore/record.hpp and src/record.cpp: encode, decode_header, decode
--   LogScan      src/log_scan.cpp: scan_records with its visitor, over the bytes of a file
--   LogFile      include/kvstore/log_file.hpp and src/log_file.cpp: append with SyncMode, and the loop of
--                read_at
--   Wal          src/wal.cpp: append and replay_into, which cuts a torn tail off
--   Key          the byte order of std::string; SortedMap: std::map as a sorted list
--   Memtable     include/kvstore/memtable.hpp and src/memtable.cpp
--   Merge        src/lsm_iterator.hpp and src/lsm_iterator.cpp: MergingIterator::find_next_live
--   Bloom        include/kvstore/bloom.hpp, src/bloom.cpp and src/hash.hpp
--   Hint         include/kvstore/hint.hpp and src/hint.cpp
--   Manifest     include/kvstore/manifest.hpp and src/manifest.cpp: the level set and its bytes
--   Compaction   src/lsm_compaction.cpp: pick_compaction and what it calls
--   SsTable      include/kvstore/sstable.hpp and src/sstable.cpp: blocks, footer and builder;
--                SsTable/Table is class SSTable: load and lookup over the bytes of the file
--   Lsm          include/kvstore/lsm.hpp and src/lsm.cpp: get and write_entry; Lsm/Flushing is
--                build_table_unlocked, run_flush, background_loop and flush; Lsm/Opening is recover; Lsm/Figures the
--                diagnostics
--   Bitcask      include/kvstore/index.hpp, include/kvstore/bitcask.hpp and src/bitcask.cpp: put, get,
--                remove and the rotation of files; Bitcask/Replay is recover over data
--                files, and Bitcask/Hints replay_hint
--   FileNames    include/kvstore/file_names.hpp
--   MemoryStore  include/kvstore/memory_store.hpp and src/memory_store.cpp
--   Wire         src/wire.hpp: big-endian integers
--   Protocol     include/kvstore/protocol.hpp and src/protocol.cpp: messages, and FrameReader over
--                the list of what the socket's calls give
--   Tests        the theorems at concrete inputs
--
-- How the parts meet: a write of the store (Lsm) goes to the log (Wal) and to the memtable (Memtable); a
-- full memtable is frozen, built into a table (SsTable, Bloom) and named by the manifest (Manifest); a
-- read asks the memtables and then the tables, level by level; recovery reads the log back through
-- LogScan; a compaction is picked from the level set (Compaction) and merges its tables through Merge.
--
-- The hash table's recovery is modelled with the hints beside sealed files; the theorem on the map that
-- it rebuilds is for a store without hints or one that ignores them.
--
-- The store's threads are steps on one state, each taken while the code holds its lock. `flush` is
-- modelled under the schedule in which the background thread runs until it waits, at each wait of the
-- call, and no other writer comes between. From a flush the thread goes on, the lock held, to look for a
-- compaction; needs_compaction is modelled, and where a compaction would start the model gives none,
-- since the run of a compaction is not modelled.
--
-- The operating system's answers to a write are an argument: how many bytes `pwrite` took before it
-- failed, what `fsync` said, and the first error of the change of logs. A log file knows how many of its
-- bytes the device holds, which is all of them after an append under SyncMode::Always and none more
-- under SyncMode::Never; a crash keeps those and any more from the front, so it takes bytes from the
-- log's end only. A log that was closed by a change of logs that failed is none, which answers an append
-- with the same error.
--
-- Fuel: the scan of a file takes one round more than the file has bytes, and each round takes a
-- record of 21 bytes at least; the merge takes one round more than its sources have rows, and each
-- round takes a row at least; parse_block takes one round more than the block has bytes, and each
-- round takes an entry's header, and the loop over a hint file likewise. The loop of read_at takes one
-- round more than the bytes it wants, and each round reads a byte at least.
--
-- Not modelled: other system calls (files, sockets, maps of memory) and their failures, locks and lock-free
-- interleavings, statistics, the hash table's compaction, the command-line programs and
-- the benchmarks.
pub mod Prelude
pub mod Encoding
pub mod Crc
pub mod Record
pub mod Key
pub mod SortedMap
pub mod Memtable
pub mod LogFile
pub mod LogScan
pub mod Lsm
pub mod Hint
pub mod FileNames
pub mod Bitcask
pub mod Bloom
pub mod Manifest
pub mod Compaction
pub mod MemoryStore
pub mod Merge
pub mod Wire
pub mod Protocol
pub mod SsTable
pub mod Wal
pub mod Tests
