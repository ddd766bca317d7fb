-- ===== src/Lib.antt =====
-- horreum: an in-memory cache with arenas, a binary protocol and a write-ahead log.
--
-- The parts of the program that are modelled, and the files that model them:
--
--   Common, Bytes        shared names; byte slices, encoding/binary in little-endian order, slices by
--                        offset, and positions inside a slice.
--   Ds                   internal/ds: a value that is a list, a set or a hash is one byte payload.
--                        ListPayload is list.go (l_push is LPush, and so on), SetPayload is set.go,
--                        HashPayload is hash.go. Deque, SetPayload/Refine and HashPayload/Refine
--                        have the abstract views: a deque, a membership test, a lookup.
--   Proto                internal/proto/proto.go: the frames, the encoders (Encode), parseIn and Feed
--                        (Parse). Decode is what a whole stream of bytes holds; Feed and Chunks relate
--                        Feed to it, Overwrite is about the compaction of the pending bytes.
--   Persist              internal/arena/persist: Wal is wal.go, Recovery is ReplayTo of recovery.go,
--                        Superblock is superblock.go, Checkpoint is checkpoint.go, and Manager has
--                        the parts of persist.go that save and load the index.
--   Arena                internal/arena: Allocator is allocator.go; Region, Manager and Meta are arena.go.
--                        Apart and Fresh are about the blocks of one region, Keeps and Live about the
--                        values that Put has stored, Restart about SetUsedBytes.
--   Index                internal/index/index.go: the table with linear probing, growth and
--                        backward-shift deletion (Index), and its walks over all positions (Scan).
--                        Ring to Delete are the invariant of the table and its operations, Refine
--                        the map that it stands for, Restore the snapshot that a checkpoint takes.
--   Eviction             internal/eviction: Queue is queue.go, Ghost is ghost.go, and S3Fifo is
--                        s3fifo.go, the policy over both and the manager's counters.
--
-- How they interact: a connection cuts its stream into chunks and hands each to Feed; the handlers
-- turn a frame into a call on a payload, which stands in a block of the arena; each write is also
-- appended to the log, and a restart opens the log, cuts a torn record off, and replays the rest
-- into the index: any IndexWriter in Recovery, the table of Index in Persist/Manager. A checkpoint
-- writes a snapshot of the table into the arena file and empties the log. A value in a block of the arena
-- is named by a handle, which is what the table holds; the policy that chooses the values to evict keeps
-- their frequencies and queues in the counters of the arena's manager.
--
-- State is passed explicitly: an operation takes a payload, a parser, a log or an allocator and
-- returns the new one with its result. A panic is `none` of an Option or a reply of its own; an error is
-- a value. Integers are natural numbers with the wrap-around of their width written out.
-- The views of a frame are its offsets into the parser's array, so that what the compaction does
-- to them is part of the model; the growth of `append`, the memory that the
-- system maps for a new region, and the fingerprint of a key are parameters.
--
-- Fuel: the loops of Feed take the length of the buffer plus one, the walk of repairTail the length
-- of the file, and ReplayTo the write offset; each round consumes a header of ten or eleven bytes at
-- least, so these are enough; the loop of NewGhostIndex and NewRingBuffer takes
-- 64 rounds, after which its doubling has wrapped to 0 and it never ends. The walks of the index
-- take as many rounds as the table has positions, and DeletePrefix as many as
-- positions and entries, which is enough on a table with a free position; Put nests two calls of
-- grow at most, since grow fills a table to the half. The loops over the entries of a payload
-- recurse on the count in its header.
--
-- Not modelled: the disk's own errors, system calls, mutexes and concurrency, which no definition
-- here speaks of. Of the persistent manager New, Put, Delete and the ticker, of recovery ColdStart,
-- of the arena's manager Stats, Sync and Close, which are mostly calls of the system; LZ4,
-- encryption, the handlers that turn a frame into calls and the servers around them, configuration,
-- metrics and shutdown.
pub mod Common
pub mod Bytes
pub mod Ds
pub mod Proto
pub mod Persist
pub mod Arena
pub mod Index
pub mod Eviction
