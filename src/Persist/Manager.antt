-- ===== src/Persist/Manager.antt =====
-- internal/arena/persist: the checkpoint in the arena file (checkpoint.go, recovery.go), and the parts of
-- the PersistentManager of persist.go that save and load the index. The file is the memory of the
-- manager's first region; the disk's own errors are left out, so Sync does nothing.
pub mod Saved
pub mod Restore
pub mod Progress
pub mod Examples
use horreum.Common.{
  ℕ, ◌+◌, ◌-◌, ◌*◌, ◌^◌, Bool, true, false, Option, none, some, List, [], ◌∷◌, ltb, ◌==◌,
  if◌then◌else◌, not, length, take, drop, replicate,
}
use horreum.Bytes.{Bytes, uint64, bytes_eq}
use horreum.Bytes.Splice.{spliced}
use horreum.Arena.Region.{Handle}
use horreum.Arena.Manager.{Manager, set_live_objects, set_used_bytes}
use horreum.Index.Rounds.{Loop, returns, forever, ◌>>=◌}
use horreum.Index.{Entry, HashIndex, delete}
use horreum.Index
use horreum.Index.Scan.{snapshot}
use horreum.Index.Restore.{add_all}
use horreum.Persist.Wal.{Wal, rotate}
use horreum.Persist.Wal
use horreum.Persist.Recovery.{IndexWriter, replay_to}
use horreum.Persist.Superblock.{
  Superblock, superblock, too_small, bad_magic, bad_version, superblock_size, encode_superblock,
  decode_superblock, index_checkpoint_max_len,
}
use horreum.Persist.Checkpoint.{
  Encoded, written, buffer_too_small, key_too_long, buffer_overflow, encode_checkpoint,
  checkpoint_magic, decode_checkpoint,
}
use horreum.Persist.Checkpoint

-- copyArenaTo of `n` bytes; `none` is its error.
unfoldable pub copy_arena_to : Bytes → ℕ → ℕ → Option Bytes
copy_arena_to file off n =
    if ltb (length file) (uint64 (off + n)) then none else some (take n (drop off file))

-- copyToArena
unfoldable pub copy_to_arena : Bytes → ℕ → Bytes → Option Bytes
copy_to_arena file off buf =
    if ltb (length file) (uint64 (off + length buf)) then none else some (spliced off buf file)

-- readSuperblock; `none` is any of its errors.
unfoldable pub read_superblock : Bytes → Option Superblock
read_superblock file = elim (copy_arena_to file 0 superblock_size) [
  | none ↦ none
  | some buf ↦ elim (decode_superblock buf) [
    | superblock sb ↦ some sb
    | too_small ↦ none
    | bad_magic ↦ none
    | bad_version ↦ none
  ]
]

-- setSuperblock
unfoldable pub set_superblock : Bytes → Superblock → Option Bytes
set_superblock file sb = elim (encode_superblock (replicate superblock_size 0) sb) [
  | none ↦ none
  | some buf ↦ copy_to_arena file 0 buf
]

-- The superblock that writeCheckpoint sets.
abbrev pub checkpoint_superblock : ℕ → Superblock → Superblock
checkpoint_superblock count sb = record sb { checkpoint_count = count; wal_offset = 0 }

-- writeCheckpoint: the file that it leaves, and whether it returns without an error.
unfoldable pub write_checkpoint : Bytes → List (Entry Handle) → ℕ → Bytes × Bool
write_checkpoint file snap region_size =
    elim (encode_checkpoint (index_checkpoint_max_len region_size) snap) [
      | buffer_too_small ↦ (file, false)
      | key_too_long ↦ (file, false)
      | buffer_overflow ↦ (file, false)
      | written buf ↦ elim (copy_to_arena file superblock_size buf) [
        | none ↦ (file, false)
        | some file1 ↦ elim (read_superblock file1) [
          | none ↦ (file1, false)
          | some sb ↦ elim (set_superblock file1 (checkpoint_superblock (length snap) sb)) [
            | none ↦ (file1, false)
            | some file2 ↦ (file2, true)
          ]
        ]
      ]
    ]

-- loadCheckpoint; `none` is the error of its read.
unfoldable pub load_checkpoint : Bytes → ℕ → Option Checkpoint.Decoded
load_checkpoint file region_size =
    elim (copy_arena_to file superblock_size (index_checkpoint_max_len region_size)) [
      | none ↦ none
      | some body ↦ some (
          if not (bytes_eq (take 4 body) checkpoint_magic)
          then Checkpoint.bad_magic
          else decode_checkpoint body)
    ]

-- The handle that ReplayTo makes of a record's, and back.
abbrev pub arena_handle : Wal.Handle → Handle
arena_handle h = record { offset = h.offset; size = h.size; meta = 0; region = h.region }

abbrev pub wal_handle : Handle → Wal.Handle
wal_handle h = record { offset = h.offset; size = h.size; region = h.region }

-- What a call on the index answers, while the index runs on.
abbrev pub answer_of : {A : Type 0} → A → Loop (HashIndex Handle × A) → A
answer_of a (returns r) = r.1
answer_of a forever = a

-- Put of a record's key, which Next leaves nil where it is empty.
abbrev pub put_record : HashIndex Handle → Bytes → Handle → ℕ → Loop (HashIndex Handle × Bool)
put_record idx [] h expires_at = Index.put_nil idx h expires_at
put_record idx (b ∷ key) h expires_at = Index.put idx (b ∷ key) h expires_at

-- HashIndex as an IndexWriter.
abbrev pub index_writer : IndexWriter (Loop (HashIndex Handle))
index_writer = record {
  put = λ key h expires_at i.
      let r = i >>= λ idx. put_record idx key (arena_handle h) expires_at in
      (r >>= λ x. returns x.0, answer_of false r);
  delete = λ key i.
      let r = i >>= λ idx. delete idx key in
      (
        r >>= λ x. returns x.0,
        elim (answer_of none r) [ none ↦ none | some h ↦ some (wal_handle h) ],
      );
}

-- What LoadIndex makes of the index, or its error.
pub data Loaded : Type 0 where
  loaded : Loop (HashIndex Handle) → Loaded
  load_failed : Loaded

-- LoadIndex, without its call of syncLiveObjects.
unfoldable pub load_index : Bytes → Wal → ℕ → HashIndex Handle → Loaded
load_index file wal region_size idx = elim (load_checkpoint file region_size) [
  | none ↦ load_failed
  | some d ↦ elim d [
    | Checkpoint.bad_magic ↦ loaded (replay_to index_writer wal (returns idx))
    | Checkpoint.too_small ↦ load_failed
    | Checkpoint.bad_version ↦ load_failed
    | Checkpoint.truncated ↦ load_failed
    | Checkpoint.key_truncated ↦ load_failed
    | Checkpoint.entries snap end ↦ loaded (replay_to index_writer wal (add_all idx snap))
  ]
]

-- The sum of syncLiveObjects.
abbrev pub used_by : List (Entry Handle) → ℕ
used_by [] = 0
used_by (se ∷ snap) = uint64 (se.handle.size + used_by snap)

-- syncLiveObjects
unfoldable pub sync_live_objects : HashIndex Handle → Manager → Manager
sync_live_objects idx m = set_used_bytes (used_by (snapshot idx)) (set_live_objects idx.count m)

-- Checkpoint: the file and the log that it leaves, and whether it returns without an error.
unfoldable pub checkpoint : Bytes → Wal → ℕ → HashIndex Handle → Bytes × Wal × Bool
checkpoint file wal region_size idx =
    let r = write_checkpoint file (snapshot idx) region_size in
    if r.1 then (r.0, rotate wal, true) else (r.0, wal, false)
