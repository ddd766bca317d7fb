-- ===== src/Persist/Superblock.antt =====
-- internal/arena/persist/superblock.go, and the superblock of a fresh file from recovery.go.
pub mod Codec
use horreum.Common.{
  ℕ, ◌+◌, ◌-◌, ◌*◌, ◌/◌, ◌^◌, Bool, Option, none, some, List, [], ◌∷◌, ◌++◌, ltb, ◌==◌,
  if◌then◌else◌, not, length, take, drop, replicate,
}
use horreum.Bytes.{Bytes, put_uint32, put_uint64, get_uint32, get_uint64, uint64, bytes_eq}

abbrev pub superblock_size : ℕ
superblock_size = 4096

-- "HORREUM\0"
abbrev pub superblock_magic : Bytes
superblock_magic = 0x48 ∷ 0x4f ∷ 0x52 ∷ 0x52 ∷ 0x45 ∷ 0x55 ∷ 0x4d ∷ 0 ∷ []

abbrev pub superblock_version : ℕ
superblock_version = 1

pub record Superblock : Type 0 where
  pub version : ℕ
  pub region_size : ℕ
  pub index_offset : ℕ
  pub index_len : ℕ
  pub wal_offset : ℕ
  pub flags : ℕ
  pub checkpoint_count : ℕ

pub data Decoded : Type 0 where
  too_small bad_magic bad_version : Decoded
  superblock : Superblock → Decoded

abbrev pub superblock_fields : Superblock → Bytes
superblock_fields sb =
    superblock_magic
    ++ (put_uint32 sb.version
        ++ (put_uint64 sb.region_size
            ++ (put_uint64 sb.index_offset
                ++ (put_uint64 sb.index_len
                    ++ (put_uint64 sb.wal_offset
                        ++ (put_uint32 sb.flags ++ put_uint64 sb.checkpoint_count))))))

-- encodeSuperblock: the buffer that it leaves; `none` is its panic.
unfoldable pub encode_superblock : Bytes → Superblock → Option Bytes
encode_superblock buf sb =
    if ltb (length buf) superblock_size
    then none
    else some
        (superblock_fields sb ++ (replicate (superblock_size - 56) 0 ++ drop superblock_size buf))

-- decodeSuperblock
unfoldable pub decode_superblock : Bytes → Decoded
decode_superblock buf =
    if ltb (length buf) superblock_size
    then too_small
    else if not (bytes_eq (take 8 buf) superblock_magic)
    then bad_magic
    else if not (get_uint32 (drop 8 buf) == superblock_version)
    then bad_version
    else superblock (record {
      version = get_uint32 (drop 8 buf);
      region_size = get_uint64 (drop 12 buf);
      index_offset = get_uint64 (drop 20 buf);
      index_len = get_uint64 (drop 28 buf);
      wal_offset = get_uint64 (drop 36 buf);
      flags = get_uint32 (drop 44 buf);
      checkpoint_count = get_uint64 (drop 48 buf);
    })

-- indexCheckpointMaxLen
unfoldable pub index_checkpoint_max_len : ℕ → ℕ
index_checkpoint_max_len region_size =
    let v = region_size / 8 in
    let capped = if ltb (2 ^ 20) v then 2 ^ 20 else v in if ltb capped 4096 then 4096 else capped

-- walMaxLen
unfoldable pub wal_max_len : ℕ → ℕ
wal_max_len region_size =
    let v = region_size / 4 in
    let capped = if ltb (64 * 2 ^ 20) v then 64 * 2 ^ 20 else v in
    if ltb capped 4096 then 4096 else capped

-- The superblock of writeFreshSuperblock.
unfoldable pub fresh_superblock : ℕ → Superblock
fresh_superblock region_size = record {
  version = superblock_version;
  region_size = region_size;
  index_offset = superblock_size;
  index_len = index_checkpoint_max_len region_size;
  wal_offset = uint64 (superblock_size + index_checkpoint_max_len region_size);
  flags = 0;
  checkpoint_count = 0;
}
