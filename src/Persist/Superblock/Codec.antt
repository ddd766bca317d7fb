-- ===== src/Persist/Superblock/Codec.antt =====
-- encodeSuperblock and decodeSuperblock of superblock.go undo each other.
use horreum.Common.{
  ℕ, ◌+◌, ◌^◌, ◌<◌, ◌≤◌, ◌≡◌, refl, true, false, none, some, [], ◌∷◌, ◌++◌, arith, ltb, ◌==◌,
  length, take, drop, replicate, length-replicate, if◌then◌else◌, length-append,
}
use mathlib.Core.Option
use horreum.Bytes.{
  Bytes, put_uint32, put_uint64, get_uint32, get_uint64, bytes_eq, get-put_uint32, get-put_uint64,
}
use horreum.Persist.Superblock.{
  Superblock, superblock, superblock_fields, bad_version, encode_superblock, decode_superblock,
}

-- Every field holds in its width.
pub record Fits (sb : Superblock) : Type 0 where
  pub version_fits : sb.version < 2 ^ 32
  pub region_size_fits : sb.region_size < 2 ^ 64
  pub index_offset_fits : sb.index_offset < 2 ^ 64
  pub index_len_fits : sb.index_len < 2 ^ 64
  pub wal_offset_fits : sb.wal_offset < 2 ^ 64
  pub flags_fits : sb.flags < 2 ^ 32
  pub checkpoint_count_fits : sb.checkpoint_count < 2 ^ 64

module _ (sb : Superblock) (f : Fits sb) (tail : Bytes) where
  abbrev bytes : Bytes
  bytes = superblock_fields sb ++ tail

  magic_at :
      bytes_eq (take 8 bytes) (0x48 ∷ 0x4f ∷ 0x52 ∷ 0x52 ∷ 0x45 ∷ 0x55 ∷ 0x4d ∷ 0 ∷ []) ≡ true
  unfolding bytes_eq
  magic_at = refl

  version_at : get_uint32 (drop 8 bytes) ≡ sb.version
  unfolding put_uint32
  version_at = get-put_uint32 sb.version _ f.version_fits

  region_size_at : get_uint64 (drop 12 bytes) ≡ sb.region_size
  unfolding put_uint32 put_uint64
  region_size_at = get-put_uint64 sb.region_size _ f.region_size_fits

  index_offset_at : get_uint64 (drop 20 bytes) ≡ sb.index_offset
  unfolding put_uint32 put_uint64
  index_offset_at = get-put_uint64 sb.index_offset _ f.index_offset_fits

  index_len_at : get_uint64 (drop 28 bytes) ≡ sb.index_len
  unfolding put_uint32 put_uint64
  index_len_at = get-put_uint64 sb.index_len _ f.index_len_fits

  wal_offset_at : get_uint64 (drop 36 bytes) ≡ sb.wal_offset
  unfolding put_uint32 put_uint64
  wal_offset_at = get-put_uint64 sb.wal_offset _ f.wal_offset_fits

  flags_at : get_uint32 (drop 44 bytes) ≡ sb.flags
  unfolding put_uint32 put_uint64
  flags_at = get-put_uint32 sb.flags _ f.flags_fits

  checkpoint_count_at : get_uint64 (drop 48 bytes) ≡ sb.checkpoint_count
  unfolding put_uint32 put_uint64
  checkpoint_count_at = get-put_uint64 sb.checkpoint_count tail f.checkpoint_count_fits

pub length-fields : (sb : Superblock) → length (superblock_fields sb) ≡ 56
unfolding put_uint32 put_uint64
length-fields sb = refl

padded : (n : ℕ) (rest : Bytes) → n ≤ length (replicate n 0 ++ rest)
padded n rest =
    omega (arith, length-append {A = ℕ} (replicate n 0) rest, length-replicate {A = ℕ} n 0)

reaches :
    (xs ys : Bytes) (m n : ℕ)
    → length xs ≡ m
    → n ≤ length ys
    → ltb (length (xs ++ ys)) (m + n) ≡ false
reaches xs ys m n e h = ground (arith, length-append xs ys, e, h)

decode-fields :
    (sb : Superblock) (tail : Bytes)
    → Fits sb
    → ltb (length (superblock_fields sb ++ tail)) 4096 ≡ false
    → decode_superblock (superblock_fields sb ++ tail)
      ≡ (if sb.version == 1 then superblock sb else bad_version)
unfolding decode_superblock
decode-fields sb tail f enough =
    rw
      (
        enough,
        magic_at sb f tail,
        version_at sb f tail,
        region_size_at sb f tail,
        index_offset_at sb f tail,
        index_len_at sb f tail,
        wal_offset_at sb f tail,
        flags_at sb f tail,
        checkpoint_count_at sb f tail,
      )
      (ground arith)

-- decodeSuperblock of what encodeSuperblock leaves in a buffer is the superblock again if its version
-- is 1, and the error of a bad version if not; encodeSuperblock panics exactly on a buffer of less
-- than 4096 bytes.
pub decode-encode_superblock :
    (buf : Bytes) (sb : Superblock)
    → Fits sb
    → Option.map decode_superblock (encode_superblock buf sb) ≡ (
        if ltb (length buf) 4096
        then none
        else some (if sb.version == 1 then superblock sb else bad_version))
unfolding encode_superblock
decode-encode_superblock buf sb f = ground (arith, wide, decode-fields sb tail f)
  where
    tail : Bytes
    tail = replicate 4040 0 ++ drop 4096 buf

    wide : ltb (length (superblock_fields sb ++ tail)) 4096 ≡ false
    wide =
        reaches (superblock_fields sb) tail 56 4040 (length-fields sb) (padded 4040 (drop 4096 buf))
