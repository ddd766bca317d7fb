-- ===== src/Persist/Checkpoint.antt =====
-- internal/arena/persist/checkpoint.go: the bytes of a snapshot of the index. The buffer behind the
-- bytes written stays as it is, so an encoding is the bytes that it writes.
pub mod Codec
pub mod RoundTrip
use horreum.Common.{
  ℕ, zero, suc, ◌+◌, ◌-◌, ◌^◌, Bool, List, [], ◌∷◌, ◌++◌, ltb, ◌==◌, ◌&&◌, if◌then◌else◌, not,
  length, take, drop, replicate,
}
use horreum.Bytes.{
  Bytes, byte, uint8, uint16, uint32, put_uint16, put_uint32, put_uint64, get_uint16, get_uint32,
  get_uint64, bytes_eq,
}
use horreum.Arena.Region.{Handle}
use horreum.Index.{Entry}

-- "IDX\0"
abbrev pub checkpoint_magic : Bytes
checkpoint_magic = 0x49 ∷ 0x44 ∷ 0x58 ∷ 0 ∷ []

abbrev pub checkpoint_version : ℕ
checkpoint_version = 1

abbrev pub checkpoint_header_size : ℕ
checkpoint_header_size = 4 + 4 + 4

abbrev pub checkpoint_entry_fixed_size : ℕ
checkpoint_entry_fixed_size = 8 + 2 + 4 + 4 + 1 + 1 + 4

-- What encodeCheckpoint returns: the bytes written, or an error.
pub data Encoded : Type 0 where
  written : Bytes → Encoded
  buffer_too_small key_too_long buffer_overflow : Encoded

-- The fields of an entry in front of its key.
abbrev pub entry_fields : Entry Handle → Bytes
entry_fields se =
    put_uint64 se.hash
    ++ (put_uint16 (length se.key)
        ++ (put_uint32 se.handle.offset
            ++ (put_uint32 se.handle.size ++ (uint8 se.handle.region ∷ uint8 se.handle.meta ∷ []))))

-- The key in line, filled up to four bytes with zeros.
abbrev pub key_field : Bytes → Bytes
key_field key = take 4 key ++ (replicate (4 - length key) 0 ++ drop 4 key)

-- The loop of encodeCheckpoint in a buffer of `cap` bytes.
unfoldable pub encode_entries : ℕ → List (Entry Handle) → ℕ → Encoded
encode_entries cap [] pos = written []
encode_entries cap (se ∷ snap) pos =
    let entry_size = checkpoint_entry_fixed_size + (length se.key - 4) in
    let rest = encode_entries cap snap (pos + entry_size) in
    if ltb 0xFFFF (length se.key)
    then key_too_long
    else if ltb cap (pos + entry_size)
    then buffer_overflow
    else elim rest [
      | written bytes ↦ written (entry_fields se ++ (key_field se.key ++ bytes))
      | buffer_too_small ↦ buffer_too_small
      | key_too_long ↦ key_too_long
      | buffer_overflow ↦ buffer_overflow
    ]

-- encodeCheckpoint
unfoldable pub encode_checkpoint : ℕ → List (Entry Handle) → Encoded
encode_checkpoint cap snap =
    if ltb cap checkpoint_header_size
    then buffer_too_small
    else elim (encode_entries cap snap checkpoint_header_size) [
      | written bytes ↦ written (
          checkpoint_magic
          ++ (put_uint32 checkpoint_version ++ (put_uint32 (length snap) ++ bytes)))
      | buffer_too_small ↦ buffer_too_small
      | key_too_long ↦ key_too_long
      | buffer_overflow ↦ buffer_overflow
    ]

-- What decodeCheckpoint returns: the entries with the count of bytes consumed, or an error.
pub data Decoded : Type 0 where
  entries : List (Entry Handle) → ℕ → Decoded
  too_small bad_magic bad_version truncated key_truncated : Decoded

-- One entry of the loop of decodeCheckpoint, at the front of buf[pos:].
abbrev pub decode_entry : Bytes → Entry Handle
decode_entry entry =
    let key_len = get_uint16 (drop 8 entry) in
    let in_line = if ltb key_len 4 then key_len else 4 in
    record {
      hash = get_uint64 entry;
      key_len = uint16 key_len;
      handle = record {
        offset = get_uint32 (drop 10 entry);
        size = get_uint32 (drop 14 entry);
        meta = byte (drop 19 entry);
        region = byte (drop 18 entry);
      };
      expires_at = 0;
      key = take in_line (drop 20 entry) ++ take (key_len - 4) (drop 24 entry);
    }

-- The loop of decodeCheckpoint over the entries left; `rest` is buf[pos:].
unfoldable pub decode_entries : ℕ → Bytes → ℕ → Decoded
decode_entries zero rest pos = entries [] pos
decode_entries (suc n) rest pos =
    let more = get_uint16 (drop 8 rest) - 4 in
    let others = decode_entries n (drop (24 + more) rest) (pos + (24 + more)) in
    if ltb (length rest) checkpoint_entry_fixed_size
    then truncated
    else if ltb (length rest) (checkpoint_entry_fixed_size + more)
    then key_truncated
    else elim others [
      | entries es end ↦ entries (decode_entry rest ∷ es) end
      | too_small ↦ too_small
      | bad_magic ↦ bad_magic
      | bad_version ↦ bad_version
      | truncated ↦ truncated
      | key_truncated ↦ key_truncated
    ]

-- decodeCheckpoint
unfoldable pub decode_checkpoint : Bytes → Decoded
decode_checkpoint buf =
    if ltb (length buf) checkpoint_header_size
    then too_small
    else if not (bytes_eq (take 4 buf) checkpoint_magic)
    then bad_magic
    else if not (get_uint32 (drop 4 buf) == checkpoint_version)
    then bad_version
    else decode_entries (get_uint32 (drop 8 buf)) (drop 12 buf) 12
