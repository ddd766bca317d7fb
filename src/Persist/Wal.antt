-- ===== src/Persist/Wal.antt =====
-- internal/arena/persist/wal.go: the append-only log. A file is its bytes; os.File reads and writes
-- at an offset, and every error of the disk itself is left out. A crash is a file cut short.
pub mod Log
pub mod Iterate
pub mod Append
pub mod Repair
use horreum.Common.{
  ℕ, zero, suc, ◌+◌, ◌-◌, Bool, true, false, Option, none, some, List, [], ◌∷◌, ◌++◌, ltb, leb,
  ◌==◌, ◌||◌, ◌&&◌, if◌then◌else◌, length, drop, take, not, replicate,
}
use horreum.Bytes.{
  Bytes, byte, uint16, uint32, put_uint16, put_uint32, get_uint16, get_uint32, slice, bytes_eq,
}

-- The op codes.
abbrev pub wal_op_set : ℕ
wal_op_set = 1

abbrev pub wal_op_del : ℕ
wal_op_del = 2

abbrev pub wal_op_set_ex : ℕ
wal_op_set_ex = 3

abbrev pub wal_header_size_set : ℕ
wal_header_size_set = 4 + 1 + 2 + 4 + 4 + 4 + 1

abbrev pub wal_header_size_set_ex : ℕ
wal_header_size_set_ex = 4 + 1 + 2 + 4 + 4 + 4 + 1 + 4

abbrev pub wal_header_size_del : ℕ
wal_header_size_del = 4 + 1 + 2 + 4

-- "WAL\0"
abbrev pub wal_magic : Bytes
wal_magic = 0x57 ∷ 0x41 ∷ 0x4c ∷ 0 ∷ []

-- walHeaderSize; `none` is its -1.
abbrev pub wal_header_size : ℕ → Option ℕ
wal_header_size op =
    if op == wal_op_set
    then some wal_header_size_set
    else if op == wal_op_set_ex
    then some wal_header_size_set_ex
    else if op == wal_op_del
    then some wal_header_size_del
    else none

-- arenaHandleLike
pub record Handle : Type 0 where
  pub offset : ℕ
  pub size : ℕ
  pub region : ℕ

abbrev no_handle : Handle
no_handle = record { offset = 0; size = 0; region = 0 }

pub record Wal : Type 0 where
  pub file : Bytes
  pub off : ℕ
  pub max_off : ℕ

pub data WalError : Type 0 where
  unknown_op log_full : WalError

pub data Appended : Type 0 where
  refused : WalError → Appended
  appended : Wal → ℕ → Appended

-- os.File.WriteAt
unfoldable pub write_at : Bytes → Bytes → ℕ → Bytes
write_at file bytes off =
    take off file ++ (replicate (off - length file) 0 ++ (bytes ++ drop (off + length bytes) file))

-- os.File.ReadAt of `n` bytes; `none` is the error of a short read.
unfoldable pub read_at : Bytes → ℕ → ℕ → Option Bytes
read_at file off n = if ltb (length file) (off + n) then none else some (take n (drop off file))

abbrev pub holds_value : ℕ → Bool
holds_value op = op == wal_op_set || op == wal_op_set_ex

-- The header that appendRecord builds.
unfoldable pub record_header : ℕ → Bytes → Bytes → Handle → ℕ → Bytes
record_header op key value h expires_at =
    wal_magic
    ++ (op
        ∷ (put_uint16 (uint16 (length key))
            ++ (if holds_value op
                then put_uint32 (uint32 (length value))
                  ++ (put_uint32 h.offset
                      ++ (put_uint32 h.size
                          ++ (h.region
                              ∷ (if op == wal_op_set_ex then put_uint32 expires_at else []))))
                else put_uint32 0)))

-- appendRecord: the header, the key and the value are written one after another at the offset.
unfoldable pub append_sized : Wal → ℕ → ℕ → Bytes → Bytes → Handle → ℕ → Appended
append_sized w hdr_size op key value h expires_at =
    let rec_len = hdr_size + length key + length value in
    let with_header = write_at w.file (record_header op key value h expires_at) w.off in
    let key_pos = w.off + hdr_size in
    let with_key = if ltb 0 (length key) then write_at with_header key key_pos else with_header in
    let value_pos = key_pos + length key in
    let with_value =
      if holds_value op && ltb 0 (length value)
      then write_at with_key value value_pos
      else with_key in
    if ltb w.max_off (w.off + rec_len)
    then refused log_full
    else appended (record w { file = with_value; off = w.off + rec_len }) w.off

unfoldable pub append_record : Wal → ℕ → Bytes → Bytes → Handle → ℕ → Appended
append_record w op key value h expires_at = elim (wal_header_size op) [
  | none ↦ refused unknown_op
  | some hdr_size ↦ append_sized w hdr_size op key value h expires_at
]

-- AppendSet, AppendSetEx, AppendDel
unfoldable pub append_set : Wal → Bytes → Bytes → Handle → Appended
append_set w key value h = append_record w wal_op_set key value h 0

unfoldable pub append_set_ex : Wal → Bytes → Bytes → Handle → ℕ → Appended
append_set_ex w key value h expires_at = append_record w wal_op_set_ex key value h expires_at

unfoldable pub append_del : Wal → Bytes → Appended
append_del w key = append_record w wal_op_del key [] no_handle 0

-- Rotate
unfoldable pub rotate : Wal → Wal
rotate w = record w { file = []; off = 0 }

-- The walk of repairTail over the records, on fuel: where the last complete one ends.
unfoldable pub repair_walk : ℕ → Bytes → ℕ → ℕ
repair_walk zero file pos = pos
repair_walk (suc n) file pos =
    let rem = length file - pos in
    let op = byte (drop (pos + 4) file) in
    let key_len = get_uint16 (drop (pos + 5) file) in
    let val_len = get_uint32 (drop (pos + 7) file) in
    elim (leb (length file) pos || ltb rem wal_header_size_del) [
      | true ↦ pos
      | false ↦ elim (wal_header_size op) [
        | none ↦ pos
        | some hdr_size ↦ elim (ltb rem hdr_size || ltb rem (hdr_size + key_len + val_len)) [
          | true ↦ pos
          | false ↦ repair_walk n file (pos + (hdr_size + key_len + val_len))
        ]
      ]
    ]

-- repairTail; each round of the walk passes a header, so the length of the file is fuel enough.
unfoldable pub repair_tail : Wal → Wal
repair_tail w =
    let pos = repair_walk (length w.file) w.file 0 in
    if ltb pos (length w.file) then record w { file = take pos w.file; off = pos } else w

-- OpenWAL
unfoldable pub open_wal : Bytes → ℕ → Wal
unfolding repair_tail
open_wal file max_len = repair_tail (record { file = file; off = length file; max_off = max_len })

-- WALRecord
pub record WalRecord : Type 0 where
  pub op : ℕ
  pub key : Bytes
  pub value : Bytes
  pub handle : Handle
  pub expires_at : ℕ

-- What Next returns: a record and the iterator's new offset, io.EOF (also the error of a short read),
-- or another error.
pub data Next : Type 0 where
  eof corrupt : Next
  got : WalRecord → ℕ → Next

-- The part of Next behind a header of `hdr_size` bytes with these numbers.
unfoldable pub next_body : Bytes → ℕ → ℕ → ℕ → ℕ → ℕ → ℕ → Handle → ℕ → Next
next_body file off end hdr_size op key_len val_len h expires_at =
    let rec_len = hdr_size + key_len + val_len in
    let key_read = if ltb 0 key_len then read_at file (off + hdr_size) key_len else some [] in
    let value_read =
      if holds_value op && ltb 0 val_len
      then read_at file (off + hdr_size + key_len) val_len
      else some [] in
    if ltb end (off + rec_len) then eof else elim key_read [
      | none ↦ eof
      | some key ↦ elim value_read [
        | none ↦ eof
        | some value ↦
            got (record { op = op; key = key; value = value; handle = h; expires_at = expires_at })
              (off + rec_len)
      ]
    ]

-- The handle and the expiry that a header with this op code holds.
unfoldable pub header_handle : ℕ → Bytes → Handle
header_handle op hdr =
    if holds_value op
    then record {
      offset = get_uint32 (drop 11 hdr);
      size = get_uint32 (drop 15 hdr);
      region = byte (drop 19 hdr);
    }
    else no_handle

unfoldable pub header_expires_at : ℕ → Bytes → ℕ
header_expires_at op hdr = if op == wal_op_set_ex then get_uint32 (drop 20 hdr) else 0

unfoldable pub next_record : Bytes → ℕ → ℕ → ℕ → Bytes → Next
next_record file off end hdr_size hdr =
    let op = byte (drop 4 hdr) in
    next_body file off end hdr_size op (get_uint16 (drop 5 hdr)) (get_uint32 (drop 7 hdr))
      (header_handle op hdr) (header_expires_at op hdr)

unfoldable pub next_header : Bytes → ℕ → ℕ → Bytes → Next
next_header file off end hdr =
    if not (bytes_eq (take 4 hdr) wal_magic)
    then corrupt
    else elim (wal_header_size (byte (drop 4 hdr))) [
      | none ↦ corrupt
      | some hdr_size ↦
          if ltb wal_header_size_del hdr_size
          then elim (read_at file (off + wal_header_size_del) (hdr_size - wal_header_size_del)) [
            | none ↦ eof
            | some extra ↦ next_record file off end hdr_size (hdr ++ extra)
          ]
          else next_record file off end hdr_size hdr
    ]

-- Next
unfoldable pub next : Bytes → ℕ → ℕ → Next
next file off end = if leb end off then eof else elim (read_at file off wal_header_size_del) [
  | none ↦ eof
  | some hdr ↦ next_header file off end hdr
]
