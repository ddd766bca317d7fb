-- ===== src/Persist/Wal/Log.antt =====
-- The bytes of a log entry, as appendRecord of wal.go lays them out.
use horreum.Common.{
  ℕ, ◌+◌, ◌<◌, ◌^◌, ◌≡◌, refl, ap, some, List, [], ◌∷◌, ◌++◌, arith, length, drop, take,
  length-append,
}
use horreum.Bytes.{Bytes, byte, put_uint16, put_uint32, get_uint16, get_uint32}
use horreum.Bytes.Window.{At, At-length, take-append}
use horreum.Persist.Wal.{
  Handle, no_handle, WalRecord, wal_magic, wal_op_set, wal_op_set_ex, wal_op_del, read_at,
}

-- What a caller of AppendSet, AppendSetEx or AppendDel hands over.
pub data LogEntry : Type 0 where
  set : Bytes → Bytes → Handle → LogEntry
  set_ex : Bytes → Bytes → Handle → ℕ → LogEntry
  del : Bytes → LogEntry

-- The record that stands for it.
abbrev pub record_of : LogEntry → WalRecord
record_of (set k v h) = record { op = wal_op_set; key = k; value = v; handle = h; expires_at = 0 }
record_of (set_ex k v h t) = record {
  op = wal_op_set_ex;
  key = k;
  value = v;
  handle = h;
  expires_at = t;
}
record_of (del k) = record {
  op = wal_op_del;
  key = k;
  value = [];
  handle = no_handle;
  expires_at = 0;
}

-- The eleven header bytes that every record has.
abbrev pub front : ℕ → ℕ → ℕ → Bytes
front op key_len val_len = wal_magic ++ (op ∷ (put_uint16 key_len ++ put_uint32 val_len))

-- The header bytes of the handle, and of the expiry.
abbrev pub back : Handle → Bytes → Bytes
back h more = put_uint32 h.offset ++ (put_uint32 h.size ++ (h.region ∷ more))

abbrev pub entry_bytes : LogEntry → Bytes
entry_bytes (set k v h) = front wal_op_set (length k) (length v) ++ (back h [] ++ (k ++ v))
entry_bytes (set_ex k v h t) =
    front wal_op_set_ex (length k) (length v) ++ (back h (put_uint32 t) ++ (k ++ v))
entry_bytes (del k) = front wal_op_del (length k) 0 ++ k

abbrev pub HandleFits : Handle → Type 0
HandleFits h = (h.offset < 2 ^ 32) × (h.size < 2 ^ 32)

-- Every number of the entry fits its field.
abbrev pub EntryFits : LogEntry → Type 0
EntryFits (set k v h) = (length k < 2 ^ 16) × (length v < 2 ^ 32) × HandleFits h
EntryFits (set_ex k v h t) = (length k < 2 ^ 16) × (length v < 2 ^ 32) × HandleFits h × (t < 2 ^ 32)
EntryFits (del k) = length k < 2 ^ 16

-- The bytes of several entries.
abbrev pub log_bytes : List LogEntry → Bytes
log_bytes [] = []
log_bytes (e ∷ es) = entry_bytes e ++ log_bytes es

abbrev pub AllFit : List LogEntry → Type 0
AllFit [] = Unit
AllFit (e ∷ es) = EntryFits e × AllFit es

pub read_at-At :
    {file : Bytes} {off : ℕ} (part rest : Bytes)
    → At file off (part ++ rest)
    → read_at file off (length part) ≡ some part
unfolding read_at
read_at-At {file} {off} part rest w = ground (
  arith,
  At-length w,
  length-append part rest,
  ap (take (length part)) w.here,
  take-append part rest,
)

-- The numbers of a header.
pub record Front (op key_len val_len : ℕ) (more : Bytes) : Type 0 where
  pub key_is : get_uint16 (drop 5 (front op key_len val_len ++ more)) ≡ key_len
  pub val_is : get_uint32 (drop 7 (front op key_len val_len ++ more)) ≡ val_len
  pub offset_at : drop 11 (front op key_len val_len ++ more) ≡ more
  pub size_at : drop 15 (front op key_len val_len ++ more) ≡ drop 4 more
  pub region_at : drop 19 (front op key_len val_len ++ more) ≡ drop 8 more
  pub expires_at : drop 20 (front op key_len val_len ++ more) ≡ drop 9 more
  pub width : length (front op key_len val_len) ≡ 11

pub Front-of :
    (op key_len val_len : ℕ) (more : Bytes)
    → key_len < 2 ^ 16
    → val_len < 2 ^ 32
    → Front op key_len val_len more
unfolding put_uint16 put_uint32 get_uint16 get_uint32
Front-of op key_len val_len more hk hv = record {
  key_is = omega arith;
  val_is = omega arith;
  offset_at = refl;
  size_at = refl;
  region_at = refl;
  expires_at = refl;
  width = refl;
}

pub record Back (h : Handle) (more : Bytes) : Type 0 where
  pub offset_is : get_uint32 (back h more) ≡ h.offset
  pub size_is : get_uint32 (drop 4 (back h more)) ≡ h.size
  pub region_is : byte (drop 8 (back h more)) ≡ h.region
  pub more_is : drop 9 (back h more) ≡ more
  pub width : length (back h more) ≡ 9 + length more

pub Back-of : (h : Handle) (more : Bytes) → HandleFits h → Back h more
unfolding byte put_uint32 get_uint32
Back-of h more f = record {
  offset_is = omega arith;
  size_is = omega arith;
  region_is = refl;
  more_is = refl;
  width = omega arith;
}
