-- ===== src/Persist/Wal/Append.antt =====
-- appendRecord of wal.go adds the bytes of one entry to the end of the file, or refuses.
use horreum.Common.{
  ℕ, zero, suc, ◌+◌, ◌-◌, ◌≤◌, ◌≡◌, refl, sym, ◌∙◌, ap, ap₂, Bool, true, false, List, [], ◌∷◌, ◌++◌,
  ◌&&◌, arith, length, drop, length-append, append-nil, append_assoc, if◌then◌else◌, ltb, replicate,
}
use horreum.Bytes.{Bytes, put_uint32, put_uint16_wrap, put_uint32_wrap, length-put_uint32}
use horreum.Bytes.Window.{take_all}
use horreum.Persist.Wal.{
  Wal, Handle, no_handle, Appended, appended, refused, log_full, wal_op_set, wal_op_set_ex,
  wal_op_del, holds_value, write_at, record_header, append_sized, append_record, append_set,
  append_set_ex, append_del,
}
use horreum.Persist.Wal.Log.{LogEntry, set, set_ex, del, front, back, entry_bytes}
use horreum.Persist.Wal.Iterate.{length-front, length-back}

drop_beyond : {A : Type 0} (n : ℕ) (xs : List A) → length xs ≤ n → drop n xs ≡ []
drop_beyond zero [] h = refl
drop_beyond zero (x ∷ xs) h = absurd (omega arith)
drop_beyond (suc n) [] h = refl
drop_beyond (suc n) (x ∷ xs) h = drop_beyond n xs (omega arith)

-- A write at the end of the file.
write_at_end :
    (file bytes : Bytes) (off : ℕ) → off ≡ length file → write_at file bytes off ≡ file ++ bytes
unfolding write_at
write_at_end file bytes off e =
    rw
      (
        e,
        take_all file,
        drop_beyond (length file + length bytes) file (omega arith),
        append-nil bytes,
      )
      (ap (λ n. file ++ (replicate n 0 ++ bytes)) none_missing)
  where
    none_missing : length file - length file ≡ 0
    none_missing = omega arith

write_if_any :
    (file bytes : Bytes) (off : ℕ)
    → off ≡ length file
    → (if ltb 0 (length bytes) then write_at file bytes off else file) ≡ file ++ bytes
write_if_any file [] off e = sym (append-nil file)
write_if_any file (b ∷ bytes) off e = ground (arith, write_at_end file (b ∷ bytes) off e)

-- The write offset is the size of the file.
pub record IsAtEnd (w : Wal) : Type 0 where
  pub at_end : w.off ≡ length w.file

-- One of the three calls.
abbrev pub append_entry : Wal → LogEntry → Appended
append_entry w (set k v h) = append_set w k v h
append_entry w (set_ex k v h t) = append_set_ex w k v h t
append_entry w (del k) = append_del w k

-- The log with the bytes of an entry behind it.
abbrev pub extended : Wal → Bytes → Wal
extended w bytes = record w { file = w.file ++ bytes; off = w.off + length bytes }

value_written :
    (file v : Bytes) (off : ℕ) (b : Bool)
    → off ≡ length file
    → (if b then v else []) ≡ v
    → (if b && ltb 0 (length v) then write_at file v off else file) ≡ file ++ v
value_written file v off true e only = write_if_any file v off e
value_written file v off false e only = sym (append-nil file) ∙ ap (λ l. file ++ l) only

sized :
    (w : Wal) (size op : ℕ) (k v : Bytes) (h : Handle) (t : ℕ)
    → IsAtEnd w
    → length (record_header op k v h t) ≡ size
    → (if holds_value op then v else []) ≡ v
    → let bytes = record_header op k v h t ++ (k ++ v) in
      append_sized w size op k v h t ≡ (
        if ltb w.max_off (w.off + length bytes)
        then refused log_full
        else appended (extended w bytes) w.off)
unfolding append_sized
sized w size op k v h t i e only = rw (first, second, third, regroup, width)
  where
    hdr : Bytes
    hdr = record_header op k v h t

    first : write_at w.file hdr w.off ≡ w.file ++ hdr
    first = write_at_end w.file hdr w.off i.at_end

    second :
        (if ltb 0 (length k) then write_at (w.file ++ hdr) k (w.off + size) else w.file ++ hdr)
        ≡ (w.file ++ hdr) ++ k
    second =
        write_if_any (w.file ++ hdr) k (w.off + size)
          (omega (arith, i.at_end, length-append w.file hdr, e))

    third :
        (if holds_value op && ltb 0 (length v)
          then write_at ((w.file ++ hdr) ++ k) v (w.off + size + length k)
          else (w.file ++ hdr) ++ k)
        ≡ ((w.file ++ hdr) ++ k) ++ v
    third =
        value_written ((w.file ++ hdr) ++ k) v (w.off + size + length k) (holds_value op)
          (omega (arith, i.at_end, length-append w.file hdr, length-append (w.file ++ hdr) k, e))
          only

    regroup : ((w.file ++ hdr) ++ k) ++ v ≡ w.file ++ (hdr ++ (k ++ v))
    regroup = simp append_assoc

    width : size + length k + length v ≡ length (hdr ++ (k ++ v))
    width = omega (arith, e, length-append hdr (k ++ v), length-append k v)

-- The header that appendRecord builds for each kind of entry.
header_bytes :
    (k v : Bytes) (h : Handle) (t : ℕ)
    → (record_header wal_op_set k v h 0 ≡ front wal_op_set (length k) (length v) ++ back h [])
      × (record_header wal_op_set_ex k v h t
          ≡ front wal_op_set_ex (length k) (length v) ++ back h (put_uint32 t))
      × (record_header wal_op_del k [] h t ≡ front wal_op_del (length k) 0)
unfolding record_header
header_bytes k v h t = (
  simp (put_uint16_wrap, put_uint32_wrap, append_assoc),
  simp (put_uint16_wrap, put_uint32_wrap, append_assoc),
  simp put_uint16_wrap,
)

abbrev outcome : Wal → Bytes → Appended
outcome w bytes =
    if ltb w.max_off (w.off + length bytes)
    then refused log_full
    else appended (extended w bytes) w.off

-- AppendSet, AppendSetEx and AppendDel on a log whose offset is at its end: if the entry's bytes fit
-- below the limit the file is the old file and then exactly these bytes, the offset stays at its
-- end, and the old offset is returned; otherwise the call is refused as a full log.
pub append_entry_lem :
    (w : Wal) (e : LogEntry)
    → IsAtEnd w
    → append_entry w e ≡ (
        if ltb w.max_off (w.off + length (entry_bytes e))
        then refused log_full
        else appended (extended w (entry_bytes e)) w.off)
unfolding append_set append_set_ex append_del append_record
append_entry_lem w (set k v h) i =
    sized w 20 wal_op_set k v h 0 i
      (omega (
        arith,
        ap length header,
        length-append (front wal_op_set (length k) (length v)) (back h []),
        length-front wal_op_set (length k) (length v),
        length-back h [],
      ))
      refl
    ∙ ap (outcome w) bytes
  where
    header : record_header wal_op_set k v h 0 ≡ front wal_op_set (length k) (length v) ++ back h []
    header = (header_bytes k v h 0).0

    bytes : record_header wal_op_set k v h 0 ++ (k ++ v) ≡ entry_bytes (set k v h)
    bytes =
        ap (λ l. l ++ (k ++ v)) header
        ∙ append_assoc (front wal_op_set (length k) (length v)) (back h []) (k ++ v)
append_entry_lem w (set_ex k v h t) i =
    sized w 24 wal_op_set_ex k v h t i
      (omega (
        arith,
        ap length header,
        length-append (front wal_op_set_ex (length k) (length v)) (back h (put_uint32 t)),
        length-front wal_op_set_ex (length k) (length v),
        length-back h (put_uint32 t),
        length-put_uint32 t,
      ))
      refl
    ∙ ap (outcome w) bytes
  where
    header :
        record_header wal_op_set_ex k v h t
        ≡ front wal_op_set_ex (length k) (length v) ++ back h (put_uint32 t)
    header = (header_bytes k v h t).1

    bytes : record_header wal_op_set_ex k v h t ++ (k ++ v) ≡ entry_bytes (set_ex k v h t)
    bytes =
        ap (λ l. l ++ (k ++ v)) header
        ∙ append_assoc (front wal_op_set_ex (length k) (length v)) (back h (put_uint32 t)) (k ++ v)
append_entry_lem w (del k) i =
    sized w 11 wal_op_del k [] no_handle 0 i
      (omega (arith, ap length header, length-front wal_op_del (length k) 0)) refl
    ∙ ap (outcome w) bytes
  where
    header : record_header wal_op_del k [] no_handle 0 ≡ front wal_op_del (length k) 0
    header = (header_bytes k [] no_handle 0).2

    bytes : record_header wal_op_del k [] no_handle 0 ++ (k ++ []) ≡ entry_bytes (del k)
    bytes = ap₂ ◌++◌ header (append-nil k)
