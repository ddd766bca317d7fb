-- ===== src/Persist/Wal/Iterate.antt =====
-- Next of wal.go in front of the bytes of an entry returns that entry's record.
use horreum.Common.{
  ℕ, ◌+◌, ◌<◌, ◌≤◌, ◌^◌, ◌≡◌, refl, sym, ◌∙◌, ap, ap₂, true, some, [], ◌∷◌, ◌++◌, arith, length,
  length-append, append-nil, append_assoc, subst, if◌then◌else◌, ltb,
}
use horreum.Bytes.{
  Bytes, byte, put_uint16, put_uint32, get_uint32, bytes_eq, length-put_uint32, get-put_uint32,
}
use horreum.Bytes.Window.{At, At-skip}
use horreum.Persist.Wal.{
  holds_value, Handle, no_handle, wal_op_set, wal_op_set_ex, wal_op_del, wal_header_size, read_at,
  next_body, header_handle, header_expires_at, next_record, next_header, got, next,
}
use horreum.Persist.Wal.Log.{
  LogEntry, set, set_ex, del, record_of, front, back, entry_bytes, HandleFits, EntryFits,
  read_at-At, Front-of, Back-of,
}

-- A part that is read only if it is not empty.
read_if_any :
    {file : Bytes} {off : ℕ} (part rest : Bytes)
    → At file off (part ++ rest)
    → (if ltb 0 (length part) then read_at file off (length part) else some []) ≡ some part
read_if_any [] rest w = refl
read_if_any (b ∷ part) rest w = ground (arith, read_at-At (b ∷ part) rest w)

At_next :
    {file : Bytes} {off : ℕ} (part rest : Bytes) (n : ℕ)
    → length part ≡ n
    → At file off (part ++ rest)
    → At file (off + n) rest
At_next {file} {off} part rest n e w = subst (λ k. At file (off + k) rest) e (At-skip part rest w)

-- Next behind the header of a record, by the numbers of the header.
module _ (file : Bytes) (off end size : ℕ) (k v : Bytes)
    (room : off + (size + length k + length v) ≤ end) where
  next_body-del :
      v ≡ []
      → (if ltb 0 (length k) then read_at file (off + size) (length k) else some []) ≡ some k
      → next_body file off end size wal_op_del (length k) (length v) no_handle 0
        ≡ got
            (record { op = wal_op_del; key = k; value = v; handle = no_handle; expires_at = 0 })
            (off + (size + length k + length v))
  unfolding next_body
  next_body-del n kr = ground (arith, kr, n)

  next_body-valued :
      (op : ℕ) (h : Handle) (t : ℕ)
      → holds_value op ≡ true
      → (if ltb 0 (length k) then read_at file (off + size) (length k) else some []) ≡ some k
      → (if ltb 0 (length v) then read_at file (off + size + length k) (length v) else some [])
        ≡ some v
      → next_body file off end size op (length k) (length v) h t
        ≡ got
            (record { op = op; key = k; value = v; handle = h; expires_at = t })
            (off + (size + length k + length v))
  unfolding next_body
  next_body-valued op h t hold kr vr = rw (kr, hold, vr) (ground arith)

module _ (op key_len val_len : ℕ) (more : Bytes) (hk : key_len < 2 ^ 16)
    (hv : val_len < 2 ^ 32) where
  abbrev hdr : Bytes
  hdr = front op key_len val_len ++ more

  next_record-front :
      (file : Bytes) (off end size : ℕ)
      → next_record file off end size hdr
        ≡ next_body file off end size op key_len val_len
            (header_handle op hdr)
            (header_expires_at op hdr)
  unfolding next_record byte
  next_record-front file off end size =
      let f = Front-of op key_len val_len more hk hv in
      λ i.
        next_body file off end size op (f.key_is i) (f.val_is i) (header_handle op hdr)
          (header_expires_at op hdr)

-- The handle and the expiry of each kind of header.
module _ (key_len val_len : ℕ) (h : Handle) (hk : key_len < 2 ^ 16) (hv : val_len < 2 ^ 32)
    (hh : HandleFits h) where
  handle_of_back :
      (op : ℕ) (more : Bytes)
      → holds_value op ≡ true
      → header_handle op (front op key_len val_len ++ back h more) ≡ h
  unfolding header_handle byte
  handle_of_back op more hold =
      let f = Front-of op key_len val_len (back h more) hk hv in
      let b = Back-of h more hh in
      rw (hold, f.offset_at, f.size_at, f.region_at, b.offset_is, b.size_is, b.region_is)

  expiry_of_back :
      (t : ℕ)
      → t < 2 ^ 32
      → header_expires_at wal_op_set_ex
          (front wal_op_set_ex key_len val_len ++ back h (put_uint32 t))
        ≡ t
  unfolding header_expires_at
  expiry_of_back t ht =
      let f = Front-of wal_op_set_ex key_len val_len (back h (put_uint32 t)) hk hv in
      let b = Back-of h (put_uint32 t) hh in
      ap get_uint32 (f.expires_at ∙ b.more_is ∙ sym (append-nil (put_uint32 t)))
      ∙ get-put_uint32 t [] ht

pub length-front : (op key_len val_len : ℕ) → length (front op key_len val_len) ≡ 11
unfolding put_uint16 put_uint32
length-front op key_len val_len = refl

pub length-back : (h : Handle) (more : Bytes) → length (back h more) ≡ 9 + length more
unfolding put_uint32
length-back h more = omega arith

module _ {file : Bytes} {off : ℕ} (end : ℕ) where
  next_of_front :
      (op key_len val_len : ℕ) (rest : Bytes)
      → At file off (front op key_len val_len ++ rest)
      → off < end
      → next file off end ≡ next_header file off end (front op key_len val_len)
  unfolding next
  next_of_front op key_len val_len rest w room =
      let read : read_at file off 11 ≡ some (front op key_len val_len) =
        subst (λ n. read_at file off n ≡ some (front op key_len val_len))
          (length-front op key_len val_len) (read_at-At (front op key_len val_len) rest w) in
      ground (arith, read, room)

  valued :
      (op t : ℕ) (more k v rest : Bytes) (h : Handle)
      → length k < 2 ^ 16
      → length v < 2 ^ 32
      → HandleFits h
      → holds_value op ≡ true
      → wal_header_size op ≡ some (20 + length more)
      → header_expires_at op (front op (length k) (length v) ++ back h more) ≡ t
      → At file off (front op (length k) (length v) ++ (back h more ++ (k ++ (v ++ rest))))
      → off + (20 + length more + length k + length v) ≤ end
      → next file off end
        ≡ got
            (record { op = op; key = k; value = v; handle = h; expires_at = t })
            (off + (20 + length more + length k + length v))
  unfolding next_header bytes_eq byte
  valued op t more k v rest h hk hv hh hold e te w room =
      next_of_front op (length k) (length v) (back h more ++ (k ++ (v ++ rest))) w (omega arith)
      ∙ rw e (ground (arith, read))
      ∙ next_record-front op (length k) (length v) (back h more) hk hv file off end
          (20 + length more)
      ∙ ap₂ (next_body file off end (20 + length more) op (length k) (length v)) handle te
      ∙ next_body-valued file off end (20 + length more) k v room op h t hold
          (read_if_any k (v ++ rest) w2) (read_if_any v rest (At-skip k (v ++ rest) w2))
    where
      handle : header_handle op (front op (length k) (length v) ++ back h more) ≡ h
      handle = handle_of_back (length k) (length v) h hk hv hh op more hold

      w1 : At file (off + 11) (back h more ++ (k ++ (v ++ rest)))
      w1 =
          At_next (front op (length k) (length v)) (back h more ++ (k ++ (v ++ rest))) 11
            (length-front op (length k) (length v)) w

      read : read_at file (off + 11) (9 + length more) ≡ some (back h more)
      read =
          subst (λ n. read_at file (off + 11) n ≡ some (back h more)) (length-back h more)
            (read_at-At (back h more) (k ++ (v ++ rest)) w1)

      place : off + 11 + (9 + length more) ≡ off + (20 + length more)
      place = omega arith

      w2 : At file (off + (20 + length more)) (k ++ (v ++ rest))
      w2 =
          subst (λ n. At file n (k ++ (v ++ rest))) place
            (At_next (back h more) (k ++ (v ++ rest)) (9 + length more) (length-back h more) w1)

  deletion :
      (k rest : Bytes)
      → length k < 2 ^ 16
      → At file off (front wal_op_del (length k) 0 ++ (k ++ rest))
      → off + (11 + length k) ≤ end
      → next file off end ≡ got (record_of (del k)) (off + (11 + length k))
  unfolding next_header bytes_eq byte header_handle header_expires_at
  deletion k rest hk w room =
      next_of_front wal_op_del (length k) 0 (k ++ rest) w (omega arith)
      ∙ ap (next_record file off end 11) (sym (append-nil (front wal_op_del (length k) 0)))
      ∙ next_record-front wal_op_del (length k) 0 [] hk (omega arith) file off end 11
      ∙ next_body-del file off end 11 k [] (omega arith) refl (read_if_any k rest w1)
      ∙ ap (got (record_of (del k))) same
    where
      w1 : At file (off + 11) (k ++ rest)
      w1 =
          At_next (front wal_op_del (length k) 0) (k ++ rest) 11
            (length-front wal_op_del (length k) 0) w

      same : off + (11 + length k + 0) ≡ off + (11 + length k)
      same = omega arith

pub length-entry_set :
    (k v : Bytes) (h : Handle) → length (entry_bytes (set k v h)) ≡ 20 + length k + length v
length-entry_set k v h = omega (
  arith,
  length-append (front wal_op_set (length k) (length v)) (back h [] ++ (k ++ v)),
  length-front wal_op_set (length k) (length v),
  length-append (back h []) (k ++ v),
  length-back h [],
  length-append k v,
)

pub length-entry_set_ex :
    (k v : Bytes) (h : Handle) (t : ℕ)
    → length (entry_bytes (set_ex k v h t)) ≡ 24 + length k + length v
length-entry_set_ex k v h t = omega (
  arith,
  length-append (front wal_op_set_ex (length k) (length v)) (back h (put_uint32 t) ++ (k ++ v)),
  length-front wal_op_set_ex (length k) (length v),
  length-append (back h (put_uint32 t)) (k ++ v),
  length-back h (put_uint32 t),
  length-append k v,
  length-put_uint32 t,
)

pub length-entry_del : (k : Bytes) → length (entry_bytes (del k)) ≡ 11 + length k
length-entry_del k =
    omega
      (arith, length-append (front wal_op_del (length k) 0) k, length-front wal_op_del (length k) 0)

-- In front of the bytes of an entry that end before the log's end, Next returns the entry's record
-- and moves behind it.
pub next-entry :
    {file : Bytes} {off : ℕ} (end : ℕ) (e : LogEntry) (rest : Bytes)
    → EntryFits e
    → At file off (entry_bytes e ++ rest)
    → off + length (entry_bytes e) ≤ end
    → next file off end ≡ got (record_of e) (off + length (entry_bytes e))
unfolding put_uint32
next-entry {file} {off} end (set k v h) rest f w room = rw (length-entry_set k v h) (
    valued end wal_op_set 0 [] k v rest h f.0 f.1 f.2 refl refl (unfold header_expires_at in refl)
      (subst (At file off) (simp append_assoc) w) (omega (arith, length-entry_set k v h)))
next-entry {file} {off} end (set_ex k v h t) rest f w room = rw (length-entry_set_ex k v h t) (
    valued end wal_op_set_ex t (put_uint32 t) k v rest h f.0 f.1 f.2 refl refl
      (expiry_of_back (length k) (length v) h f.0 f.1 f.2 t f.3)
      (subst (At file off) (simp append_assoc) w) (omega (arith, length-entry_set_ex k v h t)))
next-entry {file} {off} end (del k) rest f w room = rw (length-entry_del k) (
    deletion end k rest f (subst (At file off) (simp append_assoc) w)
      (omega (arith, length-entry_del k)))
