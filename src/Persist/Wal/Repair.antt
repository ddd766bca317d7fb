-- ===== src/Persist/Wal/Repair.antt =====
-- repairTail of wal.go, on a log whose last record was cut short by a crash.
use horreum.Common.{
  ℕ, zero, suc, ◌+◌, ◌<◌, ◌≤◌, ◌≡◌, refl, sym, ◌∙◌, ap, subst, some, List, [], ◌∷◌, ◌++◌, ◌⊎◌, inl,
  inr, arith, length, drop, take, length-append, length-drop, append-nil, append_assoc,
}
use horreum.Bytes.{Bytes, byte, get_uint16, get_uint32, put_uint32}
use horreum.Bytes.Window.{
  At, At-start, At-length, At-skip, drop-drop, drop-append_le, get_uint16-append, get_uint32-append,
  byte-append, take-append,
}
use horreum.Persist.Wal.{wal_header_size, repair_walk, open_wal}
use horreum.Persist.Wal.Log.{
  LogEntry, set, set_ex, del, front, back, entry_bytes, log_bytes, AllFit, EntryFits, Front-of,
}
use horreum.Persist.Wal.Iterate.{length-entry_set, length-entry_set_ex, length-entry_del}

-- What the walk reads of the header of an entry.
record Head (e : LogEntry) (raw : Bytes) : Type 0 where
  size : ℕ
  key_len : ℕ
  val_len : ℕ
  op_at : wal_header_size (byte (drop 4 raw)) ≡ some size
  key_at : get_uint16 (drop 5 raw) ≡ key_len
  val_at : get_uint32 (drop 7 raw) ≡ val_len
  sum : size + key_len + val_len ≡ length (entry_bytes e)
  least : 11 ≤ size

Head-front :
    (e : LogEntry) (op k v size : ℕ) (more : Bytes)
    → k < 65536
    → v < 4294967296
    → wal_header_size op ≡ some size
    → 11 ≤ size
    → size + k + v ≡ length (entry_bytes e)
    → Head e (front op k v ++ more)
unfolding byte
Head-front e op k v size more hk hv o l s =
    let f = Front-of op k v more hk hv in
    record {
      size = size;
      key_len = k;
      val_len = v;
      op_at = o;
      key_at = f.key_is;
      val_at = f.val_is;
      sum = s;
      least = l;
    }

Head-entry : (e : LogEntry) (rest : Bytes) → EntryFits e → Head e (entry_bytes e ++ rest)
Head-entry (set k v h) rest f =
    subst (Head (set k v h))
      (sym (append_assoc (front 1 (length k) (length v)) (back h [] ++ (k ++ v)) rest))
      (Head-front (set k v h) 1 (length k) (length v) 20 ((back h [] ++ (k ++ v)) ++ rest) f.0 f.1
        refl (omega arith) (sym (length-entry_set k v h)))
Head-entry (set_ex k v h t) rest f =
    subst (Head (set_ex k v h t))
      (sym (append_assoc (front 3 (length k) (length v)) (back h (put_uint32 t) ++ (k ++ v)) rest))
      (Head-front (set_ex k v h t) 3 (length k) (length v) 24
        ((back h (put_uint32 t) ++ (k ++ v)) ++ rest) f.0 f.1 refl (omega arith)
        (sym (length-entry_set_ex k v h t)))
Head-entry (del k) rest f =
    subst (Head (del k)) (sym (append_assoc (front 2 (length k) 0) k rest)) (
      Head-front (del k) 2 (length k) 0 11 (k ++ rest) f (omega arith) refl (omega arith)
        (omega (arith, length-entry_del k)))

-- A header survives if the cut is behind it.
Head-torn :
    (e : LogEntry) (torn missing : Bytes)
    → EntryFits e
    → entry_bytes e ≡ torn ++ missing
    → 11 ≤ length torn
    → Head e torn
Head-torn e torn missing f cut l =
    let h : Head e (torn ++ missing) =
      subst (Head e) (append-nil (entry_bytes e) ∙ cut) (Head-entry e [] f) in
    record {
      size = h.size;
      key_len = h.key_len;
      val_len = h.val_len;
      op_at =
          ap wal_header_size (
            sym (byte-append (drop 4 torn) missing (omega (arith, length-drop 4 torn)))
            ∙ ap byte (sym (drop-append_le 4 torn missing (omega arith))))
          ∙ h.op_at;
      key_at =
          sym (get_uint16-append (drop 5 torn) missing (omega (arith, length-drop 5 torn)))
          ∙ ap get_uint16 (sym (drop-append_le 5 torn missing (omega arith)))
          ∙ h.key_at;
      val_at =
          sym (get_uint32-append (drop 7 torn) missing (omega (arith, length-drop 7 torn)))
          ∙ ap get_uint32 (sym (drop-append_le 7 torn missing (omega arith)))
          ∙ h.val_at;
      sum = h.sum;
      least = h.least;
    }

module _ (n : ℕ) (file : Bytes) (pos : ℕ) (e : LogEntry) (raw : Bytes) (w : At file pos raw)
    (h : Head e raw) where
  at_offset : (j : ℕ) → drop (pos + j) file ≡ drop j raw
  at_offset j = sym (drop-drop pos j file) ∙ ap (drop j) w.here

  op_here : wal_header_size (byte (drop (pos + 4) file)) ≡ some h.size
  op_here = ap (λ l. wal_header_size (byte l)) (at_offset 4) ∙ h.op_at

  key_here : get_uint16 (drop (pos + 5) file) ≡ h.key_len
  key_here = ap get_uint16 (at_offset 5) ∙ h.key_at

  val_here : get_uint32 (drop (pos + 7) file) ≡ h.val_len
  val_here = ap get_uint32 (at_offset 7) ∙ h.val_at

  -- A record that is all there is passed.
  pass :
      length (entry_bytes e) ≤ length raw
      → repair_walk (suc n) file pos ≡ repair_walk n file (pos + length (entry_bytes e))
  unfolding repair_walk
  pass enough = ground (
    arith,
    op_here,
    key_here,
    val_here,
    At-length w,
    h.sum,
    h.least,
    enough,
    ap (λ k. repair_walk n file (pos + k)) h.sum,
  )

  -- One that is not ends the walk.
  stop : length raw < length (entry_bytes e) → repair_walk (suc n) file pos ≡ pos
  unfolding repair_walk
  stop short = ground (arith, op_here, key_here, val_here, At-length w, h.sum, h.least, short)

-- What a crash in the middle of appendRecord leaves of a record: some of its first bytes, maybe none.
pub record Torn (t : Bytes) : Type 0 where
  pub of : LogEntry
  pub missing : Bytes
  pub fits : EntryFits of
  pub cut : entry_bytes of ≡ t ++ missing
  pub short : length t < length (entry_bytes of)

stop_at-Torn :
    (n : ℕ) (file : Bytes) (pos : ℕ) (t : Bytes)
    → At file pos t
    → Torn t
    → repair_walk n file pos ≡ pos
unfolding repair_walk
stop_at-Torn zero file pos t w c = refl
stop_at-Torn (suc n) file pos t w c = elim (whether 11 (length t)) [
  | inl l ↦ stop n file pos c.of t w (Head-torn c.of t c.missing c.fits c.cut l) c.short
  | inr l ↦ ground (arith, l, At-length w)
]
  where
    whether : (a b : ℕ) → (a ≤ b) ⊎ (b < a)
    whether a b = ground arith

walk_to_torn :
    (n : ℕ) (file : Bytes) (pos : ℕ) (es : List LogEntry) (t : Bytes)
    → AllFit es
    → Torn t
    → length es ≤ n
    → At file pos (log_bytes es ++ t)
    → repair_walk n file pos ≡ pos + length (log_bytes es)
walk_to_torn n file pos [] t f c l w = stop_at-Torn n file pos t w c ∙ zero_more
  where
    zero_more : pos ≡ pos + 0
    zero_more = omega arith
walk_to_torn zero file pos (e ∷ es) t f c l w = absurd (omega arith)
walk_to_torn (suc n) file pos (e ∷ es) t f c l w =
    pass n file pos e (entry_bytes e ++ (log_bytes es ++ t)) here
      (Head-entry e (log_bytes es ++ t) f.0)
      (omega (arith, length-append (entry_bytes e) (log_bytes es ++ t)))
    ∙ walk_to_torn n file (pos + length (entry_bytes e)) es t f.1 c (omega arith)
        (At-skip (entry_bytes e) (log_bytes es ++ t) here)
    ∙ sums
  where
    here : At file pos (entry_bytes e ++ (log_bytes es ++ t))
    here = subst (At file pos) (append_assoc (entry_bytes e) (log_bytes es) t) w

    sums :
        pos + length (entry_bytes e) + length (log_bytes es)
        ≡ pos + length (entry_bytes e ++ log_bytes es)
    sums = omega (arith, length-append (entry_bytes e) (log_bytes es))

some_bytes : (e : LogEntry) → 1 ≤ length (entry_bytes e)
some_bytes (set k v h) = omega (arith, length-entry_set k v h)
some_bytes (set_ex k v h t) = omega (arith, length-entry_set_ex k v h t)
some_bytes (del k) = omega (arith, length-entry_del k)

pub length_le_log_bytes : (es : List LogEntry) → length es ≤ length (log_bytes es)
length_le_log_bytes [] = omega arith
length_le_log_bytes (e ∷ es) =
    omega
      (arith, some_bytes e, length-append (entry_bytes e) (log_bytes es), length_le_log_bytes es)

-- OpenWAL on complete records followed by a torn one cuts the file behind the last complete record
-- and appends from there.
pub open_wal-Torn :
    (es : List LogEntry) (t : Bytes) (max_len : ℕ)
    → AllFit es
    → Torn t
    → open_wal (log_bytes es ++ t) max_len
      ≡ record { file = log_bytes es; off = length (log_bytes es); max_off = max_len }
unfolding open_wal
open_wal-Torn es t max_len f c = ground (arith, found, kept, width, only_nil t)
  where
    only_nil : (t : Bytes) → length t ≡ 0 → log_bytes es ++ t ≡ log_bytes es
    only_nil [] e = append-nil (log_bytes es)
    only_nil (b ∷ t) e = absurd (omega arith)

    file : Bytes
    file = log_bytes es ++ t

    width : length file ≡ length (log_bytes es) + length t
    width = length-append (log_bytes es) t

    found : repair_walk (length file) file 0 ≡ 0 + length (log_bytes es)
    found =
        walk_to_torn (length file) file 0 es t f c (omega (arith, width, length_le_log_bytes es))
          (At-start file)

    kept : take (length (log_bytes es)) file ≡ log_bytes es
    kept = take-append (log_bytes es) t
