-- ===== src/Persist/Recovery/Crash.antt =====
-- What a restart makes of the log that a crash left: ReplayTo behind OpenWAL.
use horreum.Common.{
  ℕ, zero, suc, ◌+◌, ◌≤◌, ◌≡◌, refl, sym, ◌∙◌, ap, ◌⊎◌, inl, inr, true, false, Option, none, some,
  List, [], ◌∷◌, ◌++◌, arith, length, length-append, append-nil, append_assoc, ltb,
}
use horreum.Bytes.{Bytes}
use horreum.Bytes.Window.{At, At-start, At-skip}
use horreum.Persist.Wal.{Wal, refused, appended, next, open_wal, got}
use horreum.Persist.Wal.Log.{LogEntry, set, set_ex, del, record_of, entry_bytes, log_bytes, AllFit}
use horreum.Persist.Wal.Iterate.{next-entry}
use horreum.Persist.Wal.Append.{IsAtEnd, append_entry, extended, append_entry_lem}
use horreum.Persist.Wal.Repair.{Torn, open_wal-Torn, length_le_log_bytes}
use horreum.Persist.Recovery.{IndexWriter, apply_record, replay_from, replay_to}

-- Several calls, one after the other; `none` if one is refused.
abbrev pub append_all : Wal → List LogEntry → Option Wal
append_all w [] = some w
append_all w (e ∷ es) = elim (append_entry w e) [
  | refused error ↦ none
  | appended w' off ↦ append_all w' es
]

append_all_lem :
    (w w' : Wal) (es : List LogEntry)
    → IsAtEnd w
    → append_all w es ≡ some w'
    → w'.file ≡ w.file ++ log_bytes es
append_all_lem w w' [] i h = ground (arith, h, append-nil w.file)
append_all_lem w w' (e ∷ es) i h = elim (room (w.off + length (entry_bytes e)) w.max_off) [
  | inl full ↦ absurd (ground (arith, h, append_entry_lem w e i, full))
  | inr fits ↦
      append_all_lem (extended w (entry_bytes e)) w' es
        (record { at_end = omega (arith, i.at_end, length-append w.file (entry_bytes e)) })
        (ground (arith, h, append_entry_lem w e i, fits))
      ∙ append_assoc w.file (entry_bytes e) (log_bytes es)
]
  where
    room : (a b : ℕ) → (ltb b a ≡ true) ⊎ (ltb b a ≡ false)
    room a b = ground arith

module _ {ℓ} {Index : Type ℓ} (idx : IndexWriter Index) where
  -- The effect of an entry on the index, and of several in their order.
  abbrev pub apply_entry : LogEntry → Index → Index
  apply_entry (set k v h) i = (idx.put k h 0 i).0
  apply_entry (set_ex k v h t) i = (idx.put k h t i).0
  apply_entry (del k) i = (idx.delete k i).0

  abbrev pub apply_all : List LogEntry → Index → Index
  apply_all [] i = i
  apply_all (e ∷ es) i = apply_all es (apply_entry e i)

  apply_record_of : (e : LogEntry) (i : Index) → apply_record idx (record_of e) i ≡ apply_entry e i
  unfolding apply_record
  apply_record_of (set k v h) i = refl
  apply_record_of (set_ex k v h t) i = refl
  apply_record_of (del k) i = refl

  replay_entries :
      (n : ℕ) (file : Bytes) (off end : ℕ) (es : List LogEntry) (i : Index)
      → AllFit es
      → length es ≤ n
      → At file off (log_bytes es)
      → off + length (log_bytes es) ≡ end
      → replay_from idx n file off end i ≡ apply_all es i
  unfolding replay_from next
  replay_entries zero file off end [] i f l w e = refl
  replay_entries (suc n) file off end [] i f l w e = ground (arith, e)
  replay_entries zero file off end (e ∷ es) i f l w s = absurd (omega arith)
  replay_entries (suc n) file off end (e ∷ es) i f l w s =
      step
      ∙ ap (λ j. replay_from idx n file (off + length (entry_bytes e)) end j) (apply_record_of e i)
      ∙ replay_entries n file (off + length (entry_bytes e)) end es (apply_entry e i) f.1
          (omega arith) (At-skip (entry_bytes e) (log_bytes es) w) (omega (arith, s, width))
    where
      width :
          length (entry_bytes e ++ log_bytes es) ≡ length (entry_bytes e) + length (log_bytes es)
      width = length-append (entry_bytes e) (log_bytes es)

      here : next file off end ≡ got (record_of e) (off + length (entry_bytes e))
      here = next-entry end e (log_bytes es) f.0 w (omega (arith, s, width))

      step :
          replay_from idx (suc n) file off end i
          ≡ replay_from idx n file
              (off + length (entry_bytes e))
              end
              (apply_record idx (record_of e) i)
      step = ground (arith, here)

  -- After a crash that left complete records and then a torn one, OpenWAL and ReplayTo apply
  -- exactly the complete records to the index, in their order.
  pub replay_to-open_wal :
      (es : List LogEntry) (t : Bytes) (max_len : ℕ) (i : Index)
      → AllFit es
      → Torn t
      → replay_to idx (open_wal (log_bytes es ++ t) max_len) i ≡ apply_all es i
  unfolding replay_to
  replay_to-open_wal es t max_len i f c =
      ap (λ w. replay_to idx w i) (open_wal-Torn es t max_len f c)
      ∙ replay_entries (length (log_bytes es)) (log_bytes es) 0 (length (log_bytes es)) es i f
          (length_le_log_bytes es) (At-start (log_bytes es)) (omega arith)

  -- From an empty log, calls that all succeed and whose keys are shorter than 2^16 bytes, values than
  -- 2^32 bytes and numbers fit their fields, a crash inside one more call, which leaves a record that
  -- does not reach its end, and a restart: the index gets the effects of exactly the calls that
  -- returned.
  pub crash_recovery :
      (w w' : Wal) (es : List LogEntry) (t : Bytes) (max_len : ℕ) (i : Index)
      → w.file ≡ []
      → w.off ≡ 0
      → append_all w es ≡ some w'
      → AllFit es
      → Torn t
      → replay_to idx (open_wal (w'.file ++ t) max_len) i ≡ apply_all es i
  crash_recovery w w' es t max_len i empty start done f c =
      ap (λ l. replay_to idx (open_wal (l ++ t) max_len) i)
        (append_all_lem w w' es (record { at_end = start ∙ sym (ap length empty) }) done
          ∙ ap (λ l. l ++ log_bytes es) empty)
      ∙ replay_to-open_wal es t max_len i f c
