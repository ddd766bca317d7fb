-- ===== src/Persist/Examples.antt =====
-- The theorems on the persistent state at concrete logs and superblocks.
use horreum.Common.{
  ◌≡◌, ◌≤◌, ◌+◌, ◌==◌, arith, refl, true, none, some, List, [], ◌∷◌, ◌++◌, length, ltb,
  if◌then◌else◌, replicate,
}
use horreum.Bytes.{Bytes, put_uint16, put_uint32}
use horreum.Bytes.Window.{At-start}
use horreum.Persist.Wal.{
  append_set, append_set_ex, append_del, append_record, append_sized, write_at, record_header, Wal,
  Handle, open_wal, refused, appended, log_full, next, got,
}
use horreum.Persist.Wal.Log.{LogEntry, set, set_ex, del, record_of, entry_bytes, log_bytes, AllFit}
use horreum.Persist.Wal.Iterate.{next-entry}
use horreum.Persist.Wal.Append.{append_entry, extended, append_entry_lem}
use horreum.Persist.Wal.Repair.{Torn, open_wal-Torn}
use horreum.Persist.Recovery.{IndexWriter, replay_to}
use horreum.Persist.Recovery.Crash.{append_all, apply_all, crash_recovery}
use horreum.Persist.Superblock.{
  superblock, bad_version, encode_superblock, decode_superblock, fresh_superblock,
  index_checkpoint_max_len,
}
use horreum.Persist.Superblock.Codec.{Fits, decode-encode_superblock}
use mathlib.Core.Option

abbrev handle : Handle
handle = record { offset = 4104; size = 2; region = 0 }

abbrev entries : List LogEntry
entries = set (97 ∷ []) (1 ∷ 2 ∷ []) handle ∷ set_ex (98 ∷ []) [] handle 300 ∷ del (97 ∷ []) ∷ []

entries_fit : AllFit entries
entries_fit = (
  (omega arith, omega arith, (omega arith, omega arith)),
  ((omega arith, omega arith, (omega arith, omega arith), omega arith), (omega arith, tt)),
)

-- The first six bytes of a DEL record.
abbrev torn : Bytes
torn = 0x57 ∷ 0x41 ∷ 0x4c ∷ 0 ∷ 2 ∷ 1 ∷ []

is_torn : Torn torn
unfolding put_uint16 put_uint32
is_torn = record {
  of = del (97 ∷ []);
  missing = 0 ∷ 0 ∷ 0 ∷ 0 ∷ 0 ∷ 97 ∷ [];
  fits = omega arith;
  cut = refl;
  short = omega arith;
}

open_wal-Torn_example :
    open_wal (log_bytes entries ++ torn) 4096
    ≡ record { file = log_bytes entries; off = length (log_bytes entries); max_off = 4096 }
open_wal-Torn_example = open_wal-Torn entries torn 4096 entries_fit is_torn

first_inside :
    0 + length (entry_bytes (set (97 ∷ []) (1 ∷ 2 ∷ []) handle)) ≤ length (log_bytes entries)
unfolding put_uint16 put_uint32
first_inside = omega arith

next-entry_example :
    next (log_bytes entries) 0 (length (log_bytes entries))
    ≡ got
        (record_of (set (97 ∷ []) (1 ∷ 2 ∷ []) handle))
        (0 + length (entry_bytes (set (97 ∷ []) (1 ∷ 2 ∷ []) handle)))
next-entry_example =
    next-entry (length (log_bytes entries)) (set (97 ∷ []) (1 ∷ 2 ∷ []) handle)
      (entry_bytes (set_ex (98 ∷ []) [] handle 300) ++ (entry_bytes (del (97 ∷ [])) ++ []))
      (omega arith, omega arith, (omega arith, omega arith)) (At-start (log_bytes entries))
      first_inside

abbrev fresh_log : Wal
fresh_log = record { file = []; off = 0; max_off = 4096 }

append_entry_lem_example : append_entry fresh_log (del (97 ∷ [])) ≡ (
    if ltb 4096 (0 + length (entry_bytes (del (97 ∷ []))))
    then refused log_full
    else appended (extended fresh_log (entry_bytes (del (97 ∷ [])))) 0)
append_entry_lem_example = append_entry_lem fresh_log (del (97 ∷ [])) (record { at_end = refl })

-- An index that notes the calls.
abbrev noted : IndexWriter (List Bytes)
noted = record { put = λ key h t i. (key ∷ i, true); delete = λ key i. ((0 ∷ key) ∷ i, none) }

abbrev full_log : Wal
full_log = record { file = log_bytes entries; off = length (log_bytes entries); max_off = 4096 }

all_appended : append_all fresh_log entries ≡ some full_log
unfolding append_set append_set_ex append_del append_record append_sized write_at record_header
    put_uint16 put_uint32
all_appended = refl

crash_recovery_example :
    replay_to noted (open_wal (log_bytes entries ++ torn) 4096) [] ≡ apply_all noted entries []
crash_recovery_example =
    crash_recovery noted fresh_log full_log entries torn 4096 [] refl refl all_appended entries_fit
      is_torn

fresh-Fits : Fits (fresh_superblock 1048576)
unfolding fresh_superblock index_checkpoint_max_len
fresh-Fits = record {
  version_fits = omega arith;
  region_size_fits = omega arith;
  index_offset_fits = omega arith;
  index_len_fits = omega arith;
  wal_offset_fits = omega arith;
  flags_fits = omega arith;
  checkpoint_count_fits = omega arith;
}

page : Bytes
page = replicate 4096 0

decode-encode_superblock_example :
    Option.map decode_superblock (encode_superblock page (fresh_superblock 1048576)) ≡ (
      if ltb (length page) 4096
      then none
      else some (
          if (fresh_superblock 1048576).version == 1
          then superblock (fresh_superblock 1048576)
          else bad_version))
decode-encode_superblock_example =
    decode-encode_superblock page (fresh_superblock 1048576) fresh-Fits
