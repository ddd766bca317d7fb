-- ===== src/Persist/Manager/Examples.antt =====
-- The theorems on checkpoints at a concrete index and file.
use horreum.Common.{
  take, ◌≡◌, ℕ, ◌+◌, ◌%◌, ◌<◌, ◌≤◌, arith, refl, subst, true, false, none, some, [], ◌∷◌, ◌++◌,
  length, replicate, length-append, length-replicate,
}
use horreum.Bytes.{Bytes, put_uint16, put_uint32, put_uint64, get_uint32, get_uint64, bytes_eq}
use horreum.Arena.Region.{Handle}
use horreum.Index.Rounds.{returns}
use horreum.Index.{
  Entry, HashIndex, put_slot, entry_of, fnv64, new_for_count, next_power_of_two, put, put_nested,
  place, walk,
}
use horreum.Index.Table.{IsTable, view}
use horreum.Index.Grow.{put-Writes}
use horreum.Index.Refine.{new_for_count-IsTable}
use horreum.Index.Scan.{snapshot, collect}
use horreum.Persist.Wal.{Wal, rotate}
use horreum.Persist.Superblock.{
  superblock, decode_superblock, superblock_fields, fresh_superblock, index_checkpoint_max_len,
}
use horreum.Persist.Superblock.Codec.{length-fields}
use horreum.Persist.Checkpoint.{
  written, encode_checkpoint, encode_entries, entry_fields, key_field, checkpoint_magic,
  decode_checkpoint, entries,
}
use horreum.Persist.Checkpoint.Codec.{Fits, AllFit, checkpointed}
use horreum.Persist.Checkpoint.RoundTrip.{decode-encode_checkpoint}
use horreum.Persist.Manager.{checkpoint, load_index, loaded}
use horreum.Persist.Manager.Restore.{forgotten}
use horreum.Persist.Manager.Progress.{KeysFit, bytes_needed, checkpoint-restored}

abbrev first_key : Bytes
first_key = 7 ∷ 8 ∷ 9 ∷ 10 ∷ 11 ∷ []

abbrev block : Handle
block = record { offset = 8192; size = 3; meta = 5; region = 0 }

abbrev one_entry : Entry Handle
one_entry = entry_of first_key block 5

one_entry-Fits : Fits one_entry
unfolding fnv64
one_entry-Fits = record {
  hash_fits = omega arith;
  key_len_is = refl;
  offset_fits = omega arith;
  size_fits = omega arith;
  region_fits = omega arith;
}

abbrev one_checkpoint : Bytes
one_checkpoint =
    checkpoint_magic
    ++ (put_uint32 1 ++ (put_uint32 1 ++ (entry_fields one_entry ++ (key_field first_key ++ []))))

one_encoded : encode_checkpoint 64 (one_entry ∷ []) ≡ written one_checkpoint
unfolding encode_checkpoint encode_entries
one_encoded = refl

decode-encode_checkpoint_example :
    decode_checkpoint (one_checkpoint ++ (0 ∷ 0 ∷ []))
    ≡ entries (checkpointed one_entry ∷ []) (length one_checkpoint)
decode-encode_checkpoint_example =
    decode-encode_checkpoint 64 (one_entry ∷ []) one_checkpoint (0 ∷ 0 ∷ []) (one_entry-Fits, tt)
      (omega arith) one_encoded

abbrev small : HashIndex Handle
small = new_for_count 3

-- The table with one key.
abbrev one_key : HashIndex Handle
one_key = record small {
  slots = put_slot (fnv64 first_key % 8) (some one_entry) (λ i. none);
  count = 1;
}

one_key_put : put small first_key block 5 ≡ returns (one_key, false)
unfolding put put_nested place walk new_for_count next_power_of_two fnv64
one_key_put = refl

one_key-IsTable : IsTable one_key
one_key-IsTable =
    let (h', run, w) = put-Writes small first_key block 5 (new_for_count-IsTable 3).0 in
    subst IsTable (ground (arith, run, one_key_put)) w.table

one_key-AllFit : AllFit (snapshot one_key)
unfolding snapshot collect fnv64 new_for_count next_power_of_two
one_key-AllFit = (one_entry-Fits, tt)

-- A fresh file of 8 KiB, and an empty log.
abbrev fresh_file : Bytes
fresh_file = superblock_fields (fresh_superblock 8192) ++ replicate 8136 0

abbrev log : Wal
log = record { file = []; off = 0; max_off = 4096 }

fresh_read : decode_superblock (take 4096 fresh_file) ≡ superblock (fresh_superblock 8192)
unfolding decode_superblock put_uint16 put_uint32 put_uint64 get_uint32 get_uint64 bytes_eq
    fresh_superblock index_checkpoint_max_len
fresh_read = refl

room : small.count + one_key.count < small.cap
unfolding new_for_count next_power_of_two
room = omega arith

area : 4096 + index_checkpoint_max_len 8192 ≤ length fresh_file
unfolding index_checkpoint_max_len
area = omega (
  arith,
  length-append (superblock_fields (fresh_superblock 8192)) (replicate 8136 0),
  length-fields (fresh_superblock 8192),
  length-replicate {A = ℕ} 8136 0,
)

needed : 12 + bytes_needed (snapshot one_key) ≤ index_checkpoint_max_len 8192
unfolding index_checkpoint_max_len snapshot collect fnv64 new_for_count next_power_of_two
needed = omega arith

one_key-KeysFit : KeysFit (snapshot one_key)
unfolding snapshot collect fnv64 new_for_count next_power_of_two
one_key-KeysFit = (omega arith, tt)

checkpoint-restored_example :
    (file : Bytes) × (g : HashIndex Handle) × (checkpoint fresh_file log 8192 one_key
      ≡ (file, rotate log, true))
    × (load_index file (rotate log) 8192 small ≡ loaded (returns g))
    × IsTable g
    × ((j : Bytes) → view g j ≡ forgotten (view one_key j))
checkpoint-restored_example =
    checkpoint-restored fresh_file log 8192 (fresh_superblock 8192) one_key small one_key-IsTable
      (new_for_count-IsTable 3).0 (new_for_count-IsTable 3).1 room one_key-AllFit one_key-KeysFit
      (omega arith) needed area fresh_read
