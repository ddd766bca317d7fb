-- ===== src/Persist/Manager/Progress.antt =====
-- Checkpoint of persist.go returns without an error when the snapshot has room in its area of the file.
use horreum.Common.{
  ℕ, ◌+◌, ◌-◌, ◌^◌, ◌<◌, ◌≤◌, ◌≡◌, refl, ◌∙◌, ap, Bool, true, false, Option, none, some, List, [],
  ◌∷◌, ◌++◌, arith, ltb, if◌then◌else◌, length, take, drop, replicate, length-replicate,
}
use horreum.Bytes.{Bytes, uint64, put_uint32}
use horreum.Bytes.Splice.{spliced, length-spliced, spliced_before}
use horreum.Arena.Region.{Handle}
use horreum.Index.Rounds.{returns}
use horreum.Index.{Entry, HashIndex}
use horreum.Index.Table.{IsTable, view}
use horreum.Index.Scan.{snapshot}
use horreum.Persist.Wal.{Wal, rotate}
use horreum.Persist.Superblock.{
  Superblock, Decoded, too_small, bad_magic, bad_version, superblock, superblock_fields,
  encode_superblock, decode_superblock, index_checkpoint_max_len,
}
use horreum.Persist.Checkpoint.{
  checkpoint_magic, entry_fields, key_field, written, encode_entries, encode_checkpoint,
}
use horreum.Persist.Checkpoint.Codec.{AllFit}
use horreum.Persist.Checkpoint.RoundTrip.{encode_checkpoint-within}
use horreum.Persist.Manager.{
  copy_arena_to, copy_to_arena, read_superblock, set_superblock, checkpoint_superblock,
  write_checkpoint, load_index, loaded, checkpoint,
}
use horreum.Persist.Manager.Saved.{length-encode_superblock, max_len_small}
use horreum.Persist.Manager.Restore.{forgotten, load_index-checkpoint}

-- Keys that encodeCheckpoint takes, and the bytes that their entries need.
abbrev pub KeysFit : List (Entry Handle) → Type 0
KeysFit [] = Unit
KeysFit (se ∷ snap) = (length se.key < 2 ^ 16) × KeysFit snap

abbrev pub bytes_needed : List (Entry Handle) → ℕ
bytes_needed [] = 0
bytes_needed (se ∷ snap) = 24 + (length se.key - 4) + bytes_needed snap

encode_entries-written :
    (cap : ℕ) (snap : List (Entry Handle)) (pos : ℕ)
    → KeysFit snap
    → pos + bytes_needed snap ≤ cap
    → (out : Bytes) × (encode_entries cap snap pos ≡ written out)
unfolding encode_entries
encode_entries-written cap [] pos keys room = ([], refl)
encode_entries-written cap (se ∷ snap) pos keys room =
    let (out, run) =
      encode_entries-written cap snap (pos + (24 + (length se.key - 4))) keys.1
        (omega (arith, room)) in
    (entry_fields se ++ (key_field se.key ++ out), ground (arith, keys.0, fits, run))
  where
    fits : ltb cap (pos + (24 + (length se.key - 4))) ≡ false
    fits = ground (arith, room)

encode_checkpoint-written :
    (cap : ℕ) (snap : List (Entry Handle))
    → KeysFit snap
    → 12 + bytes_needed snap ≤ cap
    → (out : Bytes) × (encode_checkpoint cap snap ≡ written out)
unfolding encode_checkpoint
encode_checkpoint-written cap snap keys room =
    let (out, run) = encode_entries-written cap snap 12 keys room in
    (
      checkpoint_magic ++ (put_uint32 1 ++ (put_uint32 (length snap) ++ out)),
      ground (arith, enough, run),
    )
  where
    enough : ltb cap 12 ≡ false
    enough = ground (arith, room)

copy_to_arena-inside :
    (file buf : Bytes) (off : ℕ)
    → off + length buf < 2 ^ 64
    → off + length buf ≤ length file
    → copy_to_arena file off buf ≡ some (spliced off buf file)
unfolding copy_to_arena
copy_to_arena-inside file buf off small inside = ground (arith, wrapped, inside)
  where
    wrapped : uint64 (off + length buf) ≡ off + length buf
    wrapped = omega (arith, small)

encode_superblock-page :
    (buf : Bytes) (sb : Superblock)
    → length buf ≡ 4096
    → (b : Bytes) × (encode_superblock buf sb ≡ some b)
unfolding encode_superblock
encode_superblock-page buf sb e = (
  superblock_fields sb ++ (replicate 4040 0 ++ drop 4096 buf),
  ap (λ b. if b then none else some (superblock_fields sb ++ (replicate 4040 0 ++ drop 4096 buf)))
      wide,
)
  where
    wide : ltb (length buf) 4096 ≡ false
    wide = ground (arith, e)

set_superblock-inside :
    (file : Bytes) (sb : Superblock)
    → 4096 ≤ length file
    → (file' : Bytes) × (set_superblock file sb ≡ some file')
unfolding set_superblock
set_superblock-inside file sb inside =
    let (b, encoded) =
      encode_superblock-page (replicate 4096 0) sb (length-replicate {A = ℕ} 4096 0) in
    let wide =
      length-encode_superblock (replicate 4096 0) b sb (length-replicate {A = ℕ} 4096 0) encoded in
    let copied =
      copy_to_arena-inside file b 0 (omega (arith, wide)) (omega (arith, wide, inside)) in
    (spliced 0 b file, ground (arith, encoded, copied))

-- readSuperblock behind its copy of the page.
found : Decoded → Option Superblock
found d = elim d [
  | too_small ↦ none
  | bad_magic ↦ none
  | bad_version ↦ none
  | superblock sb ↦ some sb
]

read_page : Option Bytes → Option Superblock
read_page page = elim page [ none ↦ none | some buf ↦ found (decode_superblock buf) ]

page_inside : (n : ℕ) → 4096 ≤ n → ltb n 4096 ≡ false
page_inside n h = ground (arith, h)

read_superblock-inside :
    (file : Bytes) (sb : Superblock)
    → 4096 ≤ length file
    → decode_superblock (take 4096 file) ≡ superblock sb
    → read_superblock file ≡ some sb
unfolding read_superblock copy_arena_to found read_page
read_superblock-inside file sb enough good =
    ap (λ b. read_page (if b then none else some (take 4096 file)))
      (page_inside (length file) enough)
    ∙ ap found good

read_superblock-spliced :
    (file buf : Bytes) (sb : Superblock)
    → 4096 + length buf ≤ length file
    → decode_superblock (take 4096 file) ≡ superblock sb
    → read_superblock (spliced 4096 buf file) ≡ some sb
read_superblock-spliced file buf sb room good =
    read_superblock-inside (spliced 4096 buf file) sb
      (omega (arith, length-spliced 4096 buf file room, room))
      (ap decode_superblock (spliced_before 4096 buf file room 0 4096 (omega arith)) ∙ good)

-- The whole of writeCheckpoint.
write_checkpoint-saves :
    (file : Bytes) (snap : List (Entry Handle)) (region_size : ℕ) (sb : Superblock)
    → AllFit snap
    → KeysFit snap
    → 12 + bytes_needed snap ≤ index_checkpoint_max_len region_size
    → 4096 + index_checkpoint_max_len region_size ≤ length file
    → decode_superblock (take 4096 file) ≡ superblock sb
    → (file' : Bytes) × (write_checkpoint file snap region_size ≡ (file', true))
unfolding write_checkpoint
write_checkpoint-saves file snap region_size sb fits keys room area good =
    let max_len = index_checkpoint_max_len region_size in
    let (buf, encoded) = encode_checkpoint-written max_len snap keys room in
    let small = encode_checkpoint-within max_len snap buf fits encoded in
    let inside : 4096 + length buf ≤ length file = omega (arith, small, area) in
    let copied =
      copy_to_arena-inside file buf 4096 (omega (arith, small, max_len_small region_size)) inside in
    let read = read_superblock-spliced file buf sb inside good in
    let (file', set_here) =
      set_superblock-inside (spliced 4096 buf file) (checkpoint_superblock (length snap) sb)
        (omega (arith, length-spliced 4096 buf file inside, inside)) in
    (file', ground (arith, encoded, copied, read, set_here))

-- Checkpoint returns without an error for a table whose entries hold in the widths of their
-- fields and have room in the checkpoint's area, in a file with a superblock, and empties the
-- log. LoadIndex of what it leaves, into a table without entries that has room for them, ends in
-- a table with the same keys and handles, but no key has an expiry any more, and a handle keeps
-- the lower byte of its meta only.
pub checkpoint-restored :
    (file : Bytes) (w : Wal) (region_size : ℕ) (sb : Superblock) (h g : HashIndex Handle)
    → IsTable h
    → IsTable g
    → ((j : Bytes) → view g j ≡ none)
    → g.count + h.count < g.cap
    → AllFit (snapshot h)
    → KeysFit (snapshot h)
    → h.count < 2 ^ 32
    → 12 + bytes_needed (snapshot h) ≤ index_checkpoint_max_len region_size
    → 4096 + index_checkpoint_max_len region_size ≤ length file
    → decode_superblock (take 4096 file) ≡ superblock sb
    → (file' : Bytes) × (g' : HashIndex Handle) × (checkpoint file w region_size h
        ≡ (file', rotate w, true))
      × (load_index file' (rotate w) region_size g ≡ loaded (returns g'))
      × IsTable g'
      × ((j : Bytes) → view g' j ≡ forgotten (view h j))
unfolding checkpoint
checkpoint-restored file w region_size sb h g t u nothing room fits keys few needed area good =
    let (file', saves) =
      write_checkpoint-saves file (snapshot h) region_size sb fits keys needed area good in
    let run = whole file' saves in
    let (g', loads, t', reads) =
      load_index-checkpoint file file' w (rotate w) region_size h g t u nothing room fits few area
        run in
    (file', g', run, loads, t', reads)
  where
    whole :
        (file' : Bytes)
        → write_checkpoint file (snapshot h) region_size ≡ (file', true)
        → checkpoint file w region_size h ≡ (file', rotate w, true)
    whole file' saves =
        ap (λ (r : Bytes × Bool). if r.1 then (r.0, rotate w, true) else (r.0, w, false)) saves
