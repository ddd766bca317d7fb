-- ===== src/Persist/Manager/Saved.antt =====
-- loadCheckpoint of checkpoint.go reads back what writeCheckpoint has written into the arena file.
use horreum.Common.{
  ℕ, zero, suc, ◌+◌, ◌-◌, ◌^◌, ◌<◌, ◌≤◌, ◌≡◌, inl, inr, refl, sym, ◌∙◌, ap, true, false, some, List,
  [], ◌∷◌, ◌++◌, map, arith, ltb, if◌then◌else◌, not, length, take, drop, length-append,
  length-drop, length-replicate, replicate, length-take, Bool-cases, Option-cases,
}
use horreum.Bytes.{Bytes, uint64, bytes_eq}
use horreum.Bytes.Window.{drop-append}
use horreum.Bytes.Splice.{spliced, length-spliced, spliced_after}
use horreum.Arena.Region.{Handle}
use horreum.Index.{Entry}
use horreum.Persist.Superblock.{
  Superblock, superblock_fields, encode_superblock, index_checkpoint_max_len,
}
use horreum.Persist.Superblock.Codec.{length-fields}
use horreum.Persist.Checkpoint.{
  written, encode_checkpoint, decode_checkpoint, entries, bad_magic, checkpoint_magic,
}
use horreum.Persist.Checkpoint.Codec.{AllFit, checkpointed}
use horreum.Persist.Checkpoint.RoundTrip.{
  Encoded-cases, encode_checkpoint-within, decode-encode_checkpoint,
}
use horreum.Persist.Manager.{
  copy_arena_to, copy_to_arena, read_superblock, set_superblock, checkpoint_superblock,
  write_checkpoint, load_checkpoint,
}

take-append_more :
    (n : ℕ) (xs ys : Bytes) → length xs ≤ n → take n (xs ++ ys) ≡ xs ++ take (n - length xs) ys
take-append_more zero [] ys h = refl
take-append_more zero (x ∷ xs) ys h = absurd (omega (arith, h))
take-append_more (suc n) [] ys h = ap (λ k. take k ys) (whole (suc n))
  where
    whole : (a : ℕ) → a ≡ a - 0
    whole a = omega arith
take-append_more (suc n) (x ∷ xs) ys h =
    ap (λ l. x ∷ l) (take-append_more n xs ys (omega (arith, h)))
    ∙ ap (λ k. x ∷ (xs ++ take k ys)) (less n (length xs))
  where
    less : (a b : ℕ) → a - b ≡ suc a - suc b
    less a b = omega arith

copy_to_arena-cases :
    (file file' buf : Bytes) (off : ℕ)
    → off + length buf < 2 ^ 64
    → copy_to_arena file off buf ≡ some file'
    → (spliced off buf file ≡ file') × (off + length buf ≤ length file)
unfolding copy_to_arena
copy_to_arena-cases file file' buf off small run =
    elim (Bool-cases (ltb (length file) (uint64 (off + length buf)))) [
      | inl outside ↦ absurd (ground (arith, run, outside))
      | inr inside ↦ (ground (arith, run, inside), below inside)
    ]
  where
    wrapped : uint64 (off + length buf) ≡ off + length buf
    wrapped = omega (arith, small)

    below : ltb (length file) (uint64 (off + length buf)) ≡ false → off + length buf ≤ length file
    below inside = ground (arith, inside, wrapped)

pub length-encode_superblock :
    (buf b : Bytes) (sb : Superblock)
    → length buf ≡ 4096
    → encode_superblock buf sb ≡ some b
    → length b ≡ 4096
unfolding encode_superblock
length-encode_superblock buf b sb e run =
    let run_here : superblock_fields sb ++ (replicate 4040 0 ++ drop 4096 buf) ≡ b =
      ground (arith, run, wide) in
    omega (
      arith,
      ap length (sym run_here),
      length-fields sb,
      length-append (superblock_fields sb) (replicate 4040 0 ++ drop 4096 buf),
      length-append (replicate 4040 0) (drop 4096 buf),
      length-replicate {A = ℕ} 4040 0,
      length-drop 4096 buf,
      e,
    )
  where
    wide : ltb (length buf) 4096 ≡ false
    wide = ground (arith, e)

set_superblock-cases :
    (file file' : Bytes) (sb : Superblock)
    → set_superblock file sb ≡ some file'
    → (b : Bytes) × (spliced 0 b file ≡ file') × (length b ≡ 4096)
unfolding set_superblock
set_superblock-cases file file' sb run =
    elim (Option-cases (encode_superblock (replicate 4096 0) sb)) [
      | inl panics ↦ absurd (ground (arith, run, panics))
      | inr (b, encoded) ↦
          let wide =
            length-encode_superblock (replicate 4096 0) b sb (length-replicate {A = ℕ} 4096 0)
              encoded in
          let copied : copy_to_arena file 0 b ≡ some file' = ground (arith, run, encoded) in
          (b, (copy_to_arena-cases file file' b 0 (omega (arith, wide)) copied).0, wide)
    ]

pub max_len_small : (n : ℕ) → index_checkpoint_max_len n ≤ 2 ^ 20
unfolding index_checkpoint_max_len
max_len_small n = ground arith

-- What writeCheckpoint leaves in the file, if it returns without an error.
write_checkpoint-cases :
    (file file' : Bytes) (snap : List (Entry Handle)) (region_size : ℕ)
    → AllFit snap
    → write_checkpoint file snap region_size ≡ (file', true)
    → (buf sb_buf : Bytes) × (encode_checkpoint (index_checkpoint_max_len region_size) snap
        ≡ written buf)
      × (spliced 0 sb_buf (spliced 4096 buf file) ≡ file')
      × (length sb_buf ≡ 4096)
      × (4096 + length buf ≤ length file)
unfolding write_checkpoint
write_checkpoint-cases file file' snap region_size fits run =
    elim (Encoded-cases (encode_checkpoint (index_checkpoint_max_len region_size) snap)) [
      | inr failed ↦ absurd (ground (arith, run, failed))
      | inl (buf, encoded) ↦ elim (Option-cases (copy_to_arena file 4096 buf)) [
        | inl outside ↦ absurd (ground (arith, run, encoded, outside))
        | inr (file1, copied) ↦ elim (Option-cases (read_superblock file1)) [
          | inl unread ↦ absurd (ground (arith, run, encoded, copied, unread))
          | inr (sb, read) ↦
              elim (Option-cases (set_superblock file1 (checkpoint_superblock (length snap) sb))) [
                | inl unset ↦ absurd (ground (arith, run, encoded, copied, read, unset))
                | inr (file2, set_here) ↦
                    let small =
                      encode_checkpoint-within (index_checkpoint_max_len region_size) snap buf fits
                        encoded in
                    let (file1_is, room) =
                      copy_to_arena-cases file file1 buf 4096
                        (omega (arith, small, max_len_small region_size)) copied in
                    let (b, file2_is, wide) =
                      set_superblock-cases file1 file2 (checkpoint_superblock (length snap) sb)
                        set_here in
                    let last : file2 ≡ file' =
                      ground (arith, run, encoded, copied, read, set_here) in
                    (buf, b, encoded, ap (spliced 0 b) file1_is ∙ file2_is ∙ last, wide, room)
              ]
        ]
      ]
    ]

-- The area of the checkpoint, after the superblock has been set.
area_at :
    (file buf sb_buf : Bytes) (n : ℕ)
    → length sb_buf ≡ 4096
    → 4096 + length buf ≤ length file
    → length buf ≤ n
    → take n (drop 4096 (spliced 0 sb_buf (spliced 4096 buf file)))
      ≡ buf ++ take (n - length buf) (drop (4096 + length buf) file)
area_at file buf sb_buf n wide room fits =
    spliced_after 0 sb_buf (spliced 4096 buf file)
      (omega (arith, wide, room, length-spliced 4096 buf file room)) 4096 n (omega (arith, wide))
    ∙ ap (take n) (dropped ∙ drop-append (take 4096 file) (buf ++ drop (4096 + length buf) file))
    ∙ take-append_more n buf (drop (4096 + length buf) file) fits
  where
    front : length (take 4096 file) ≡ 4096
    front = omega (arith, length-take 4096 file, room)

    dropped :
        drop 4096 (spliced 4096 buf file) ≡ drop (length (take 4096 file)) (spliced 4096 buf file)
    dropped = ap (λ k. drop k (spliced 4096 buf file)) (sym front)

magic_read :
    (body : Bytes) (es : List (Entry Handle)) (n : ℕ)
    → decode_checkpoint body ≡ entries es n
    → (if not (bytes_eq (take 4 body) checkpoint_magic) then bad_magic else decode_checkpoint body)
      ≡ entries es n
unfolding decode_checkpoint
magic_read body es n run = elim (Bool-cases (bytes_eq (take 4 body) checkpoint_magic)) [
  | inl good ↦ ap (λ b. if not b then bad_magic else decode_checkpoint body) good ∙ run
  | inr bad ↦ elim (Bool-cases (ltb (length body) 12)) [
    | inl small ↦ absurd (ground (arith, run, small))
    | inr enough ↦ absurd (ground (arith, run, bad, enough))
  ]
]

load_checkpoint-inside :
    (file : Bytes) (region_size : ℕ) (es : List (Entry Handle)) (n : ℕ)
    → ltb (length file) (uint64 (4096 + index_checkpoint_max_len region_size)) ≡ false
    → decode_checkpoint (take (index_checkpoint_max_len region_size) (drop 4096 file))
      ≡ entries es n
    → load_checkpoint file region_size ≡ some (entries es n)
unfolding load_checkpoint copy_arena_to
load_checkpoint-inside file region_size es n inside run =
    ground (arith, inside, magic_read _ es n run)

-- What loadCheckpoint reads after writeCheckpoint.
pub load_checkpoint-written :
    (file file' : Bytes) (snap : List (Entry Handle)) (region_size : ℕ)
    → AllFit snap
    → length snap < 2 ^ 32
    → 4096 + index_checkpoint_max_len region_size ≤ length file
    → write_checkpoint file snap region_size ≡ (file', true)
    → (n : ℕ) × (load_checkpoint file' region_size ≡ some (entries (map checkpointed snap) n))
load_checkpoint-written file file' snap region_size fits few area saved =
    let max_len = index_checkpoint_max_len region_size in
    let (buf, sb_buf, encoded, file_is, wide, room) =
      write_checkpoint-cases file file' snap region_size fits saved in
    let small = encode_checkpoint-within max_len snap buf fits encoded in
    let body_is =
      ap (λ b. take max_len (drop 4096 b)) (sym file_is)
      ∙ area_at file buf sb_buf max_len wide room small in
    let same_length : length file' ≡ length file = omega (
      arith,
      ap length file_is,
      length-spliced 4096 buf file room,
      length-spliced 0 sb_buf (spliced 4096 buf file)
          (omega (arith, wide, room, length-spliced 4096 buf file room)),
    ) in
    let inside =
      in_file (length file') max_len (omega (arith, same_length, area))
        (max_len_small region_size) in
    let decoded =
      decode-encode_checkpoint max_len snap buf
        (take (max_len - length buf) (drop (4096 + length buf) file)) fits few encoded in
    (
      length buf,
      load_checkpoint-inside file' region_size (map checkpointed snap) (length buf) inside
          (ap decode_checkpoint body_is ∙ decoded),
    )
  where
    in_file : (a b : ℕ) → 4096 + b ≤ a → b ≤ 2 ^ 20 → ltb a (uint64 (4096 + b)) ≡ false
    in_file a b h k =
        let e : uint64 (4096 + b) ≡ 4096 + b = omega (arith, k) in ground (arith, e, h)
