-- ===== src/Persist/Manager/Restore.antt =====
-- LoadIndex of persist.go after its Checkpoint: what the index has lost.
use horreum.Common.{
  ℕ, ◌+◌, ◌^◌, ◌<◌, ◌≤◌, ◌≡◌, inl, inr, refl, sym, ◌∙◌, ap, true, Option, none, some, List, [], ◌∷◌,
  map, arith, length, length-map, Bool-cases,
}
use horreum.Bytes.{Bytes, bytes_eq}
use horreum.Arena.Region.{Handle}
use horreum.Index.Rounds.{Loop, returns}
use horreum.Index.{Entry, HashIndex}
use horreum.Index.Table.{IsTable, view}
use horreum.Index.Scan.{snapshot}
use horreum.Index.Restore.{add_all, first_with, add_all-reads, length-snapshot, first_with-snapshot}
use horreum.Persist.Wal.{Wal, rotate}
use horreum.Persist.Recovery.{replay_to, replay_from}
use horreum.Persist.Superblock.{index_checkpoint_max_len}
use horreum.Persist.Checkpoint.{entries}
use horreum.Persist.Checkpoint.Codec.{AllFit, checkpointed, checkpointed_handle}
use horreum.Persist.Manager.{
  write_checkpoint, load_checkpoint, index_writer, loaded, load_index, checkpoint,
}
use horreum.Persist.Manager.Saved.{load_checkpoint-written}

-- The value of a key without what a checkpoint leaves out.
abbrev pub forgotten : Option (Handle × ℕ) → Option (Handle × ℕ)
forgotten none = none
forgotten (some (h, expires_at)) = some (checkpointed_handle h, 0)

first_with-checkpointed :
    (snap : List (Entry Handle)) (k : Bytes)
    → first_with (map checkpointed snap) k ≡ forgotten (first_with snap k)
unfolding first_with
first_with-checkpointed [] k = refl
first_with-checkpointed (se ∷ snap) k = elim (Bool-cases (bytes_eq se.key k)) [
  | inl same ↦ ground (arith, same)
  | inr other ↦ ground (arith, other, first_with-checkpointed snap k)
]

-- The entries of a checkpoint of `h`, added to a table without entries.
add_all-checkpointed :
    (h g : HashIndex Handle)
    → IsTable h
    → IsTable g
    → ((j : Bytes) → view g j ≡ none)
    → g.count + h.count < g.cap
    → (g' : HashIndex Handle) × (add_all g (map checkpointed (snapshot h)) ≡ returns g')
      × IsTable g'
      × ((j : Bytes) → view g' j ≡ forgotten (view h j))
add_all-checkpointed h g t u nothing room =
    let (g', run, t', reads) =
      add_all-reads (map checkpointed (snapshot h)) g u
        (omega (arith, room, length-map (snapshot h) checkpointed, length-snapshot h t)) in
    (
      g',
      run,
      t',
      λ j.
          reads j
          ∙ rw (nothing j)
              (first_with-checkpointed (snapshot h) j ∙ ap forgotten (first_with-snapshot h j t)),
    )

replay_rotated : (w : Wal) (i : Loop (HashIndex Handle)) → replay_to index_writer (rotate w) i ≡ i
unfolding replay_to rotate replay_from
replay_rotated w i = refl

checkpoint-cases :
    (file file' : Bytes) (w w' : Wal) (region_size : ℕ) (h : HashIndex Handle)
    → checkpoint file w region_size h ≡ (file', w', true)
    → (write_checkpoint file (snapshot h) region_size ≡ (file', true)) × (rotate w ≡ w')
unfolding checkpoint
checkpoint-cases file file' w w' region_size h run =
    elim (Bool-cases (write_checkpoint file (snapshot h) region_size).1) [
      | inr failed ↦ absurd (ground (arith, run, failed))
      | inl ok ↦
          let file_is : (write_checkpoint file (snapshot h) region_size).0 ≡ file' =
            ground (arith, run, ok) in
          (λ i. (file_is i, ok i), ground (arith, run, ok))
    ]

load_index-entries :
    (file : Bytes) (w : Wal) (region_size : ℕ) (g : HashIndex Handle) (es : List (Entry Handle))
    (n : ℕ)
    → load_checkpoint file region_size ≡ some (entries es n)
    → load_index file w region_size g ≡ loaded (replay_to index_writer w (add_all g es))
unfolding load_index
load_index-entries file w region_size g es n e = ground (arith, e)

-- Checkpoint, if it returns without an error, and then LoadIndex into a table without entries that has
-- room: LoadIndex ends, in a table with the same keys and blocks, but no key has an expiry any more.
pub load_index-checkpoint :
    (file file' : Bytes) (w w' : Wal) (region_size : ℕ) (h g : HashIndex Handle)
    → IsTable h
    → IsTable g
    → ((j : Bytes) → view g j ≡ none)
    → g.count + h.count < g.cap
    → AllFit (snapshot h)
    → h.count < 2 ^ 32
    → 4096 + index_checkpoint_max_len region_size ≤ length file
    → checkpoint file w region_size h ≡ (file', w', true)
    → (g' : HashIndex Handle) × (load_index file' w' region_size g ≡ loaded (returns g'))
      × IsTable g'
      × ((j : Bytes) → view g' j ≡ forgotten (view h j))
load_index-checkpoint file file' w w' region_size h g t u nothing room fits few area run =
    let (saved, log) = checkpoint-cases file file' w w' region_size h run in
    let (g', adds, t', reads) = add_all-checkpointed h g t u nothing room in
    let loads =
      load_checkpoint-written file file' (snapshot h) region_size fits
        (omega (arith, length-snapshot h t, few)) area saved in
    (
      g',
      load_index-entries file' w' region_size g (map checkpointed (snapshot h)) loads.0 loads.1
          ∙ ap loaded (
              ap (λ l. replay_to index_writer l (add_all g (map checkpointed (snapshot h))))
                (sym log)
              ∙ replay_rotated w _
              ∙ adds),
      t',
      reads,
    )
