-- ===== src/Arena/Region.antt =====
-- internal/arena/arena.go: the handles and the regions. The field memory is the slice data; the slice of
-- meta counters is a function of the index, and `none` is the nil slice.
use horreum.Common.{
  ℕ, ◌+◌, ◌/◌, ◌^◌, Option, none, some, ◌++◌, ltb, leb, ◌==◌, ◌||◌, if◌then◌else◌, length, take,
  drop,
}
use horreum.Bytes.{Bytes, uint32}
use horreum.Arena.Allocator.{Allocator, init, alloc}

pub record Handle : Type 0 where
  pub offset : ℕ
  pub size : ℕ
  pub meta : ℕ
  pub region : ℕ

pub record Region : Type 0 where
  pub memory : Bytes
  pub alloc : Allocator
  pub meta : Option (ℕ → ℕ)

-- The length of the meta slice of a region.
abbrev pub meta_len : Region → ℕ
meta_len r = uint32 (length r.memory) / 8

-- newRegion on the bytes of mmapRegion, with the meta slice that every caller makes next.
unfoldable pub new_region : ℕ → Bytes → Region
new_region size memory = record {
  memory = memory;
  alloc = init (uint32 size);
  meta = some (λ i. 0);
}

-- ensureMetaLocked
unfoldable pub ensure_meta : Region → Region
ensure_meta r = record r { meta = elim r.meta [ none ↦ some (λ i. 0) | some m ↦ some m ] }

-- reg.meta[idx].Store(v); `none` is the panic of an index out of range.
unfoldable pub store_meta : ℕ → ℕ → Region → Option Region
store_meta idx v r = elim r.meta [
  | none ↦ none
  | some m ↦
      if leb (meta_len r) idx
      then none
      else some (record r { meta = some (λ i. if i == idx then v else m i) })
]

-- copy(reg.memory[offset:offset+n], value); `none` is the panic of the bounds of the slice.
unfoldable pub copy_in : ℕ → ℕ → Bytes → Region → Option Region
copy_in offset n value r =
    let end = uint32 (offset + n) in
    if ltb end offset || ltb (length r.memory) end
    then none
    else some
        (record r { memory = take offset r.memory ++ (take n value ++ drop (offset + n) r.memory) })

-- Alloc in a region, the copy of the value, and the reset of the block's meta counter.
unfoldable pub place_value : Bytes → ℕ → Region → Option (Option (ℕ × Region))
place_value value n r = elim (alloc n r.alloc) [
  | none ↦ some none
  | some (offset, a) ↦ elim (copy_in offset n value (record r { alloc = a })) [
    | none ↦ none
    | some r1 ↦ elim (store_meta (offset / 8) 0 (ensure_meta r1)) [
      | none ↦ none
      | some r2 ↦ some (some (offset, r2))
    ]
  ]
]

-- persistReservedBytes
unfoldable pub persist_reserved_bytes : ℕ → ℕ
persist_reserved_bytes region_size =
    let v = region_size / 8 in
    let capped = if ltb (2 ^ 20) v then 2 ^ 20 else v in
    let ck = if ltb capped 4096 then 4096 else capped in
    let reserved = 4096 + ck in
    let half = region_size / 2 in uint32 (if ltb half reserved then half else reserved)
