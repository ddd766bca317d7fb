-- ===== src/Arena/Restart.antt =====
-- Where internal/arena/arena.go puts the first value after a restart: SetUsedBytes moves the bump
-- pointer to the sum of the sizes of the restored values.
use horreum.Common.{
  ℕ, ◌+◌, ◌*◌, ◌/◌, ◌^◌, ◌<◌, ◌≤◌, ◌≡◌, refl, ◌∙◌, ap, ap₂, true, Option, some, [], ◌∷◌, arith,
  length, take, drop,
}
use horreum.Bytes.{Bytes, uint32, uint64}
use horreum.Arena.Allocator.{Allocator, init, skip, alloc, bump}
use horreum.Arena.Allocator.Bounds.{alloc-nothing_free}
use horreum.Arena.Region.{Handle, Region, new_region, place_value, persist_reserved_bytes}
use horreum.Arena.Fresh.{width}
use horreum.Arena.Keeps.{width_wide, Keeps, place_value-alloc, Keeps-read}
use horreum.Arena.Manager.{
  Manager, open_file_manager, stored, attempt, put, view, bytes, set_used_bytes,
}

-- The place of the first value.
abbrev pub restart_offset : ℕ → ℕ → ℕ
restart_offset size used = (used + persist_reserved_bytes size + 7) / 8 * 8

bump_at :
    (w o size : ℕ)
    → size < 2 ^ 32
    → (o + 7) / 8 * 8 + w ≤ size
    → bump w (record { offset = o; size = size; fl = λ cls. [] })
      ≡ some ((o + 7) / 8 * 8, record { offset = (o + 7) / 8 * 8 + w; size = size; fl = λ cls. [] })
unfolding bump
bump_at w o size small room = ground (arith, here, top, room, small)
  where
    here : uint64 (o + 7) / 8 * 8 ≡ (o + 7) / 8 * 8
    here = omega (arith, small, room)

    top : uint64 (uint64 (o + 7) / 8 * 8 + w) ≡ (o + 7) / 8 * 8 + w
    top = omega (arith, small, room)

module _ (map_region : ℕ → Option Bytes) (size used : ℕ) (d v : Bytes) (small : size < 2 ^ 32)
    (sized : length d ≡ size) (short : length v ≤ 64 * 2 ^ 20)
    (room : restart_offset size used + width (length v) ≤ size) where
  reopened : Region
  reopened = record {
    memory = d;
    alloc = record { offset = used + persist_reserved_bytes size; size = size; fl = λ cls. [] };
    meta = some (λ i. 0);
  }

  reopened-Keeps : Keeps reopened []
  unfolding reopened
  reopened-Keeps = record {
    sound = record { size_fits = small; inside = omega (arith, room); lists = λ cls c. tt };
    size_is = sized;
    has_meta = (_, refl);
    below = tt;
    apart = tt;
    held = tt;
  }

  run : (a : Allocator) × (alloc (length v) reopened.alloc ≡ some (restart_offset size used, a))
  unfolding reopened
  run = (
    _,
    alloc-nothing_free (length v) reopened.alloc refl
        ∙ bump_at (width (length v)) (used + persist_reserved_bytes size) size small room,
  )

  -- The manager of the file, and with its region after SetUsedBytes.
  with_region : Region → ℕ → Manager
  with_region r n = record {
    regions = r ∷ [];
    current_idx = 0;
    size = size;
    file_backed = true;
    live_objs = n;
  }

  at_start : Region
  at_start = record {
    memory = d;
    alloc = record { offset = persist_reserved_bytes size; size = uint32 size; fl = λ cls. [] };
    meta = some (λ i. 0);
  }

  opened : open_file_manager size d ≡ some (with_region at_start 0)
  unfolding open_file_manager new_region init skip with_region at_start
  opened = ground (arith, nonzero)
    where
      nonzero : 1 ≤ size
      nonzero = omega (arith, room, (width_wide (length v) (omega (arith, short))).1)

  moved : set_used_bytes used (with_region at_start 0) ≡ with_region reopened 0
  unfolding set_used_bytes with_region reopened at_start
  moved =
      ap₂
        (λ (o s : ℕ).
          with_region
            (record {
              memory = d;
              alloc = record { offset = o; size = s; fl = λ cls. [] };
              meta = some (λ i. 0);
            })
            0)
        offset_is size_is
    where
      offset_is : uint64 (used + persist_reserved_bytes size) ≡ used + persist_reserved_bytes size
      offset_is = omega (arith, small, room)

      size_is : uint32 size ≡ size
      size_is = omega (arith, small)

  stores_it :
      (r' : Region)
      → place_value v (length v) reopened ≡ some (some (restart_offset size used, r'))
      → put map_region (with_region reopened 0) v
        ≡ stored
            (record { offset = restart_offset size used; size = length v; meta = 0; region = 0 })
            (with_region r' 1)
  unfolding put attempt with_region
  stores_it r' stores = ground (arith, n_is, short, stores)
    where
      n_is : uint32 (length v) ≡ length v
      n_is = omega (arith, short)

  shows :
      (r' : Region) (g : Handle)
      → take (length v) (drop (restart_offset size used) r'.memory) ≡ v
      → restart_offset size used + length v ≤ length r'.memory
      → restart_offset size used < length r'.memory
      → g.region ≡ 0
      → g.offset ≡ restart_offset size used
      → g.size ≡ length v
      → view (with_region r' 1) g ≡ bytes v
  unfolding view with_region
  shows r' g same fits inside zeroth here sized =
      ground (arith, zeroth, here, sized, same, fits, inside)

  -- A file of `size` bytes, less than 4 GiB, is opened again, and SetUsedBytes is told `used`
  -- bytes. Then Put stores a value of at most 64 MiB that has room there at the first aligned
  -- offset behind the reserved part and `used` bytes, whatever stands there: a restored handle
  -- of that offset and of the value's size now shows the new value.
  pub put-set_used_bytes :
      (m m' : Manager) × (h : Handle) × (open_file_manager size d ≡ some m)
      × (put map_region (set_used_bytes used m) v ≡ stored h m')
      × (h.offset ≡ restart_offset size used)
      × ((g : Handle)
          → g.region ≡ 0
          → g.offset ≡ restart_offset size used
          → g.size ≡ length v
          → view m' g ≡ bytes v)
  put-set_used_bytes =
      let (a, given) = run in
      let (r', stores, kept) =
        place_value-alloc v reopened [] reopened-Keeps (omega (arith, short))
          (restart_offset size used) a given in
      let (same, fits, inside) = Keeps-read r' [] [] (restart_offset size used) v kept in
      (
        with_region at_start 0,
        with_region r' 1,
        record { offset = restart_offset size used; size = length v; meta = 0; region = 0 },
        opened,
        ap (λ m. put map_region m v) moved ∙ stores_it r' stores,
        refl,
        λ g. shows r' g same fits inside,
      )
