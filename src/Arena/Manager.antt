-- ===== src/Arena/Manager.antt =====
-- internal/arena/arena.go: the manager, which routes Put, View and Free to its regions. The pointer
-- `current` is the region at currentIdx. The mutex and the atomics are left out; the memory of a new
-- region is a parameter, the bytes that the system maps or `none` for its error.
use horreum.Common.{
  ℕ, ◌+◌, ◌-◌, ◌*◌, ◌^◌, Bool, true, false, Option, none, some, List, [], ◌∷◌, ◌++◌, ltb, leb, ◌==◌,
  if◌then◌else◌, length, take, drop, set, get_elem?,
}
use horreum.Bytes.{Bytes, uint32, uint64}
use horreum.Arena.Allocator.{Allocator, init, skip}
use horreum.Arena.Allocator
use horreum.Arena.Region.{Handle, Region, new_region, place_value, persist_reserved_bytes}

abbrev pub max_object_size : ℕ
max_object_size = 64 * 2 ^ 20

pub record Manager : Type 0 where
  pub regions : List Region
  pub current_idx : ℕ
  pub size : ℕ
  pub file_backed : Bool
  pub live_objs : ℕ

-- NewManager, on the memory of its region.
unfoldable pub new_manager : ℕ → Bytes → Manager
new_manager region_size memory = record {
  regions = new_region region_size memory ∷ [];
  current_idx = 0;
  size = region_size;
  file_backed = false;
  live_objs = 0;
}

-- OpenFileManager, on the bytes of the file; `none` is its error for a size of zero.
unfoldable pub open_file_manager : ℕ → Bytes → Option Manager
open_file_manager region_size memory =
    let r = new_region region_size memory in
    if region_size == 0
    then none
    else some (record {
      regions = record r { alloc = skip (persist_reserved_bytes region_size) r.alloc } ∷ [];
      current_idx = 0;
      size = region_size;
      file_backed = true;
      live_objs = 0;
    })

-- What Put returns, with the manager that it leaves.
pub data Stored : Type 0 where
  stored : Handle → Manager → Stored
  size_too_large : Stored
  arena_full : Manager → Stored
  map_failed : Stored
  panics : Stored

-- One attempt of Put in a region.
pub data Attempt : Type 0 where
  placed : Handle → Manager → Attempt
  no_room : Attempt
  out_of_bounds : Attempt

unfoldable pub attempt : Manager → ℕ → Bytes → ℕ → Attempt
attempt m idx value n = elim (get_elem? m.regions idx) [
  | none ↦ out_of_bounds
  | some r ↦ elim (place_value value n r) [
    | none ↦ out_of_bounds
    | some none ↦ no_room
    | some (some (offset, r')) ↦
        placed (record { offset = offset; size = n; meta = 0; region = idx })
          (record m { regions = set m.regions idx r'; live_objs = uint64 (m.live_objs + 1) })
  ]
]

module _ (map_region : ℕ → Option Bytes) where
  -- putSlow
  unfoldable pub put_slow : Manager → Bytes → ℕ → Stored
  put_slow m value n = elim (attempt m m.current_idx value n) [
    | placed h m' ↦ stored h m'
    | out_of_bounds ↦ panics
    | no_room ↦ if leb 256 (length m.regions) then arena_full m else elim (map_region m.size) [
      | none ↦ map_failed
      | some memory ↦
          let m1 = record m {
            regions = m.regions ++ (new_region m.size memory ∷ []);
            current_idx = length m.regions;
          } in
          elim (attempt m1 m1.current_idx value n) [
            | placed h m' ↦ stored h m'
            | out_of_bounds ↦ panics
            | no_room ↦ arena_full m1
          ]
    ]
  ]

  -- Put
  unfoldable pub put : Manager → Bytes → Stored
  put m value =
      let n = uint32 (length value) in
      if ltb max_object_size n then size_too_large else elim (attempt m m.current_idx value n) [
        | placed h m' ↦ stored h m'
        | out_of_bounds ↦ panics
        | no_room ↦ put_slow m value n
      ]

-- What View returns; the last is the panic of &memory[offset].
pub data Viewed : Type 0 where
  bytes : Bytes → Viewed
  offset_invalid : Viewed
  past_end : Viewed

-- View
unfoldable pub view : Manager → Handle → Viewed
view m h = elim (get_elem? m.regions h.region) [
  | none ↦ offset_invalid
  | some r ↦
      if ltb (length r.memory) (h.offset + h.size)
      then offset_invalid
      else if leb (length r.memory) h.offset
      then past_end
      else bytes (take h.size (drop h.offset r.memory))
]

-- Free; `none` is ErrOffsetInvalid.
unfoldable pub free : Manager → Handle → Option Manager
free m h = elim (get_elem? m.regions h.region) [
  | none ↦ none
  | some r ↦
      if ltb (length r.memory) (h.offset + h.size)
      then none
      else some (record m {
        regions =
            set m.regions h.region (record r { alloc = Allocator.free h.offset h.size r.alloc });
        live_objs = uint64 (m.live_objs + (2 ^ 64 - 1));
      })
]

-- SetLiveObjects
unfoldable pub set_live_objects : ℕ → Manager → Manager
set_live_objects n m = record m { live_objs = n }

-- SetUsedBytes
unfoldable pub set_used_bytes : ℕ → Manager → Manager
set_used_bytes n m = elim m.regions [
  | [] ↦ m
  | r ∷ rs ↦ record m {
    regions =
        record r { alloc = record r.alloc { offset = uint64 (n + persist_reserved_bytes m.size) } }
        ∷ rs;
  }
]
