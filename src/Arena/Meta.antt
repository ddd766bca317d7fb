-- ===== src/Arena/Meta.antt =====
-- internal/arena/arena.go: the counters of the eviction policy, one for every eight bytes of a region.
-- Bits 0 and 1 are a frequency, bits 2 and 3 the tag of a queue. A loop of compare and swap is one
-- attempt, since no other thread runs in between.
pub mod Fields
use horreum.Common.{
  ℕ, ◌+◌, ◌/◌, ◌%◌, ◌^◌, Bool, true, false, Option, none, some, leb, ◌==◌, if◌then◌else◌, set,
  get_elem?,
}
use Prim.Native.Nat.{bit_and, bit_or}
use horreum.Bytes.{uint16}
use horreum.Bytes.Bits.{and_not}
use horreum.Arena.Region.{Handle, Region, meta_len}
use horreum.Arena.Manager.{Manager}

abbrev pub queue_tag_mask : ℕ
queue_tag_mask = 12

abbrev pub queue_tag_s : ℕ
queue_tag_s = 4

abbrev pub queue_tag_m : ℕ
queue_tag_m = 8

abbrev pub freq_mask : ℕ
freq_mask = 3

-- The counter of a handle, behind the guards that all the functions start with.
unfoldable pub meta_at : Manager → Handle → Option ℕ
meta_at m h = elim (get_elem? m.regions h.region) [
  | none ↦ none
  | some r ↦ elim r.meta [
    | none ↦ none
    | some at ↦ if leb (meta_len r) (h.offset / 8) then none else some (at (h.offset / 8))
  ]
]

-- A store into the counter of a handle, behind the same guards.
unfoldable pub set_meta : Manager → Handle → ℕ → Manager
set_meta m h v = elim (get_elem? m.regions h.region) [
  | none ↦ m
  | some r ↦ elim r.meta [
    | none ↦ m
    | some at ↦ if leb (meta_len r) (h.offset / 8) then m else record m {
      regions =
          set m.regions h.region
            (record r { meta = some (λ i. if i == h.offset / 8 then v else at i) });
    }
  ]
]

-- IncFreq
unfoldable pub inc_freq : Manager → Handle → ℕ × Manager
inc_freq m h = elim (meta_at m h) [
  | none ↦ (0, m)
  | some cur ↦
      let freq = bit_and cur freq_mask in
      let next = bit_and (freq + 1) freq_mask in
      (uint16 next, set_meta m h (bit_or (and_not cur freq_mask) next))
]

-- GetFreq
unfoldable pub get_freq : Manager → Handle → ℕ
get_freq m h = elim (meta_at m h) [ none ↦ 0 | some cur ↦ uint16 (bit_and cur 3) ]

-- SetFreq
unfoldable pub set_freq : Manager → Handle → ℕ → Manager
set_freq m h freq = elim (meta_at m h) [
  | none ↦ m
  | some cur ↦
      let next = bit_or (and_not cur freq_mask) (bit_and freq freq_mask) in
      if next == cur then m else set_meta m h next
]

-- GetMeta
unfoldable pub get_meta : Manager → Handle → ℕ
get_meta m h = elim (meta_at m h) [ none ↦ 0 | some cur ↦ uint16 cur ]

-- CASMeta
unfoldable pub cas_meta : Manager → Handle → ℕ → ℕ → Bool × Manager
cas_meta m h old_meta new_meta = elim (meta_at m h) [
  | none ↦ (false, m)
  | some cur ↦ if cur == old_meta then (true, set_meta m h new_meta) else (false, m)
]

-- OrMetaBits
unfoldable pub or_meta_bits : Manager → Handle → ℕ → Manager
or_meta_bits m h bits = elim (meta_at m h) [
  | none ↦ m
  | some cur ↦
      let new_val = bit_or (uint16 cur) bits in
      if new_val == uint16 cur then m else set_meta m h new_val
]

-- ClearMetaBits
unfoldable pub clear_meta_bits : Manager → Handle → ℕ → Manager
clear_meta_bits m h mask = elim (meta_at m h) [
  | none ↦ m
  | some cur ↦
      let new_val = and_not (uint16 cur) mask in
      if new_val == uint16 cur then m else set_meta m h new_val
]
