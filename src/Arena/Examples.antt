-- ===== src/Arena/Examples.antt =====
-- The theorems on the allocator at concrete states.
use horreum.Common.{
  ◌≡◌, arith, refl, some, none, [], ◌∷◌, ℕ, ◌==◌, if◌then◌else◌, false, Option, subst, length,
  replicate,
}
use Prim.Native.Nat.{bit_or}
use horreum.Bytes.{Bytes}
use horreum.Bytes.Bits.{and_not}
use horreum.Arena.Allocator.{Allocator, size_class, class_size, alloc_size, bump, alloc, free}
use horreum.Arena.Allocator.{init}
use horreum.Arena.Region.{
  Handle, new_region, place_value, copy_in, store_meta, ensure_meta, persist_reserved_bytes,
}
use horreum.Arena.Manager.{
  Manager, Stored, new_manager, open_file_manager, put, attempt, stored, view, bytes,
  set_used_bytes,
}
use horreum.Arena.Manager
use horreum.Arena.Live.{Holds, PutHolds, put-Holds}
use horreum.Arena.Release.{view-Holds, free-Holds, manager-Holds}
use horreum.Arena.Restart.{restart_offset, put-set_used_bytes}
use horreum.Arena.Meta.{meta_at, inc_freq, get_freq, set_freq, or_meta_bits, clear_meta_bits}
use horreum.Arena.Meta.Fields.{Counter, meta_operations-Counter}
use horreum.Arena.Allocator.Bounds.{IsSound}
use horreum.Arena.Allocator.Reuse.{alloc-free, alloc_size_wraps}

-- A region of 64 KiB behind a superblock, with two bytes too many passed.
abbrev start : Allocator
start = record { offset = 4098; size = 65536; fl = λ cls. [] }

start-IsSound : IsSound start
start-IsSound = record { size_fits = omega arith; inside = omega arith; lists = λ cls h. tt }

alloc-free_example : alloc 100 (free 512 100 start) ≡ some (512, start)
alloc-free_example = alloc-free 100 512 start (omega arith) (omega arith)

alloc_size_wraps_example : alloc_size 4294967295 ≡ 0
alloc_size_wraps_example = alloc_size_wraps 4294967295 (omega arith) (omega arith)

abbrev map_zeros : ℕ → Option Bytes
map_zeros n = some (replicate n 0)

abbrev empty_manager : Manager
empty_manager = new_manager 64 (replicate 64 0)

zeros_mapped : (d : Bytes) → map_zeros 64 ≡ some d → length d ≡ 64
zeros_mapped d e = subst (λ o. elim o [ none ↦ ⊥ | some x ↦ length x ≡ 64 ]) e refl

put-Holds_example :
    PutHolds map_zeros empty_manager []
      (1 ∷ 2 ∷ 3 ∷ [])
      (put map_zeros empty_manager (1 ∷ 2 ∷ 3 ∷ []))
unfolding new_manager
put-Holds_example =
    put-Holds map_zeros empty_manager [] (1 ∷ 2 ∷ 3 ∷ []) zeros_mapped manager-Holds_first
      (omega arith)
  where
    manager-Holds_first : Holds empty_manager []
    manager-Holds_first = (manager-Holds 64 (replicate 64 0) (omega arith) (omega arith) refl).0

-- The manager with one value, and its handle.
abbrev value_handle : Handle
value_handle = record { offset = 0; size = 3; meta = 0; region = 0 }

abbrev value_manager : Manager
value_manager = record {
  regions =
      record {
        memory = 1 ∷ 2 ∷ 3 ∷ replicate 61 0;
        alloc = record { offset = 8; size = 64; fl = λ cls. [] };
        meta = some (λ i. if i == 0 then 0 else 0);
      }
      ∷ [];
  current_idx = 0;
  size = 64;
  file_backed = false;
  live_objs = 1;
}

value_stored : put map_zeros empty_manager (1 ∷ 2 ∷ 3 ∷ []) ≡ stored value_handle value_manager
unfolding put attempt new_manager new_region init place_value alloc bump alloc_size size_class
    class_size copy_in store_meta ensure_meta
value_stored = refl

value-Holds : Holds value_manager ((value_handle, 1 ∷ 2 ∷ 3 ∷ []) ∷ [])
unfolding new_manager
value-Holds = subst (PutHolds map_zeros empty_manager [] (1 ∷ 2 ∷ 3 ∷ [])) value_stored (
    put-Holds map_zeros empty_manager [] (1 ∷ 2 ∷ 3 ∷ []) zeros_mapped
      (manager-Holds 64 (replicate 64 0) (omega arith) (omega arith) refl).0 (omega arith))

view-Holds_example : view value_manager value_handle ≡ bytes (1 ∷ 2 ∷ 3 ∷ [])
view-Holds_example = view-Holds value_manager [] [] value_handle (1 ∷ 2 ∷ 3 ∷ []) value-Holds

free-Holds_example : (m : Manager) × (Manager.free value_manager value_handle ≡ some m) × Holds m []
free-Holds_example = free-Holds value_manager [] [] value_handle (1 ∷ 2 ∷ 3 ∷ []) value-Holds

put-set_used_bytes_example :
    (m m' : Manager) × (h : Handle) × (open_file_manager 64 (replicate 64 0) ≡ some m)
    × (put map_zeros (set_used_bytes 3 m) (7 ∷ []) ≡ stored h m')
    × (h.offset ≡ restart_offset 64 3)
    × ((g : Handle)
        → g.region ≡ 0
        → g.offset ≡ restart_offset 64 3
        → g.size ≡ 1
        → view m' g ≡ bytes (7 ∷ []))
unfolding persist_reserved_bytes alloc_size size_class class_size
put-set_used_bytes_example =
    put-set_used_bytes map_zeros 64 3 (replicate 64 0) (7 ∷ []) (omega arith) refl (omega arith)
      (omega arith)

abbrev other_handle : Handle
other_handle = record { offset = 16; size = 3; meta = 0; region = 0 }

other_at : meta_at value_manager other_handle ≡ some 0
unfolding meta_at
other_at = refl

meta_operations-Counter_example :
    Counter value_manager (inc_freq value_manager other_handle).1 other_handle 1 0
    × ((inc_freq value_manager other_handle).0 ≡ 1)
    × (get_freq value_manager other_handle ≡ 0)
    × Counter value_manager (set_freq value_manager other_handle 2) other_handle 2 0
    × Counter value_manager (or_meta_bits value_manager other_handle 4) other_handle 0 (bit_or 0 1)
    × Counter value_manager
        (clear_meta_bits value_manager other_handle 4)
        other_handle
        0
        (and_not 0 1)
meta_operations-Counter_example =
    meta_operations-Counter value_manager other_handle 0 other_at 2 4 (omega arith) refl
