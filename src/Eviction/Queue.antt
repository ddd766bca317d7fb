-- ===== src/Eviction/Queue.antt =====
-- internal/eviction/queue.go: the ring buffer of the S and M queues, for any type of handles. The
-- capacity is a power of two, so that `& mask` is the remainder by it.
pub mod Fifo
pub mod Examples
use horreum.Common.{
  ℕ, zero, suc, ◌+◌, ◌-◌, ◌*◌, ◌%◌, ◌^◌, Bool, true, false, Option, none, some, leb, ltb, ◌==◌,
  ◌&&◌, if◌then◌else◌,
}
use horreum.Bytes.{uint64}

-- The reserved field next, which Push only sets to noNext, is left out.
pub record Slot (H : Type 0) : Type 0 where
  pub h : H
  pub alive : Bool

-- The array data as a function of the index, below `cap`.
pub record RingBuffer (H : Type 0) : Type 0 where
  pub cap : ℕ
  pub head : ℕ
  pub tail : ℕ
  pub data_at : ℕ → Slot H

module _ {H : Type 0} where
  -- Size
  unfoldable pub size : RingBuffer H → ℕ
  size rb = uint64 (rb.tail + (2 ^ 64 - rb.head))

  -- Full, Empty
  unfoldable pub full : RingBuffer H → Bool
  unfolding size
  full rb = leb rb.cap (size rb)

  unfoldable pub is_empty : RingBuffer H → Bool
  is_empty rb = rb.tail == rb.head

  -- An update of one slot.
  unfoldable pub set_slot : ℕ → Slot H → RingBuffer H → RingBuffer H
  set_slot idx s rb = record rb { data_at = λ i. if i == idx then s else rb.data_at i }

  -- Push
  unfoldable pub push : H → RingBuffer H → RingBuffer H × Bool
  unfolding set_slot
  push h rb =
      let stored = set_slot (rb.tail % rb.cap) (record { h = h; alive = true }) rb in
      if full rb then (rb, false) else (record stored { tail = uint64 (rb.tail + 1) }, true)

  -- Pop
  unfoldable pub pop : RingBuffer H → Option H × RingBuffer H
  unfolding set_slot
  pop rb =
      let idx = rb.head % rb.cap in
      let h = (rb.data_at idx).h in
      let cleared = set_slot idx (record { h = h; alive = false }) rb in
      if is_empty rb then (none, rb) else (some h, record cleared { head = uint64 (rb.head + 1) })

  -- Peek
  unfoldable pub peek : RingBuffer H → Option H
  peek rb = if is_empty rb then none else some (rb.data_at (rb.head % rb.cap)).h

  -- Clear
  unfoldable pub clear : RingBuffer H → RingBuffer H
  clear rb = record rb {
    data_at = λ i. record { h = (rb.data_at i).h; alive = false };
    head = 0;
    tail = 0;
  }

  module _ (same : H → H → Bool) (rb : RingBuffer H) (h : H) where
    -- The loop of ScanFromHead and Remove, over the rounds left: the first live slot with the handle.
    unfoldable pub find_slot : ℕ → ℕ → Option ℕ
    find_slot zero i = none
    find_slot (suc n) i =
        let s = rb.data_at (i % rb.cap) in
        let rest = find_slot n (suc i) in if s.alive && same s.h h then some (i % rb.cap) else rest

    -- ScanFromHead
    unfoldable pub scan_from_head : Bool
    scan_from_head = elim (find_slot rb.cap 0) [ none ↦ false | some _ ↦ true ]

    -- Remove
    unfoldable pub remove : RingBuffer H × Bool
    remove = elim (find_slot rb.cap 0) [
      | none ↦ (rb, false)
      | some i ↦ (set_slot i (record { h = (rb.data_at i).h; alive = false }) rb, true)
    ]
