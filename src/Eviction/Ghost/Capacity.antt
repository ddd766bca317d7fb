-- ===== src/Eviction/Ghost/Capacity.antt =====
-- The capacity that NewGhostIndex of ghost.go chooses.
use horreum.Common.{ℕ, ◌+◌, ◌*◌, ◌^◌, ◌≤◌, ◌≡◌}

-- A power of two that reaches `capacity`, and is not twice as much.
record Chosen (capacity c : ℕ) : Type 0 where
  enough : capacity ≤ c
  least : c ≤ 2 * capacity + 1
  power : (k : ℕ) × (c ≡ 2 ^ k)
