-- ===== src/Index/Ring.antt =====
-- Positions on a ring of `cap` slots, and the way from one to another.
use horreum.Common.{ℕ, ◌+◌, ◌-◌, ◌%◌, ◌<◌, ◌≡◌, arith, ltb, leb, if◌then◌else◌}

-- The number of steps from `a` to `b`.
abbrev pub way : (cap a b : ℕ) → ℕ
way cap a b = if leb a b then b - a else b + cap - a

abbrev pub next : (cap a : ℕ) → ℕ
next cap a = if ltb (a + 1) cap then a + 1 else 0

pub next_is : (cap a : ℕ) → a < cap → (a + 1) % cap ≡ next cap a
next_is cap a h = grind (arith, h)
