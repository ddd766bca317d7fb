-- ===== src/Eviction/Ghost.antt =====
-- internal/eviction/ghost.go: the fingerprints of evicted keys. The capacity is a power of two, so
-- that `& mask` is the remainder by it; the fingerprint of a key is SHA-256's and a number here.
pub mod Membership
pub mod Capacity
pub mod Examples
use horreum.Common.{
  ℕ, zero, suc, ◌+◌, ◌*◌, ◌%◌, Bool, true, false, List, [], ◌∷◌, ltb, ◌==◌, if◌then◌else◌, not,
}
use horreum.Bytes.{uint64}
use horreum.Index.Rounds.{Loop, returns, forever, ◌>>=◌}

pub record Bucket : Type 0 where
  pub fp : ℕ
  pub alive : Bool

-- The array tabs as a function of the index, below `cap`.
pub record GhostIndex : Type 0 where
  pub cap : ℕ
  pub tabs : ℕ → Bucket

-- The loop of NewGhostIndex and NewRingBuffer over the rounds left. The doubling wraps, so that `c` is
-- 0 for good once it has doubled 64 times: a loop that goes on for 64 rounds goes on for ever.
unfoldable pub grown : ℕ → ℕ → ℕ → Loop ℕ
grown zero capacity c = forever
grown (suc n) capacity c =
    let rest = grown n capacity (uint64 (c * 2)) in if ltb c capacity then rest else returns c

abbrev pub grown_from_one : ℕ → Loop ℕ
grown_from_one capacity = grown 64 capacity 1

abbrev pub empty_index : ℕ → GhostIndex
empty_index cap = record { cap = cap; tabs = λ i. record { fp = 0; alive = false } }

-- NewGhostIndex
unfoldable pub new_ghost_index : ℕ → Loop GhostIndex
new_ghost_index capacity = grown_from_one capacity >>= λ c. returns (empty_index c)

-- probe
abbrev pub probe : GhostIndex → ℕ → ℕ
probe g fp = fp % g.cap

-- How the loop that Look, Insert and Remove share ends: at a dead bucket, at the fingerprint, or
-- after all rounds.
pub data Probed : Type 0 where
  dead matched : ℕ → Probed
  exhausted : Probed

unfoldable pub probe_from : GhostIndex → ℕ → ℕ → ℕ → Probed
probe_from g fp zero i = exhausted
probe_from g fp (suc n) i =
    let idx = (probe g fp + i) % g.cap in
    let b = g.tabs idx in
    let rest = probe_from g fp n (suc i) in
    if not b.alive then dead idx else if b.fp == fp then matched idx else rest

-- An update of one bucket.
unfoldable pub store : ℕ → Bucket → GhostIndex → GhostIndex
store idx b g = record g { tabs = λ i. if i == idx then b else g.tabs i }

-- Look
unfoldable pub look : GhostIndex → ℕ → Bool
look g fp = elim (probe_from g fp g.cap 0) [
  | dead idx ↦ false
  | matched idx ↦ true
  | exhausted ↦ false
]

-- Insert
unfoldable pub insert : GhostIndex → ℕ → GhostIndex × Bool
insert g fp = elim (probe_from g fp g.cap 0) [
  | dead idx ↦ (store idx (record { fp = fp; alive = true }) g, false)
  | matched idx ↦ (g, true)
  | exhausted ↦ (store (probe g fp) (record { fp = fp; alive = true }) g, false)
]

-- Remove
unfoldable pub remove : GhostIndex → ℕ → GhostIndex × Bool
remove g fp = elim (probe_from g fp g.cap 0) [
  | dead idx ↦ (g, false)
  | matched idx ↦ (store idx (record { fp = (g.tabs idx).fp; alive = false }) g, true)
  | exhausted ↦ (g, false)
]

-- Clear
unfoldable pub clear : GhostIndex → GhostIndex
clear g = record g { tabs = λ i. record { fp = (g.tabs i).fp; alive = false } }

-- The loop of Stats.
unfoldable pub live_below : ℕ → (ℕ → Bucket) → ℕ
live_below zero tabs = 0
live_below (suc n) tabs = live_below n tabs + (if (tabs n).alive then 1 else 0)

-- Stats
unfoldable pub stats : GhostIndex → ℕ × ℕ
stats g = (live_below g.cap g.tabs, g.cap)
