-- ===== src/Eviction/Ghost/Membership.antt =====
-- Look of ghost.go after Insert, Remove and Clear.
use horreum.Common.{
  ℕ, zero, suc, ◌+◌, ◌-◌, ◌%◌, ◌≤◌, ◌≡◌, ◌≢◌, ◌⊎◌, inl, inr, refl, ◌∙◌, ap, true, false, arith,
}
use native.Mathlib.Nat.{mod-mod}
use horreum.Eviction.Ghost.{
  Bucket, GhostIndex, probe, Probed, dead, matched, exhausted, probe_from, store, look, insert,
  remove,
}

module _ (g : GhostIndex) (fp : ℕ) where
  abbrev live : Bucket
  live = record { fp = fp; alive = true }

  -- A probe that ended at a dead bucket ends there with a match once the fingerprint is stored.
  probe_from-stored :
      (n i idx : ℕ)
      → probe_from g fp n i ≡ dead idx
      → probe_from (store idx live g) fp n i ≡ matched idx
  unfolding probe_from store
  probe_from-stored zero i idx e = absurd (ground (arith, e))
  probe_from-stored (suc n) i idx e = ground (arith, e, probe_from-stored n (suc i) idx)

  -- One that matched ends at the bucket once it is dead.
  probe_from-killed :
      (n i idx : ℕ)
      → probe_from g fp n i ≡ matched idx
      → probe_from (store idx (record { fp = (g.tabs idx).fp; alive = false }) g) fp n i ≡ dead idx
  unfolding probe_from store
  probe_from-killed zero i idx e = absurd (ground (arith, e))
  probe_from-killed (suc n) i idx e = ground (arith, e, probe_from-killed n (suc i) idx)

  -- Storing at a bucket that is dead keeps every match.
  probe_from-other :
      (other n i j idx : ℕ)
      → (g.tabs idx).alive ≡ false
      → probe_from g other n i ≡ matched j
      → probe_from (store idx live g) other n i ≡ matched j
  unfolding probe_from store
  probe_from-other other zero i j idx d e = absurd (ground (arith, e))
  probe_from-other other (suc n) i j idx d e =
      ground (arith, e, d, probe_from-other other n (suc i) j idx)

  -- The bucket at which a probe ends dead is dead.
  probe_from-dead : (n i idx : ℕ) → probe_from g fp n i ≡ dead idx → (g.tabs idx).alive ≡ false
  unfolding probe_from
  probe_from-dead zero i idx e = absurd (ground (arith, e))
  probe_from-dead (suc n) i idx e = ground (arith, e, probe_from-dead n (suc i) idx)

  home : probe g fp % g.cap ≡ probe g fp
  home = mod-mod fp g.cap

  probe_from-home :
      (n : ℕ) → probe_from (store (probe g fp) live g) fp (suc n) 0 ≡ matched (probe g fp)
  unfolding probe_from store
  probe_from-home n =
      let e : (probe g fp + 0) % g.cap ≡ probe g fp = ap (λ k. k % g.cap) zero_more ∙ home in
      ground (arith, e)
    where
      zero_more : probe g fp + 0 ≡ probe g fp
      zero_more = omega arith

Probed-cases :
    (p : Probed) → ((j : ℕ) × (p ≡ dead j)) ⊎ (((j : ℕ) × (p ≡ matched j)) ⊎ (p ≡ exhausted))
Probed-cases (dead j) = inl (j, refl)
Probed-cases (matched j) = inr (inl (j, refl))
Probed-cases exhausted = inr (inr refl)

look-matched : (g : GhostIndex) (fp j : ℕ) → probe_from g fp g.cap 0 ≡ matched j → look g fp ≡ true
unfolding look
look-matched g fp j e = ground (arith, e)

cap-store : (idx : ℕ) (b : Bucket) (g : GhostIndex) → (store idx b g).cap ≡ g.cap
unfolding store
cap-store idx b g = refl

-- A fingerprint that was inserted is found, in a full table too.
pub look-insert : (g : GhostIndex) (fp : ℕ) → 1 ≤ g.cap → look (insert g fp).0 fp ≡ true
unfolding look insert
look-insert g fp c = elim (Probed-cases (probe_from g fp g.cap 0)) [
  | inl (j, e) ↦ ground (arith, e, probe_from-stored g fp g.cap 0 j e, cap-store j (live g fp) g)
  | inr r ↦ elim r [
    | inl (j, e) ↦ ground (arith, e)
    | inr e ↦
        ground (
          arith,
          e,
          probe_from-home g fp (g.cap - 1),
          cap-store (probe g fp) (live g fp) g,
          counted,
        )
  ]
]
  where
    counted : suc (g.cap - 1) ≡ g.cap
    counted = omega (arith, c)

-- A fingerprint that was removed is not found.
pub look-remove : (g : GhostIndex) (fp : ℕ) → look (remove g fp).0 fp ≡ false
unfolding look remove
look-remove g fp = elim (Probed-cases (probe_from g fp g.cap 0)) [
  | inl (j, e) ↦ ground (arith, e)
  | inr r ↦ elim r [
    | inl (j, e) ↦ ground (
      arith,
      e,
      probe_from-killed g fp g.cap 0 j e,
      cap-store j (record { fp = (g.tabs j).fp; alive = false }) g,
    )
    | inr e ↦ ground (arith, e)
  ]
]

-- Insert loses no other fingerprint, unless all the buckets of a full table were probed in vain.
pub look-insert_other :
    (g : GhostIndex) (fp other : ℕ)
    → probe_from g fp g.cap 0 ≢ exhausted
    → look g other ≡ true
    → look (insert g fp).0 other ≡ true
unfolding look insert
look-insert_other g fp other room h = elim (Probed-cases (probe_from g other g.cap 0)) [
  | inl (j, e) ↦ absurd (ground (arith, e, h))
  | inr s ↦ elim s [
    | inr e ↦ absurd (ground (arith, e, h))
    | inl (j, e) ↦ elim (Probed-cases (probe_from g fp g.cap 0)) [
      | inl (k, d) ↦ ground (
        arith,
        d,
        probe_from-other g fp other g.cap 0 j k (probe_from-dead g fp g.cap 0 k d) e,
        cap-store k (live g fp) g,
      )
      | inr r ↦ elim r [ inl (k, d) ↦ ground (arith, d, h) | inr d ↦ absurd (room d) ]
    ]
  ]
]
