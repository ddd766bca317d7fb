-- ===== src/Eviction/Queue/Fifo.antt =====
-- The ring buffer of queue.go is a queue: Push at the back, Pop and Peek at the front.
use horreum.Common.{
  ℕ, zero, suc, ◌+◌, ◌-◌, ◌%◌, ◌^◌, ◌<◌, ◌≤◌, ◌≡◌, ◌≢◌, refl, ◌∙◌, ap, ap₂, true, false, Option,
  none, some, List, [], ◌∷◌, ◌++◌, arith, length, leb, ltb, ◌==◌, ◌⊎◌, inl, inr, if◌then◌else◌,
}
use native.Mathlib.Nat.{mod-add-div}
use horreum.Bytes.{uint64}
use horreum.Eviction.Queue.{Slot, RingBuffer, size, full, is_empty, set_slot, push, pop, peek}

-- Two numbers less than `c` apart have different remainders by `c`.
other_slot : (a b c : ℕ) → a < b → b < a + c → a % c ≢ b % c
other_slot a b c h k e = grind (arith, mod-add-div a c, mod-add-div b c, e, h, k)

module _ {H : Type 0} where
  -- The handles of `n` slots from the position `i` on.
  unfoldable pub handles : (ℕ → Slot H) → ℕ → ℕ → ℕ → List H
  handles tab c zero i = []
  handles tab c (suc n) i = (tab (i % c)).h ∷ handles tab c n (suc i)

  abbrev pub items : RingBuffer H → List H
  items rb = handles rb.data_at rb.cap (rb.tail - rb.head) rb.head

  -- The positions have not wrapped, and are at most the capacity apart.
  pub record IsRing (rb : RingBuffer H) : Type 0 where
    pub ordered : rb.head ≤ rb.tail
    pub within : rb.tail ≤ rb.head + rb.cap
    pub unwrapped : rb.tail < 2 ^ 64

  handles-set :
      (tab : ℕ → Slot H) (c n i j : ℕ) (s : Slot H)
      → i + n ≤ j
      → j < i + c
      → handles (λ x. if x == j % c then s else tab x) c n i ≡ handles tab c n i
  unfolding handles
  handles-set tab c zero i j s h k = refl
  handles-set tab c (suc n) i j s h k = ground (
    arith,
    other_slot i j c (omega (arith, h)) k,
    handles-set tab c n (suc i) j s (omega (arith, h)) (omega (arith, k)),
  )

  handles-last :
      (tab : ℕ → Slot H) (c n i : ℕ)
      → handles tab c (suc n) i ≡ handles tab c n i ++ ((tab ((i + n) % c)).h ∷ [])
  unfolding handles
  handles-last tab c zero i = let z : i ≡ i + 0 = omega arith in ap (λ k. (tab (k % c)).h ∷ []) z
  handles-last tab c (suc n) i =
      let z : suc i + n ≡ i + suc n = omega arith in
      ap (λ l. (tab (i % c)).h ∷ l)
        (handles-last tab c n (suc i)
          ∙ ap (λ k. handles tab c n (suc i) ++ ((tab (k % c)).h ∷ [])) z)

-- The first of the handles, and the others.
abbrev pub front : {H : Type 0} → List H → Option H
front [] = none
front (h ∷ hs) = some h

abbrev pub behind : {H : Type 0} → List H → List H
behind [] = []
behind (h ∷ hs) = hs

module _ {H : Type 0} (rb : RingBuffer H) (r : IsRing rb) where
  size_is : size rb ≡ rb.tail - rb.head
  unfolding size
  size_is = omega (arith, r.ordered, r.unwrapped)

  length-handles : (tab : ℕ → Slot H) (c n i : ℕ) → length (handles tab c n i) ≡ n
  unfolding handles
  length-handles tab c zero i = refl
  length-handles tab c (suc n) i = omega (arith, length-handles tab c n (suc i))

  count_is :
      (h : H) → rb.tail + 1 < 2 ^ 64 → uint64 (rb.tail + 1) - rb.head ≡ suc (rb.tail - rb.head)
  count_is h k = omega (arith, r.ordered, k)

  longer :
      (h : H)
      → rb.tail - rb.head < rb.cap
      → handles
          (λ x. if x == rb.tail % rb.cap then record { h = h; alive = true } else rb.data_at x)
          rb.cap
          (suc (rb.tail - rb.head))
          rb.head
        ≡ items rb ++ (h ∷ [])
  longer h k =
      handles-last _ rb.cap (rb.tail - rb.head) rb.head
      ∙ ap₂ (λ l x. l ++ (x ∷ []))
          (handles-set rb.data_at rb.cap (rb.tail - rb.head) rb.head rb.tail
            (record { h = h; alive = true }) (omega (arith, r.ordered))
            (omega (arith, k, r.ordered)))
          (ground (arith, place))
    where
      place : rb.head + (rb.tail - rb.head) ≡ rb.tail
      place = omega (arith, r.ordered)

  -- Push puts the handle at the back, or refuses it and changes nothing if the capacity is reached; the
  -- positions stay in order as long as the 64-bit counter does not wrap.
  pub push-items :
      (h : H)
      → rb.tail + 1 < 2 ^ 64
      → (items (push h rb).0
          ≡ (if ltb (length (items rb)) rb.cap then items rb ++ (h ∷ []) else items rb))
        × ((push h rb).1 ≡ ltb (length (items rb)) rb.cap)
        × IsRing (push h rb).0
  unfolding push full set_slot
  push-items h k =
      let len = length-handles rb.data_at rb.cap (rb.tail - rb.head) rb.head in
      elim (room (rb.tail - rb.head) rb.cap) [
        | inl l ↦
            rw (size_is, len, l.1, l.2)
              (
                ap
                      (λ n.
                        handles
                          (λ x.
                            if x == rb.tail % rb.cap
                            then record { h = h; alive = true }
                            else rb.data_at x)
                          rb.cap n rb.head)
                      (count_is h k)
                    ∙ longer h l.0,
                refl,
                record {
                  ordered = omega (arith, r.ordered, k);
                  within = omega (arith, r.ordered, k, l.0);
                  unwrapped = omega (arith, k);
                },
              )
        | inr l ↦ rw (size_is, len, l.0, l.1) (refl, refl, r)
      ]
    where
      room :
          (a b : ℕ)
          → ((a < b) × (ltb a b ≡ true) × (leb b a ≡ false))
            ⊎ ((ltb a b ≡ false) × (leb b a ≡ true))
      room a b = ground arith

  same_handles :
      (idx : ℕ) (n i : ℕ)
      → handles
          (λ x. if x == idx then record { h = (rb.data_at idx).h; alive = false } else rb.data_at x)
          rb.cap
          n
          i
        ≡ handles rb.data_at rb.cap n i
  unfolding handles
  same_handles idx zero i = refl
  same_handles idx (suc n) i = ground (arith, same_handles idx n (suc i))

  nothing : rb.tail - rb.head ≡ 0 → items rb ≡ []
  unfolding handles
  nothing e = ap (λ n. handles rb.data_at rb.cap n rb.head) e

  something :
      (m : ℕ)
      → rb.tail - rb.head ≡ suc m
      → items rb ≡ (rb.data_at (rb.head % rb.cap)).h ∷ handles rb.data_at rb.cap m (suc rb.head)
  unfolding handles
  something m e = ap (λ n. handles rb.data_at rb.cap n rb.head) e

  -- Pop takes the handle at the front, which Peek shows; on an empty buffer both have none and
  -- nothing changes.
  pub pop-items :
      ((pop rb).0 ≡ front (items rb))
      × (items (pop rb).1 ≡ behind (items rb))
      × (peek rb ≡ front (items rb))
      × IsRing (pop rb).1
  unfolding pop peek is_empty set_slot
  pop-items = elim (whether rb.tail rb.head) [
    | inl e ↦ rw (e.0, nothing (omega (arith, e.1))) (refl, refl, refl, r)
    | inr e ↦
        let m = rb.tail - rb.head - 1 in
        let left : rb.tail - uint64 (rb.head + 1) ≡ m =
          omega (arith, r.ordered, r.unwrapped, e.1) in
        let next : uint64 (rb.head + 1) ≡ suc rb.head =
          omega (arith, r.ordered, r.unwrapped, e.1) in
        let cleared : ℕ → Slot H = λ x.
          if x == rb.head % rb.cap
          then record { h = (rb.data_at (rb.head % rb.cap)).h; alive = false }
          else rb.data_at x in
        rw (e.0, something m (omega (arith, r.ordered, e.1)))
          (
            refl,
            ap₂ (λ n i. handles cleared rb.cap n i) left next
                ∙ same_handles (rb.head % rb.cap) m (suc rb.head),
            refl,
            record {
              ordered = omega (arith, r.ordered, r.unwrapped, e.1);
              within = omega (arith, r.within, r.ordered, r.unwrapped, e.1);
              unwrapped = r.unwrapped;
            },
          )
  ]
    where
      whether : (a b : ℕ) → (((a == b) ≡ true) × (a ≡ b)) ⊎ (((a == b) ≡ false) × (a ≢ b))
      whether a b = ground arith
