-- ===== src/Arena/Keeps.antt =====
-- A region of internal/arena/arena.go keeps the bytes of every value in it: a Put writes beside
-- them, and never runs out of the region's bounds.
use horreum.Common.{
  ℕ, ◌+◌, ◌/◌, ◌%◌, ◌^◌, ◌<◌, ◌≤◌, ◌≡◌, ◌⊎◌, inl, inr, refl, sym, ◌∙◌, ap, subst, false, some, none,
  List, [], ◌∷◌, ◌++◌, arith, ltb, leb, ◌==◌, ◌||◌, if◌then◌else◌, length, take, drop, Option-cases,
}
use horreum.Bytes.{Bytes, uint32}
use horreum.Bytes.Window.{take_all}
use horreum.Bytes.Splice.{spliced, length-spliced, spliced_here, spliced_before, spliced_after}
use horreum.Arena.Allocator.{Allocator, size_class, class_size, alloc_size, alloc, free}
use horreum.Arena.Allocator.Bounds.{IsSound}
use horreum.Arena.Apart.{Block, BesideAll, Apart, frees}
use horreum.Arena.Fresh.{width, Below, Below-grow, Fresh, alloc-Fresh, free-Apart, free-Sound}
use horreum.Arena.Region.{Region, ensure_meta, store_meta, copy_in, place_value}

-- The blocks of the values, each with its offset.
abbrev pub blocks : List (ℕ × Bytes) → List Block
blocks [] = []
blocks ((off, v) ∷ live) = (off, width (length v)) ∷ blocks live

-- The values stand where they were put, and are short enough for the sizes to have no wrap-around.
abbrev pub Held : Bytes → List (ℕ × Bytes) → Type 0
Held d [] = Unit
Held d ((off, v) ∷ live) =
    ((take (length v) (drop off d) ≡ v) × (length v + 7 < 2 ^ 32)) × Held d live

-- A region that keeps the values `live`.
pub record Keeps (r : Region) (live : List (ℕ × Bytes)) : Type 0 where
  pub sound : IsSound r.alloc
  pub size_is : length r.memory ≡ r.alloc.size
  pub has_meta : (m : ℕ → ℕ) × (r.meta ≡ some m)
  pub below : Below r.alloc.offset (blocks live)
  pub apart : Apart (blocks live ++ frees 11 r.alloc.fl)
  pub held : Held r.memory live

pub width_wide : (n : ℕ) → n + 7 < 2 ^ 32 → (n ≤ width n) × (8 ≤ width n)
unfolding alloc_size size_class class_size
width_wide n h = ground (arith, h)

Held-spliced :
    (off : ℕ) (v d : Bytes) (live : List (ℕ × Bytes)) (rest : List Block)
    → off + length v ≤ length d
    → length v + 7 < 2 ^ 32
    → BesideAll (off, width (length v)) (blocks live ++ rest)
    → Held d live
    → Held (spliced off v d) live
Held-spliced off v d [] rest fits short beside held = tt
Held-spliced off v d ((o, x) ∷ live) rest fits short beside held =
    ((same ∙ held.0.0, held.0.1), Held-spliced off v d live rest fits short beside.1 held.1)
  where
    same : take (length x) (drop o (spliced off v d)) ≡ take (length x) (drop o d)
    same = elim beside.0 [
      | inl after ↦
          spliced_after off v d fits o (length x)
            (omega (arith, after, (width_wide (length v) short).0))
      | inr before ↦
          spliced_before off v d fits o (length x)
            (omega (arith, before, (width_wide (length x) held.0.1).0))
    ]

bounded :
    (off n size : ℕ)
    → off + n ≤ size
    → size < 2 ^ 32
    → (ltb (uint32 (off + n)) off || ltb size (uint32 (off + n))) ≡ false
bounded off n size h k = ground (arith, h, k, wrapped)
  where
    wrapped : uint32 (off + n) ≡ off + n
    wrapped = omega (arith, h, k)

indexed :
    (off w size : ℕ)
    → off % 8 ≡ 0
    → off + w ≤ size
    → size < 2 ^ 32
    → 8 ≤ w
    → leb (uint32 size / 8) (off / 8) ≡ false
indexed off w size aligned h k wide = ground (arith, less)
  where
    less : off / 8 < uint32 size / 8
    less = omega (arith, aligned, h, k, wide)

module _ (v : Bytes) (r : Region) (live : List (ℕ × Bytes)) (k : Keeps r live)
    (short : length v + 7 < 2 ^ 32) where
  module _ (off : ℕ) (a : Allocator) (run : alloc (length v) r.alloc ≡ some (off, a)) where
    fresh : Fresh (length v) off r.alloc a
    fresh = alloc-Fresh (length v) off r.alloc a k.sound short run

    in_bounds : (off + width (length v) ≤ length r.memory) × (length r.memory < 2 ^ 32)
    in_bounds =
        omega (arith, fresh.within, fresh.size_is, k.size_is, k.sound.size_fits, fresh.sound.inside)

    fits : off + length v ≤ length r.memory
    fits = omega (arith, in_bounds.0, (width_wide (length v) short).0)

    after : Region
    after = record {
      memory = spliced off v r.memory;
      alloc = a;
      meta = some (λ i. if i == off / 8 then 0 else k.has_meta.0 i);
    }

    copied :
        copy_in off (length v) v (record r { alloc = a })
        ≡ some (record r { memory = spliced off v r.memory; alloc = a })
    unfolding copy_in
    copied = ground (arith, guard, take_all v)
      where
        guard :
            (ltb (uint32 (off + length v)) off || ltb (length r.memory) (uint32 (off + length v)))
            ≡ false
        guard = bounded off (length v) (length r.memory) fits in_bounds.1

    stored :
        store_meta
          (off / 8)
          0
          (ensure_meta (record r { memory = spliced off v r.memory; alloc = a }))
        ≡ some after
    unfolding store_meta ensure_meta after
    stored = ground (arith, k.has_meta.1, inside)
      where
        inside : leb (uint32 (length (spliced off v r.memory)) / 8) (off / 8) ≡ false
        inside =
            ap (λ n. leb (uint32 n / 8) (off / 8)) (length-spliced off v r.memory fits)
            ∙ indexed off (width (length v)) (length r.memory) fresh.aligned in_bounds.0 in_bounds.1
                (width_wide (length v) short).1

    placed : place_value v (length v) r ≡ some (some (off, after))
    unfolding place_value
    placed = ground (arith, run, copied, stored)

    after-Keeps : Keeps after ((off, v) ∷ live)
    unfolding after
    after-Keeps = record {
      sound = fresh.sound;
      size_is = length-spliced off v r.memory fits ∙ k.size_is ∙ sym fresh.size_is;
      has_meta = (_, refl);
      below = (
        (fresh.aligned, fresh.within),
        Below-grow r.alloc.offset a.offset (blocks live) fresh.grows k.below,
      );
      apart = fresh.apart (blocks live) k.below k.apart;
      held = (
        (spliced_here off v r.memory fits, short),
        Held-spliced off v r.memory live (frees 11 a.fl) fits short
            (fresh.apart (blocks live) k.below k.apart).0 k.held,
      );
    }

  -- The region after a value has been put into the block that Alloc gives.
  pub place_value-alloc :
      (off : ℕ) (a : Allocator)
      → alloc (length v) r.alloc ≡ some (off, a)
      → (r' : Region) × (place_value v (length v) r ≡ some (some (off, r')))
        × Keeps r' ((off, v) ∷ live)
  place_value-alloc off a run = (after off a run, placed off a run, after-Keeps off a run)

  -- An attempt to put a value finds no room, or puts it beside the others.
  pub place_value-cases :
      (place_value v (length v) r ≡ some none)
      ⊎ ((off : ℕ) × (r' : Region) × (place_value v (length v) r ≡ some (some (off, r')))
          × Keeps r' ((off, v) ∷ live))
  unfolding place_value
  place_value-cases = elim (Option-cases (alloc (length v) r.alloc)) [
    | inl none_left ↦ inl (full none_left)
    | inr ((off, a), run) ↦
        let (r', runs, kept) = place_value-alloc off a run in inr (off, r', runs, kept)
  ]
    where
      full : alloc (length v) r.alloc ≡ none → place_value v (length v) r ≡ some none
      full e = ground (arith, e)

blocks-append : (xs ys : List (ℕ × Bytes)) → blocks (xs ++ ys) ≡ blocks xs ++ blocks ys
blocks-append [] ys = refl
blocks-append ((off, v) ∷ xs) ys = ap (λ bs. (off, width (length v)) ∷ bs) (blocks-append xs ys)

Held-out :
    (d : Bytes) (xs ys : List (ℕ × Bytes)) (off : ℕ) (v : Bytes)
    → Held d (xs ++ ((off, v) ∷ ys))
    → ((take (length v) (drop off d) ≡ v) × (length v + 7 < 2 ^ 32)) × Held d (xs ++ ys)
Held-out d [] ys off v h = h
Held-out d ((o, x) ∷ xs) ys off v h = let (k, r) = Held-out d xs ys off v h.1 in (k, (h.0, r))

Below-out :
    (top : ℕ) (xs ys : List (ℕ × Bytes)) (off : ℕ) (v : Bytes)
    → Below top (blocks (xs ++ ((off, v) ∷ ys)))
    → ((off % 8 ≡ 0) × (off + width (length v) ≤ top)) × Below top (blocks (xs ++ ys))
Below-out top [] ys off v h = h
Below-out top ((o, x) ∷ xs) ys off v h = let (k, r) = Below-out top xs ys off v h.1 in (k, (h.0, r))

module _ (r : Region) (xs ys : List (ℕ × Bytes)) (off : ℕ) (v : Bytes)
    (k : Keeps r (xs ++ ((off, v) ∷ ys))) where
  -- A value that the region keeps is read at its place, which is inside the region.
  pub Keeps-read :
      (take (length v) (drop off r.memory) ≡ v)
      × (off + length v ≤ length r.memory)
      × (off < length r.memory)
  Keeps-read =
      let (same, short) = (Held-out r.memory xs ys off v k.held).0 in
      let (aligned, inside) = (Below-out r.alloc.offset xs ys off v k.below).0 in
      let wide = width_wide (length v) short in
      (
        same,
        omega (arith, inside, wide.0, k.size_is, k.sound.inside),
        omega (arith, inside, wide.1, k.size_is, k.sound.inside),
      )

  -- After Free of its block the region keeps the others.
  pub free-Keeps : Keeps (record r { alloc = free off (length v) r.alloc }) (xs ++ ys)
  free-Keeps =
      let (block, rest) = Below-out r.alloc.offset xs ys off v k.below in
      let (sound, offset_is, size_is) = free-Sound off (length v) r.alloc k.sound block.0 block.1 in
      record {
        sound = sound;
        size_is = k.size_is ∙ sym size_is;
        has_meta = k.has_meta;
        below = subst (λ n. Below n (blocks (xs ++ ys))) (sym offset_is) rest;
        apart =
            subst (λ bs. Apart (bs ++ frees 11 (free off (length v) r.alloc).fl))
              (sym (blocks-append xs ys))
              (free-Apart off (length v) r.alloc (blocks xs) (blocks ys) (
                subst (λ bs. Apart (bs ++ frees 11 r.alloc.fl)) (blocks-append xs ((off, v) ∷ ys))
                  k.apart));
        held = (Held-out r.memory xs ys off v k.held).1;
      }
