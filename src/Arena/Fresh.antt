-- ===== src/Arena/Fresh.antt =====
-- The block that Alloc of internal/arena/allocator.go hands out overlaps no other block in use, and
-- Free gives a block back without an overlap.
use horreum.Common.{
  ℕ, zero, suc, ◌+◌, ◌*◌, ◌/◌, ◌%◌, ◌^◌, ◌<◌, ◌≤◌, ◌≡◌, ◌⊎◌, inl, inr, refl, sym, ◌∙◌, ap, subst,
  append_assoc, true, false, some, List, [], ◌∷◌, ◌++◌, arith, ltb, leb, Bool-cases,
}
use horreum.Bytes.{uint32, uint64}
use horreum.Arena.Allocator.{
  Allocator, size_class, class_size, set_list, bump, alloc_size, alloc, free,
}
use horreum.Arena.Allocator.Bounds.{
  Blocks, IsSound, Given, alloc-Given, at_least_one, alloc_size_lem, alloc-large,
  alloc-nothing_free, alloc-reused, free-IsSound,
}
use horreum.Arena.Apart.{
  Block, BesideAll, Apart, Apart-out, Apart-moved, blocks_of, frees, frees-set_list, frees-head,
}

-- The bytes that a value of `n` bytes takes up.
abbrev pub width : ℕ → ℕ
width n = alloc_size (at_least_one n)

-- Aligned blocks that end at `top` or before.
abbrev pub Below : ℕ → List Block → Type 0
Below top [] = Unit
Below top (b ∷ bs) = ((b.0 % 8 ≡ 0) × (b.0 + b.1 ≤ top)) × Below top bs

pub Below-append :
    (top : ℕ) (xs ys : List Block) → Below top xs → Below top ys → Below top (xs ++ ys)
Below-append top [] ys h k = k
Below-append top (x ∷ xs) ys h k = (h.0, Below-append top xs ys h.1 k)

pub Below-grow : (top top' : ℕ) (xs : List Block) → top ≤ top' → Below top xs → Below top' xs
Below-grow top top' [] l h = tt
Below-grow top top' (x ∷ xs) l h = ((h.0.0, omega (arith, h.0.1, l)), Below-grow top top' xs l h.1)

Below-blocks_of : (top w : ℕ) (l : List ℕ) → Blocks top w l → Below top (blocks_of w l)
Below-blocks_of top w [] h = tt
Below-blocks_of top w (off ∷ l) h = (h.0, Below-blocks_of top w l h.1)

pub Below-frees : (n : ℕ) (a : Allocator) → IsSound a → n ≤ 11 → Below a.offset (frees n a.fl)
Below-frees zero a i h = tt
Below-frees (suc n) a i h =
    Below-append a.offset (blocks_of (class_size n) (a.fl n)) (frees n a.fl)
      (Below-blocks_of a.offset (class_size n) (a.fl n) (i.lists n (omega (arith, h))))
      (Below-frees n a i (omega (arith, h)))

BesideAll-above :
    (top off w : ℕ) (bs : List Block) → Below top bs → top ≤ off → BesideAll (off, w) bs
BesideAll-above top off w [] h l = tt
BesideAll-above top off w (b ∷ bs) h l =
    (inr (omega (arith, h.0.1, l)), BesideAll-above top off w bs h.1 l)

-- The allocator `a'` has handed out the block of `n` bytes at `off`.
pub record Fresh (n off : ℕ) (a a' : Allocator) : Type 0 where
  pub aligned : off % 8 ≡ 0
  pub sound : IsSound a'
  pub grows : a.offset ≤ a'.offset
  pub within : off + width n ≤ a'.offset
  pub size_is : a'.size ≡ a.size
  pub apart :
      (bs : List Block)
      → Below a.offset bs
      → Apart (bs ++ frees 11 a.fl)
      → Apart ((off, width n) ∷ (bs ++ frees 11 a'.fl))

bump_moves :
    (w off : ℕ) (a a' : Allocator)
    → IsSound a
    → w < 2 ^ 32
    → bump w a ≡ some (off, a')
    → (a.offset ≤ off) × (record a { offset = off + w } ≡ a')
unfolding bump
bump_moves w off a a' i h e = elim (Bool-cases (ltb a.size top)) [
  | inl full ↦ absurd (ground (arith, full, e))
  | inr fits ↦
      let off_is : uint32 start ≡ off = ground (arith, fits, e) in
      let a'_is : record a { offset = top } ≡ a' = ground (arith, fits, e) in
      let small : top ≤ a.size = ground (arith, fits) in
      let there : off ≡ start = omega (arith, off_is, small, top_is, i.size_fits) in
      (
        omega (arith, there, ahead),
        subst (λ (t : ℕ). record a { offset = t } ≡ a') (omega (arith, top_is, there)) a'_is,
      )
]
  where
    start : ℕ
    start = uint64 (a.offset + 7) / 8 * 8

    top : ℕ
    top = uint64 (start + w)

    ahead : a.offset ≤ start
    ahead = omega (arith, i.inside, i.size_fits)

    top_is : top ≡ start + w
    top_is = omega (arith, i.inside, i.size_fits, h)

module _ (n off : ℕ) (a a' : Allocator) (i : IsSound a) (fits : n + 7 < 2 ^ 32)
    (e : alloc n a ≡ some (off, a')) where
  given : Given n off a'
  given = alloc-Given n off a a' i fits e

  bumped-Fresh : alloc n a ≡ bump (width n) a → Fresh n off a a'
  bumped-Fresh same =
      let (ahead, a'_is) =
        bump_moves (width n) off a a' i (alloc_size_lem (at_least_one n) room).1 (sym same ∙ e) in
      record {
        aligned = given.aligned;
        sound = given.sound;
        grows = subst (λ (b : Allocator). a.offset ≤ b.offset) a'_is (omega (arith, ahead));
        within = subst (λ (b : Allocator). off + width n ≤ b.offset) a'_is (omega arith);
        size_is = ap (λ (b : Allocator). b.size) (sym a'_is);
        apart = λ bs below h.
            subst (λ (b : Allocator). Apart ((off, width n) ∷ (bs ++ frees 11 b.fl))) a'_is
              (
                BesideAll-above a.offset off (width n) (bs ++ frees 11 a.fl)
                    (Below-append a.offset bs (frees 11 a.fl) below
                      (Below-frees 11 a i (omega arith)))
                    ahead,
                h,
              );
      }
    where
      room : at_least_one n + 7 < 2 ^ 32
      room = ground (arith, fits)

  reused-Fresh :
      (next : List ℕ)
      → size_class (at_least_one n) < 11
      → a.fl (size_class (at_least_one n)) ≡ off ∷ next
      → set_list (size_class (at_least_one n)) next a ≡ a'
      → Fresh n off a a'
  unfolding alloc_size set_list
  reused-Fresh next small here a'_is =
      let cls = size_class (at_least_one n) in
      let (us, vs, with_block, without) = frees-set_list a cls off next small in
      let block = (subst (Blocks a.offset (class_size cls)) here (i.lists cls small)).0 in
      record {
        aligned = given.aligned;
        sound = given.sound;
        grows = subst (λ (b : Allocator). a.offset ≤ b.offset) a'_is kept_offset;
        within =
            subst (λ (b : Allocator). off + width n ≤ b.offset) a'_is
              (omega (arith, block.1, width_is, kept_offset));
        size_is = ap (λ (b : Allocator). b.size) (sym a'_is) ∙ kept_size;
        apart = λ bs below h.
            let (beside, rest) =
              Apart-out (off, class_size cls) (bs ++ us) vs
                (subst Apart (sym (append_assoc bs us ((off, class_size cls) ∷ vs))) (
                  subst (λ fs. Apart (bs ++ fs))
                    (sym (frees-head a cls (off ∷ next) here) ∙ with_block) h)) in
            subst (λ (b : Allocator). Apart ((off, width n) ∷ (bs ++ frees 11 b.fl))) a'_is
              (subst (λ w. Apart ((off, w) ∷ (bs ++ frees 11 (set_list cls next a).fl)))
                (sym width_is)
                (subst (λ fs. Apart ((off, class_size cls) ∷ (bs ++ fs))) (sym without)
                  (
                    subst (BesideAll (off, class_size cls)) (append_assoc bs us vs) beside,
                    subst Apart (append_assoc bs us vs) rest,
                  )));
      }
    where
      width_is : width n ≡ class_size (size_class (at_least_one n))
      width_is = ground (arith, small)

      kept_offset : a.offset ≤ (set_list (size_class (at_least_one n)) next a).offset
      kept_offset = omega arith

      kept_size : (set_list (size_class (at_least_one n)) next a).size ≡ a.size
      kept_size = refl

pub alloc-Fresh :
    (n off : ℕ) (a a' : Allocator)
    → IsSound a
    → n + 7 < 2 ^ 32
    → alloc n a ≡ some (off, a')
    → Fresh n off a a'
alloc-Fresh n off a a' i fits e = elim (whether (size_class (at_least_one n)) 11) [
  | inr large ↦ bumped-Fresh n off a a' i fits e (alloc-large n a large)
  | inl small ↦ elim (shape (a.fl (size_class (at_least_one n)))) [
    | inl nothing ↦ bumped-Fresh n off a a' i fits e (alloc-nothing_free n a nothing)
    | inr (off', next, here) ↦
        let run = sym (alloc-reused n a off' next small here) ∙ e in
        let there : off' ≡ off = ground (arith, run) in
        reused-Fresh n off a a' i fits e next small (here ∙ ap (λ o. o ∷ next) there)
          (ground (arith, run))
  ]
]
  where
    whether : (x y : ℕ) → (x < y) ⊎ (y ≤ x)
    whether x y = ground arith

    shape : (l : List ℕ) → (l ≡ []) ⊎ ((o : ℕ) × (next : List ℕ) × (l ≡ o ∷ next))
    shape [] = inl refl
    shape (o ∷ next) = inr (o, next, refl)

same_class : (n : ℕ) → size_class (at_least_one n) ≡ size_class n
unfolding size_class
same_class n = ground arith

width_small : (n : ℕ) → size_class n < 11 → width n ≡ class_size (size_class n)
unfolding alloc_size
width_small n small = ground (arith, small, same_class n)

width_large : (n : ℕ) → 11 ≤ size_class n → class_size (size_class n) ≡ 0
unfolding class_size
width_large n large = ground (arith, large)

-- Free of a block in use.
pub free-Apart :
    (off n : ℕ) (a : Allocator) (xs ys : List Block)
    → Apart ((xs ++ ((off, width n) ∷ ys)) ++ frees 11 a.fl)
    → Apart ((xs ++ ys) ++ frees 11 (free off n a).fl)
unfolding free
free-Apart off n a xs ys h = elim (whether 11 (size_class n)) [
  | inl large ↦ rw large (
      subst Apart (sym (append_assoc xs ys (frees 11 a.fl)))
        (Apart-out (off, width n) xs (ys ++ frees 11 a.fl)
          (subst Apart (append_assoc xs ((off, width n) ∷ ys) (frees 11 a.fl)) h)).1)
  | inr (small, shut) ↦
      let cls = size_class n in
      let (us, vs, with_block, without) = frees-set_list a cls off (a.fl cls) small in
      let now = sym (frees-head a cls (a.fl cls) refl) ∙ without in
      rw shut (
        subst (λ fs. Apart ((xs ++ ys) ++ fs)) (sym with_block)
          (Apart-moved (off, class_size cls) xs ys us vs
            (subst (λ w. Apart ((xs ++ ((off, w) ∷ ys)) ++ (us ++ vs))) (width_small n small)
              (subst (λ fs. Apart ((xs ++ ((off, width n) ∷ ys)) ++ fs)) now h))))
]
  where
    whether : (x y : ℕ) → (leb x y ≡ true) ⊎ ((y < x) × (leb x y ≡ false))
    whether x y = ground arith

pub free-Sound :
    (off n : ℕ) (a : Allocator)
    → IsSound a
    → off % 8 ≡ 0
    → off + width n ≤ a.offset
    → IsSound (free off n a) × ((free off n a).offset ≡ a.offset) × ((free off n a).size ≡ a.size)
unfolding free set_list
free-Sound off n a i aligned below =
    (free-IsSound off n a i aligned room, ground arith, ground arith)
  where
    whether : (x y : ℕ) → (x < y) ⊎ (y ≤ x)
    whether x y = ground arith

    room : off + class_size (size_class n) ≤ a.offset
    room = elim (whether (size_class n) 11) [
      | inl small ↦ omega (arith, width_small n small, below)
      | inr large ↦ omega (arith, width_large n large, below)
    ]
