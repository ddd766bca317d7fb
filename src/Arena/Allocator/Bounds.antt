-- ===== src/Arena/Allocator/Bounds.antt =====
-- Every block that Alloc of allocator.go hands out stands inside the region, aligned.
use horreum.Common.{
  ℕ, ◌+◌, ◌*◌, ◌/◌, ◌%◌, ◌^◌, ◌<◌, ◌≤◌, ◌≡◌, refl, sym, subst, true, false, Option, none, some,
  List, [], ◌∷◌, arith, ltb, leb, ◌==◌, if◌then◌else◌, ◌⊎◌, inl, inr,
}
use horreum.Bytes.{uint64}
use horreum.Arena.Allocator.{
  Allocator, size_class, class_size, set_list, bump, alloc_size, alloc, free,
}

-- Free blocks of one width, aligned and below the bump pointer.
abbrev pub Blocks : (offset width : ℕ) → List ℕ → Type 0
Blocks offset width [] = Unit
Blocks offset width (off ∷ offs) =
    ((off % 8 ≡ 0) × (off + width ≤ offset)) × Blocks offset width offs

-- The bump pointer stands inside the region, and every free block below it.
pub record IsSound (a : Allocator) : Type 0 where
  pub size_fits : a.size < 2 ^ 32
  pub inside : a.offset ≤ a.size
  pub lists : (cls : ℕ) → cls < 11 → Blocks a.offset (class_size cls) (a.fl cls)

-- A class is wide enough for the sizes in it.
pub size_class_lem :
    (n : ℕ)
    → size_class n < 11
    → (n ≤ class_size (size_class n)) × (class_size (size_class n) ≤ 8192)
unfolding size_class class_size
size_class_lem n h = ground (arith, h)

pub size_class_small : (n : ℕ) → n ≤ 8192 → size_class n < 11
unfolding size_class
size_class_small n h = ground (arith, h)

offset-set_list : (cls : ℕ) (l : List ℕ) (a : Allocator) → (set_list cls l a).offset ≡ a.offset
unfolding set_list
offset-set_list cls l a = refl

pub alloc_size_lem : (n : ℕ) → n + 7 < 2 ^ 32 → (n ≤ alloc_size n) × (alloc_size n < 2 ^ 32)
unfolding alloc_size size_class class_size
alloc_size_lem n h = ground (arith, h)

Blocks-grow : (a b width : ℕ) (offs : List ℕ) → a ≤ b → Blocks a width offs → Blocks b width offs
Blocks-grow a b width [] h bs = bs
Blocks-grow a b width (off ∷ offs) h bs =
    ((bs.0.0, omega (arith, bs.0.1)), Blocks-grow a b width offs h bs.1)

-- What Alloc promises: the block is aligned and has room for the request below the bump pointer.
pub record Given (n off : ℕ) (a' : Allocator) : Type 0 where
  pub aligned : off % 8 ≡ 0
  pub room : off + n ≤ a'.offset
  pub sound : IsSound a'

abbrev Promise : ℕ → Option (ℕ × Allocator) → Type 0
Promise n none = Unit
Promise n (some (off, a')) = Given n off a'

bump_lem :
    (width n : ℕ) (a : Allocator)
    → IsSound a
    → n ≤ width
    → width < 2 ^ 32
    → Promise n (bump width a)
unfolding bump
bump_lem width n a i l h = subst (Promise n) (sym computed) (elim (room (align + width) a.size) [
  | inl full ↦ rw full tt
  | inr fits ↦ rw fits (record {
    aligned = omega arith;
    room = omega (arith, l);
    sound = record {
      size_fits = i.size_fits;
      inside = ground (arith, fits);
      lists = λ cls c.
          Blocks-grow a.offset (align + width) (class_size cls) (a.fl cls) (omega arith)
            (i.lists cls c);
    };
  })
])
  where
    align : ℕ
    align = (a.offset + 7) / 8 * 8

    room : (b c : ℕ) → (ltb c b ≡ true) ⊎ (ltb c b ≡ false)
    room b c = ground arith

    aligned_here : uint64 (a.offset + 7) / 8 * 8 ≡ align
    aligned_here = omega (arith, i.inside, i.size_fits)

    new_here : uint64 (uint64 (a.offset + 7) / 8 * 8 + width) ≡ align + width
    new_here = omega (arith, i.inside, i.size_fits, h)

    computed : bump width a ≡ (
        if ltb a.size (align + width)
        then none
        else some (align, record a { offset = align + width }))
    computed = ground (arith, aligned_here, new_here, i.inside, i.size_fits)

set_list-IsSound :
    (cls : ℕ) (l : List ℕ) (a : Allocator)
    → IsSound a
    → Blocks a.offset (class_size cls) l
    → IsSound (set_list cls l a)
unfolding set_list
set_list-IsSound cls l a i bs = record {
  size_fits = i.size_fits;
  inside = i.inside;
  lists = λ c h. elim (same c cls) [
    | inl e ↦ rw e.1 (subst (λ k. Blocks a.offset (class_size k) l) (sym e.0) bs)
    | inr e ↦ rw e (i.lists c h)
  ];
}
  where
    same : (c d : ℕ) → ((c ≡ d) × ((c == d) ≡ true)) ⊎ ((c == d) ≡ false)
    same c d = ground arith

-- The size that Alloc takes a request for.
abbrev pub at_least_one : ℕ → ℕ
at_least_one n = if n == 0 then 1 else n

module _ (n : ℕ) (a : Allocator) where
  pub alloc-large :
      11 ≤ size_class (at_least_one n) → alloc n a ≡ bump (alloc_size (at_least_one n)) a
  unfolding alloc
  alloc-large h = ground (arith, h)

  pub alloc-nothing_free :
      a.fl (size_class (at_least_one n)) ≡ [] → alloc n a ≡ bump (alloc_size (at_least_one n)) a
  unfolding alloc
  alloc-nothing_free e = ground (arith, e)

  pub alloc-reused :
      (off : ℕ) (next : List ℕ)
      → size_class (at_least_one n) < 11
      → a.fl (size_class (at_least_one n)) ≡ off ∷ next
      → alloc n a ≡ some (off, set_list (size_class (at_least_one n)) next a)
  unfolding alloc
  alloc-reused off next h e = ground (arith, h, e)

alloc_lem : (n : ℕ) (a : Allocator) → IsSound a → n + 7 < 2 ^ 32 → Promise n (alloc n a)
alloc_lem n a i h = elim (whether cls 11) [
  | inr large ↦ subst (Promise n) (sym (alloc-large n a large)) bumped
  | inl small ↦ elim (shape (a.fl cls)) [
    | inl nothing ↦ subst (Promise n) (sym (alloc-nothing_free n a nothing)) bumped
    | inr (off, next, e) ↦
        subst (Promise n) (sym (alloc-reused n a off next small e))
          (reused small off next (subst (Blocks a.offset (class_size cls)) e (i.lists cls small)))
  ]
]
  where
    m : ℕ
    m = at_least_one n

    cls : ℕ
    cls = size_class m

    whether : (x y : ℕ) → (x < y) ⊎ (y ≤ x)
    whether x y = ground arith

    shape : (l : List ℕ) → (l ≡ []) ⊎ ((off : ℕ) × (next : List ℕ) × (l ≡ off ∷ next))
    shape [] = inl refl
    shape (off ∷ next) = inr (off, next, refl)

    bounds : (n ≤ m) × (m + 7 < 4294967296)
    bounds = ground (arith, h)

    bumped : Promise n (bump (alloc_size m) a)
    bumped =
        let w = alloc_size_lem m bounds.1 in
        bump_lem (alloc_size m) n a i (omega (arith, w.0, bounds.0)) w.1

    reused :
        cls < 11
        → (off : ℕ) (next : List ℕ) → Blocks a.offset (class_size cls) (off ∷ next)
        → Given n off (set_list cls next a)
    reused c off next bs = record {
      aligned = bs.0.0;
      room = omega (arith, bs.0.1, (size_class_lem m c).0, bounds.0, offset-set_list cls next a);
      sound = set_list-IsSound cls next a i bs.1;
    }

-- Alloc of fewer than 2^32 - 7 bytes, when it succeeds: the block is aligned to 8, has room for the request
-- below the bump pointer and thus inside the region, and the allocator stays sound.
pub alloc-Given :
    (n off : ℕ) (a a' : Allocator)
    → IsSound a
    → n + 7 < 2 ^ 32
    → alloc n a ≡ some (off, a')
    → Given n off a'
alloc-Given n off a a' i h e = subst (Promise n) e (alloc_lem n a i h)

-- Free of a block that an allocation of this size can have returned keeps the allocator sound.
pub free-IsSound :
    (off size : ℕ) (a : Allocator)
    → IsSound a
    → off % 8 ≡ 0
    → off + class_size (size_class size) ≤ a.offset
    → IsSound (free off size a)
unfolding free
free-IsSound off size a i aligned below = elim (whether 11 (size_class size)) [
  | inl e ↦ rw e i
  | inr e ↦ rw e.1 (
      set_list-IsSound (size_class size) (off ∷ a.fl (size_class size)) a i
        ((aligned, below), i.lists (size_class size) e.0))
]
  where
    whether : (x y : ℕ) → (leb x y ≡ true) ⊎ ((y < x) × (leb x y ≡ false))
    whether x y = ground arith
