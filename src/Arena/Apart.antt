-- ===== src/Arena/Apart.antt =====
-- Blocks of a region that do not overlap: those that are handed out, and those in the freelists of
-- internal/arena/allocator.go.
use horreum.Common.{
  ℕ, zero, suc, ◌+◌, ◌<◌, ◌≤◌, ◌≡◌, ◌≢◌, ◌⊎◌, inl, inr, refl, sym, ◌∙◌, ap, ap₂, subst, true, false,
  List, [], ◌∷◌, ◌++◌, append_assoc, arith, ◌==◌, if◌then◌else◌,
}
use horreum.Arena.Allocator.{Allocator, class_size, set_list}

abbrev pub Block : Type 0
Block = ℕ × ℕ

-- The one ends where the other starts, or before.
abbrev pub Beside : Block → Block → Type 0
Beside b c = (b.0 + b.1 ≤ c.0) ⊎ (c.0 + c.1 ≤ b.0)

abbrev pub BesideAll : Block → List Block → Type 0
BesideAll b [] = Unit
BesideAll b (c ∷ cs) = Beside b c × BesideAll b cs

abbrev pub Apart : List Block → Type 0
Apart [] = Unit
Apart (b ∷ bs) = BesideAll b bs × Apart bs

turned : (b c : Block) → Beside b c → Beside c b
turned b c h = omega (arith, h)

-- Taking a block out of the list, and putting one in.
BesideAll-out :
    (b c : Block) (xs ys : List Block)
    → BesideAll b (xs ++ (c ∷ ys))
    → Beside b c × BesideAll b (xs ++ ys)
BesideAll-out b c [] ys h = h
BesideAll-out b c (x ∷ xs) ys h = let (k, r) = BesideAll-out b c xs ys h.1 in (k, (h.0, r))

BesideAll-in :
    (b c : Block) (xs ys : List Block)
    → Beside b c
    → BesideAll b (xs ++ ys)
    → BesideAll b (xs ++ (c ∷ ys))
BesideAll-in b c [] ys k h = (k, h)
BesideAll-in b c (x ∷ xs) ys k h = (h.0, BesideAll-in b c xs ys k h.1)

pub Apart-out :
    (c : Block) (xs ys : List Block)
    → Apart (xs ++ (c ∷ ys))
    → BesideAll c (xs ++ ys) × Apart (xs ++ ys)
Apart-out c [] ys h = h
Apart-out c (x ∷ xs) ys h =
    let (k, r) = BesideAll-out x c xs ys h.0 in
    let (ks, rest) = Apart-out c xs ys h.1 in ((turned x c k, ks), (r, rest))

pub Apart-in :
    (c : Block) (xs ys : List Block)
    → BesideAll c (xs ++ ys)
    → Apart (xs ++ ys)
    → Apart (xs ++ (c ∷ ys))
Apart-in c [] ys k h = (k, h)
Apart-in c (x ∷ xs) ys k h = (BesideAll-in x c xs ys (turned c x k.0) h.0, Apart-in c xs ys k.1 h.1)

-- A block from one list to the other.
pub Apart-moved :
    (c : Block) (xs ys us vs : List Block)
    → Apart ((xs ++ (c ∷ ys)) ++ (us ++ vs))
    → Apart ((xs ++ ys) ++ (us ++ (c ∷ vs)))
Apart-moved c xs ys us vs h =
    let (k, r) =
      Apart-out c xs (ys ++ (us ++ vs)) (subst Apart (append_assoc xs (c ∷ ys) (us ++ vs)) h) in
    subst Apart (append_assoc (xs ++ ys) us (c ∷ vs)) (
      Apart-in c ((xs ++ ys) ++ us) vs
        (subst (BesideAll c) (sym (append_assoc (xs ++ ys) us vs))
          (subst (BesideAll c) (sym (append_assoc xs ys (us ++ vs))) k))
        (subst Apart (sym (append_assoc (xs ++ ys) us vs))
          (subst Apart (sym (append_assoc xs ys (us ++ vs))) r)))

-- The free blocks of one class, and of all classes below `n`.
abbrev pub blocks_of : ℕ → List ℕ → List Block
blocks_of width [] = []
blocks_of width (off ∷ offs) = (off, width) ∷ blocks_of width offs

abbrev pub frees : ℕ → (ℕ → List ℕ) → List Block
frees zero fl = []
frees (suc n) fl = blocks_of (class_size n) (fl n) ++ frees n fl

frees-above :
    (n cls : ℕ) (fl : ℕ → List ℕ) (l : List ℕ)
    → n ≤ cls
    → frees n (λ c. if c == cls then l else fl c) ≡ frees n fl
frees-above zero cls fl l h = refl
frees-above (suc n) cls fl l h = ground (arith, h, frees-above n cls fl l)

-- The blocks of one class stand in one place of the list.
pub frees-split :
    (n cls : ℕ) (fl : ℕ → List ℕ)
    → cls < n
    → (us : List Block) × (vs : List Block) × ((l : List ℕ)
        → frees n (λ c. if c == cls then l else fl c) ≡ us ++ (blocks_of (class_size cls) l ++ vs))
frees-split zero cls fl h = absurd (omega (arith, h))
frees-split (suc n) cls fl h = elim (same n cls) [
  | inl (e, t) ↦ (
    [],
    frees n fl,
    λ l. rw t (
        ap₂ (λ k bs. blocks_of (class_size k) l ++ bs) e
          (frees-above n cls fl l (omega (arith, e)))),
  )
  | inr (e, f) ↦
      let (us, vs, split) = frees-split n cls fl (omega (arith, h, e)) in
      (
        blocks_of (class_size n) (fl n) ++ us,
        vs,
        λ l. rw f (
            ap (λ bs. blocks_of (class_size n) (fl n) ++ bs) (split l)
            ∙ sym (
                append_assoc (blocks_of (class_size n) (fl n)) us
                  (blocks_of (class_size cls) l ++ vs))),
      )
]
  where
    same : (c d : ℕ) → ((c ≡ d) × ((c == d) ≡ true)) ⊎ ((c ≢ d) × ((c == d) ≡ false))
    same c d = ground arith

-- A class keeps its free blocks.
frees-same :
    (n cls : ℕ) (fl : ℕ → List ℕ) → frees n (λ c. if c == cls then fl cls else fl c) ≡ frees n fl
frees-same zero cls fl = refl
frees-same (suc n) cls fl =
    ap₂ (λ l bs. blocks_of (class_size n) l ++ bs) back (frees-same n cls fl)
  where
    same : (c d : ℕ) → ((c ≡ d) × ((c == d) ≡ true)) ⊎ ((c ≢ d) × ((c == d) ≡ false))
    same c d = ground arith

    back : (if n == cls then fl cls else fl n) ≡ fl n
    back = elim (same n cls) [ inl (e, t) ↦ rw t (ap fl (sym e)) | inr (e, f) ↦ rw f refl ]

-- A freelist that starts with a block, and the one without it.
pub frees-set_list :
    (a : Allocator) (cls off : ℕ) (next : List ℕ)
    → cls < 11
    → (us : List Block) × (vs : List Block) × (frees 11 (set_list cls (off ∷ next) a).fl
        ≡ us ++ ((off, class_size cls) ∷ vs))
      × (frees 11 (set_list cls next a).fl ≡ us ++ vs)
unfolding set_list
frees-set_list a cls off next h =
    let (us, vs, split) = frees-split 11 cls a.fl h in
    (us, blocks_of (class_size cls) next ++ vs, split (off ∷ next), split next)

pub frees-head :
    (a : Allocator) (cls : ℕ) (l : List ℕ)
    → a.fl cls ≡ l
    → frees 11 (set_list cls l a).fl ≡ frees 11 a.fl
unfolding set_list
frees-head a cls l e =
    subst (λ k. frees 11 (set_list cls k a).fl ≡ frees 11 a.fl) e (frees-same 11 cls a.fl)
