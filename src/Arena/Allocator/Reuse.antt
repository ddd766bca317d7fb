-- ===== src/Arena/Allocator/Reuse.antt =====
-- Free of allocator.go and the Alloc behind it; the width of a request.
use horreum.Common.{
  ℕ, ◌+◌, ◌^◌, ◌<◌, ◌≤◌, ◌≡◌, sym, ◌∙◌, ap, ap₂, subst, some, List, ◌∷◌, arith, ◌==◌, if◌then◌else◌,
}
use horreum.Arena.Allocator.{Allocator, size_class, set_list, alloc_size, alloc, free}
use horreum.Arena.Allocator.Bounds.{at_least_one, size_class_small, alloc-reused}

set_list-at : (cls : ℕ) (l : List ℕ) (a : Allocator) → (set_list cls l a).fl cls ≡ l
unfolding set_list
set_list-at cls l a = ground arith

undone : (cls : ℕ) (l : List ℕ) (a : Allocator) → set_list cls (a.fl cls) (set_list cls l a) ≡ a
unfolding set_list
undone cls l a = λ j. record a { fl = λ c. back c j }
  where
    back : (c : ℕ) → (if c == cls then a.fl cls else (if c == cls then l else a.fl c)) ≡ a.fl c
    back c = ground arith

-- A block of at most 8192 bytes that is freed is the next one of its size that is handed out, and
-- the freelists are then as before the Free.
pub alloc-free :
    (n off : ℕ) (a : Allocator) → 1 ≤ n → n ≤ 8192 → alloc n (free off n a) ≡ some (off, a)
unfolding free
alloc-free n off a l h =
    alloc-reused n (free off n a) off (a.fl cls) (subst (λ k. size_class k < 11) (sym same) small)
      there
    ∙ ap (λ b. some (off, b))
        (ap₂ (λ k b. set_list (size_class k) (a.fl cls) b) same freed
          ∙ undone cls (off ∷ a.fl cls) a)
  where
    cls : ℕ
    cls = size_class n

    same : at_least_one n ≡ n
    same = ground (arith, l)

    small : cls < 11
    small = size_class_small n h

    freed : free off n a ≡ set_list cls (off ∷ a.fl cls) a
    freed = ground (arith, small)

    there : (free off n a).fl (size_class (at_least_one n)) ≡ off ∷ a.fl cls
    there = ap₂ (λ k b. b.fl (size_class k)) same freed ∙ set_list-at cls (off ∷ a.fl cls) a

-- A request of 2^32 - 7 bytes or more is rounded up to no bytes at all.
pub alloc_size_wraps : (n : ℕ) → 2 ^ 32 ≤ n + 7 → n < 2 ^ 32 → alloc_size n ≡ 0
unfolding alloc_size size_class
alloc_size_wraps n h k = ground (arith, h, k)
