-- ===== src/Arena/Allocator.antt =====
-- internal/arena/allocator.go: bump allocation and segregated freelists in one region. The CAS loop
-- is one attempt, since no other thread runs in between; the mutex is left out.
pub mod Bounds
pub mod Reuse
use horreum.Common.{
  ℕ, zero, suc, ◌+◌, ◌-◌, ◌*◌, ◌/◌, ◌^◌, Bool, true, false, Option, none, some, List, [], ◌∷◌, ltb,
  leb, ◌==◌, if◌then◌else◌, length,
}
use horreum.Bytes.{uint32, uint64}

abbrev pub num_size_classes : ℕ
num_size_classes = 12

-- The array fl of freelists is a function of the class; a freelist holds the offsets of its nodes.
pub record Allocator : Type 0 where
  pub offset : ℕ
  pub size : ℕ
  pub fl : ℕ → List ℕ

-- Init
unfoldable pub init : ℕ → Allocator
init size = record { offset = 0; size = size; fl = λ cls. [] }

-- Skip
unfoldable pub skip : ℕ → Allocator → Allocator
skip n a = record a { offset = n }

-- sizeClass
unfoldable pub size_class : ℕ → ℕ
size_class n =
    if leb n 8
    then 0
    else if leb n 16
    then 1
    else if leb n 32
    then 2
    else if leb n 64
    then 3
    else if leb n 128
    then 4
    else if leb n 256
    then 5
    else if leb n 512
    then 6
    else if leb n 1024
    then 7
    else if leb n 2048
    then 8
    else if leb n 4096
    then 9
    else if leb n 8192
    then 10
    else 11

-- The array sizeClasses.
abbrev pub size_classes : List ℕ
size_classes = 8 ∷ 16 ∷ 32 ∷ 64 ∷ 128 ∷ 256 ∷ 512 ∷ 1024 ∷ 2048 ∷ 4096 ∷ 8192 ∷ 0 ∷ []

abbrev pub entry_at : List ℕ → ℕ → ℕ
entry_at [] n = 0
entry_at (x ∷ xs) zero = x
entry_at (x ∷ xs) (suc n) = entry_at xs n

-- classSize
unfoldable pub class_size : ℕ → ℕ
class_size cls = if ltb cls (num_size_classes - 1) then entry_at size_classes cls else 0

-- An update of the array fl.
unfoldable pub set_list : ℕ → List ℕ → Allocator → Allocator
set_list cls l a = record a { fl = λ c. if c == cls then l else a.fl c }

-- (x + alignBytes - 1) &^ (alignBytes - 1), in the width of x
abbrev pub align32 : ℕ → ℕ
align32 n = uint32 (n + 7) / 8 * 8

abbrev pub align64 : ℕ → ℕ
align64 n = uint64 (n + 7) / 8 * 8

-- The part of Alloc behind the freelists; `none` is ErrArenaFull.
unfoldable pub bump : ℕ → Allocator → Option (ℕ × Allocator)
bump alloc_size a =
    let aligned = align64 a.offset in
    let new_off = uint64 (aligned + alloc_size) in
    if ltb a.size new_off then none else some (uint32 aligned, record a { offset = new_off })

-- The bytes that Alloc bumps by.
unfoldable pub alloc_size : ℕ → ℕ
alloc_size n =
    let cls = size_class n in if ltb cls (num_size_classes - 1) then class_size cls else align32 n

-- Alloc
unfoldable pub alloc : ℕ → Allocator → Option (ℕ × Allocator)
alloc requested a =
    let n = if requested == 0 then 1 else requested in
    let cls = size_class n in
    elim (ltb cls (num_size_classes - 1)) [
      | false ↦ bump (alloc_size n) a
      | true ↦ elim (a.fl cls) [
        | [] ↦ bump (alloc_size n) a
        | off ∷ next ↦ some (off, set_list cls next a)
      ]
    ]

-- Free
unfoldable pub free : ℕ → ℕ → Allocator → Allocator
free offset size a =
    let cls = size_class size in
    if leb (num_size_classes - 1) cls then a else set_list cls (offset ∷ a.fl cls) a
