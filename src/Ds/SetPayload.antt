-- ===== src/Ds/SetPayload.antt =====
-- internal/ds/set.go: a set as one payload, a 4-byte count and then each member behind its 2-byte
-- length. The loops stop with false, or end, where a member does not fit the payload.
pub mod Layout
pub mod Lookup
pub mod Refine
pub mod Examples
pub mod Truncation
use horreum.Common.{
  ℕ, zero, suc, ◌+◌, ◌-◌, Bool, true, false, Option, none, some, List, [], ◌∷◌, ◌++◌, ltb, ◌==◌,
  if◌then◌else◌, length, drop, take,
}
use horreum.Bytes.{
  Bytes, uint16, uint32, put_uint16, put_uint32, get_uint16, get_uint32, slice, bytes_eq,
}

-- The loop that SAdd, SRem and SIsMember share, over the rounds left: the offsets at which the
-- first entry equal to `member` starts and ends.
unfoldable pub find_member : Bytes → Bytes → ℕ → ℕ → Option (ℕ × ℕ)
find_member raw member zero off = none
find_member raw member (suc n) off =
    let mlen = get_uint16 (drop off raw) in
    let end = off + 2 + mlen in
    let m = slice raw (off + 2) end in
    let rest = find_member raw member n end in
    if ltb (length raw) (off + 2)
    then none
    else if ltb (length raw) end
    then none
    else if bytes_eq m member
    then some (off, end)
    else rest

-- SAdd
s_add_found : Bytes → Bytes → Option (ℕ × ℕ) → Bytes × Bool
s_add_found raw member (some found) = (raw, false)
s_add_found raw member none =
    let count = get_uint32 raw in
    (
      put_uint32 (uint32 (count + 1))
          ++ (drop 4 raw ++ (put_uint16 (uint16 (length member)) ++ member)),
      true,
    )

unfoldable pub s_add : Bytes → Bytes → Bytes × Bool
unfolding s_add_found
s_add raw member =
    let found = find_member raw member (get_uint32 raw) 4 in
    if ltb (length raw) 4
    then (put_uint32 1 ++ (put_uint16 (uint16 (length member)) ++ member), true)
    else s_add_found raw member found

-- SRem: without the bytes from the entry's start to its end; nil for the last member.
s_rem_found : Bytes → Option (ℕ × ℕ) → Bytes × Bool
s_rem_found raw none = (raw, false)
s_rem_found raw (some (start, end)) =
    let count = get_uint32 raw in
    if count == 1
    then ([], true)
    else (put_uint32 (count - 1) ++ (drop 4 (take start raw) ++ drop end raw), true)

unfoldable pub s_rem : Bytes → Bytes → Bytes × Bool
unfolding s_rem_found
s_rem raw member =
    let found = find_member raw member (get_uint32 raw) 4 in
    if ltb (length raw) 4 then (raw, false) else s_rem_found raw found

-- SIsMember
unfoldable pub s_is_member : Bytes → Bytes → Bool
s_is_member raw member =
    let found = find_member raw member (get_uint32 raw) 4 in
    if ltb (length raw) 4 then false else elim found [ none ↦ false | some _ ↦ true ]

-- SMembers
unfoldable pub walk_members : Bytes → ℕ → ℕ → List Bytes
walk_members raw zero off = []
walk_members raw (suc n) off =
    let mlen = get_uint16 (drop off raw) in
    let end = off + 2 + mlen in
    let m = slice raw (off + 2) end in
    let rest = walk_members raw n end in
    if ltb (length raw) (off + 2) then [] else if ltb (length raw) end then [] else m ∷ rest

unfoldable pub s_members : Bytes → List Bytes
s_members raw =
    let members = walk_members raw (get_uint32 raw) 4 in if ltb (length raw) 4 then [] else members
