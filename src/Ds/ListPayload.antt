-- ===== src/Ds/ListPayload.antt =====
-- internal/ds/list.go: a list as one payload, a 4-byte count and then each element behind its
-- 4-byte length. A nil slice is []; a slice expression beyond the capacity panics.
pub mod Layout
pub mod Back
pub mod Refine
pub mod Examples
use horreum.Common.{
  ℕ, zero, suc, ◌+◌, ◌-◌, Bool, true, false, Option, none, some, [], ◌∷◌, ◌++◌, ltb, leb, ◌==◌,
  if◌then◌else◌, length, drop, ◌≤◌, ◌<◌, take,
}
use horreum.Ds.Deque.{Call, Reply, stored, element, size, panicked}
use horreum.Bytes.{Bytes, uint32, put_uint32, get_uint32, slice}

-- LPush
unfoldable pub l_push : Bytes → Bytes → Bytes
l_push raw elem =
    let count = if leb 4 (length raw) then get_uint32 raw else 0 in
    let body = if leb 4 (length raw) then drop 4 raw else [] in
    put_uint32 (uint32 (count + 1)) ++ (put_uint32 (uint32 (length elem)) ++ (elem ++ body))

-- RPush. For a payload shorter than its count the buffer is made with len(raw)+4+len(elem) bytes,
-- which is its capacity, and then resliced to 8+len(elem): `none` is the panic of that expression.
unfoldable pub r_push : Bytes → Bytes → Option Bytes
r_push raw elem =
    let count = if leb 4 (length raw) then get_uint32 raw else 0 in
    let capacity = length raw + 4 + length elem in
    if leb 4 (length raw)
    then some (
        put_uint32 (uint32 (count + 1))
        ++ (drop 4 raw ++ (put_uint32 (uint32 (length elem)) ++ elem)))
    else if ltb capacity (4 + 4 + length elem)
    then none
    else some (put_uint32 (uint32 (count + 1)) ++ (put_uint32 (uint32 (length elem)) ++ elem))

-- LPop: the new payload, the element, and whether there was one.
unfoldable pub l_pop : Bytes → Bytes × Bytes × Bool
l_pop raw =
    let count = get_uint32 raw in
    let first_len = get_uint32 (drop 4 raw) in
    let popped = slice raw 8 (8 + first_len) in
    if ltb (length raw) 8
    then (raw, [], false)
    else if count == 0
    then (raw, [], false)
    else if ltb (length raw) (8 + first_len)
    then (raw, [], false)
    else if count == 1
    then ([], popped, true)
    else (put_uint32 (count - 1) ++ drop (8 + first_len) raw, popped, true)

-- The loop of RPop over the rounds left: where the last element starts, and its length.
unfoldable pub r_pop_walk : Bytes → ℕ → ℕ → ℕ → ℕ → Option (ℕ × ℕ)
r_pop_walk raw zero off last_start last_len = some (last_start, last_len)
r_pop_walk raw (suc n) off last_start last_len =
    let len = get_uint32 (drop off raw) in
    let rest = r_pop_walk raw n (off + 4 + len) off len in
    if ltb (length raw) (off + 4)
    then none
    else if ltb (length raw) (off + 4 + len)
    then none
    else rest

-- What RPop returns after the loop.
unfoldable pub r_pop_cut : Bytes → ℕ → Option (ℕ × ℕ) → Bytes × Bytes × Bool
r_pop_cut raw count none = (raw, [], false)
r_pop_cut raw count (some (start, len)) =
    let popped = slice raw (start + 4) (start + 4 + len) in
    if count == 1
    then ([], popped, true)
    else (put_uint32 (count - 1) ++ drop 4 (take start raw), popped, true)

-- RPop
unfoldable pub r_pop : Bytes → Bytes × Bytes × Bool
r_pop raw =
    let count = get_uint32 raw in
    let found = r_pop_walk raw count 4 0 0 in
    if ltb (length raw) 8
    then (raw, [], false)
    else if count == 0
    then (raw, [], false)
    else r_pop_cut raw count found

-- LLen
unfoldable pub l_len : Bytes → ℕ
l_len raw = if ltb (length raw) 4 then 0 else get_uint32 raw

-- One call on the payload of a key, as a client sees it.
pushed : Option Bytes → Reply × Option Bytes
pushed none = (panicked, none)
pushed (some raw) = (stored, some raw)

unfoldable pub call : Bytes → Call → Reply × Option Bytes
unfolding pushed
call raw (Call.l_push e) = (stored, some (l_push raw e))
call raw (Call.r_push e) = pushed (r_push raw e)
call raw Call.l_pop =
    let (left, e, ok) = l_pop raw in (element (if ok then some e else none), some left)
call raw Call.r_pop =
    let (left, e, ok) = r_pop raw in (element (if ok then some e else none), some left)
call raw Call.l_len = (size (l_len raw), some raw)
