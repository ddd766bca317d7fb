-- ===== src/Ds/HashPayload.antt =====
-- internal/ds/hash.go: a hash as one payload, a 4-byte count and then for each entry the field
-- behind its 2-byte length and the value behind its 4-byte length. The loops stop, or end, where an
-- entry does not fit the payload. HSet overwrites a value of the same length in the caller's slice;
-- the model returns the bytes that the slice then holds.
pub mod Layout
pub mod Lookup
pub mod Delete
pub mod Change
pub mod Refine
pub mod Examples
use horreum.Common.{
  ℕ, zero, suc, ◌+◌, ◌-◌, Bool, true, false, Option, none, some, List, [], ◌∷◌, ◌++◌, ltb, ◌==◌,
  if◌then◌else◌, length, drop, take,
}
use horreum.Bytes.{
  Bytes, uint16, uint32, put_uint16, put_uint32, get_uint16, get_uint32, slice, bytes_eq,
}

-- Where an entry stands: its start, its value's start and its value's length.
pub record Place : Type 0 where
  pub start : ℕ
  pub v_off : ℕ
  pub v_len : ℕ

-- The loop that HSet, HGet and HDel share, over the rounds left.
unfoldable pub find_field : Bytes → Bytes → ℕ → ℕ → Option Place
find_field raw field zero off = none
find_field raw field (suc n) off =
    let flen = get_uint16 (drop off raw) in
    let f_end = off + 2 + flen in
    let f = slice raw (off + 2) f_end in
    let vlen = get_uint32 (drop f_end raw) in
    let v_end = f_end + 4 + vlen in
    let rest = find_field raw field n v_end in
    if ltb (length raw) (off + 2)
    then none
    else if ltb (length raw) f_end
    then none
    else if ltb (length raw) (f_end + 4)
    then none
    else if ltb (length raw) v_end
    then none
    else if bytes_eq f field
    then some (record { start = off; v_off = f_end + 4; v_len = vlen })
    else rest

-- HSet
h_set_found : Bytes → Bytes → Bytes → Option Place → Bytes × Bool
h_set_found raw field value (some p) =
    if p.v_len == length value
    then (take p.v_off raw ++ (value ++ drop (p.v_off + p.v_len) raw), false)
    else (
      take (p.v_off - 4) raw
          ++ (put_uint32 (uint32 (length value)) ++ (value ++ drop (p.v_off + p.v_len) raw)),
      false,
    )
h_set_found raw field value none =
    let count = get_uint32 raw in
    (
      put_uint32 (uint32 (count + 1))
          ++ (drop 4 raw
              ++ (put_uint16 (uint16 (length field))
                  ++ (field ++ (put_uint32 (uint32 (length value)) ++ value)))),
      true,
    )

unfoldable pub h_set : Bytes → Bytes → Bytes → Bytes × Bool
unfolding h_set_found
h_set raw field value =
    let found = find_field raw field (get_uint32 raw) 4 in
    if ltb (length raw) 4
    then (
      put_uint32 1
          ++ (put_uint16 (uint16 (length field))
              ++ (field ++ (put_uint32 (uint32 (length value)) ++ value))),
      true,
    )
    else h_set_found raw field value found

-- HGet
h_get_found : Bytes → Option Place → Option Bytes
h_get_found raw none = none
h_get_found raw (some p) = some (slice raw p.v_off (p.v_off + p.v_len))

unfoldable pub h_get : Bytes → Bytes → Option Bytes
unfolding h_get_found
h_get raw field =
    let found = find_field raw field (get_uint32 raw) 4 in
    if ltb (length raw) 4 then none else h_get_found raw found

-- HDel: without the bytes from the entry's start to its value's start, which is where `endValOff`
-- stands; nil for the last entry.
h_del_found : Bytes → Option Place → Bytes × Bool
h_del_found raw none = (raw, false)
h_del_found raw (some p) =
    let count = get_uint32 raw in
    if count == 1
    then ([], true)
    else (put_uint32 (count - 1) ++ (drop 4 (take p.start raw) ++ drop p.v_off raw), true)

unfoldable pub h_del : Bytes → Bytes → Bytes × Bool
unfolding h_del_found
h_del raw field =
    let found = find_field raw field (get_uint32 raw) 4 in
    if ltb (length raw) 4 then (raw, false) else h_del_found raw found

-- HGetAll; the two slices that it returns, as a list of pairs.
unfoldable pub walk_fields : Bytes → ℕ → ℕ → List (Bytes × Bytes)
walk_fields raw zero off = []
walk_fields raw (suc n) off =
    let flen = get_uint16 (drop off raw) in
    let f_end = off + 2 + flen in
    let f = slice raw (off + 2) f_end in
    let vlen = get_uint32 (drop f_end raw) in
    let v_end = f_end + 4 + vlen in
    let v = slice raw (f_end + 4) v_end in
    let rest = walk_fields raw n v_end in
    if ltb (length raw) (off + 2)
    then []
    else if ltb (length raw) f_end
    then []
    else if ltb (length raw) (f_end + 4)
    then []
    else if ltb (length raw) v_end
    then []
    else (f, v) ∷ rest

unfoldable pub h_get_all : Bytes → List (Bytes × Bytes)
h_get_all raw =
    let entries = walk_fields raw (get_uint32 raw) 4 in if ltb (length raw) 4 then [] else entries
