-- ===== src/Ds/SetPayload/Truncation.antt =====
-- SAdd of set.go writes the low 16 bits of a member's length.
use horreum.Common.{
  ℕ, ◌+◌, ◌-◌, ◌^◌, ◌<◌, ◌≤◌, ◌≡◌, ◌∙◌, ap, refl, false, none, [], ◌++◌, arith, length, drop,
  length-take, Bool-cases, inl, inr,
}
use horreum.Bytes.{
  Bytes, put_uint16, put_uint32, get_uint16, get_uint32, uint16, slice, bytes_eq, bytes_eq→eq,
  get-put_uint32, get-put_uint16,
}
use horreum.Ds.SetPayload.{find_member, s_add, s_is_member}

-- A slice that is narrower than a member is not that member.
narrow : (raw m : Bytes) (lo hi : ℕ) → hi - lo < length m → bytes_eq (slice raw lo hi) m ≡ false
narrow raw m lo hi h = elim (Bool-cases (bytes_eq (slice raw lo hi) m)) [
  | inl e ↦ absurd (
      omega (
        arith,
        ap length (bytes_eq→eq (slice raw lo hi) m e),
        length-take (hi - lo) (drop lo raw),
        h,
      ))
  | inr e ↦ e
]

one_round : (raw m : Bytes) → get_uint16 (drop 4 raw) < length m → find_member raw m 1 4 ≡ none
unfolding find_member
one_round raw m h = ground (arith, narrow raw m 6 (6 + get_uint16 (drop 4 raw)), h)

-- SAdd on a missing key with a member of 2^16 bytes or more: the payload does not hold it.
pub s_add-too_long : (m : Bytes) → 2 ^ 16 ≤ length m → s_is_member (s_add [] m).0 m ≡ false
unfolding s_add s_is_member
s_add-too_long m h = ground (arith, count, one_round raw m short)
  where
    raw : Bytes
    raw = put_uint32 1 ++ (put_uint16 (uint16 (length m)) ++ m)

    count : get_uint32 raw ≡ 1
    count = get-put_uint32 1 _ (omega arith)

    first : drop 4 raw ≡ put_uint16 (uint16 (length m)) ++ m
    first = unfold put_uint32 in refl

    short : get_uint16 (drop 4 raw) < length m
    short =
        omega (arith, ap get_uint16 first ∙ get-put_uint16 (uint16 (length m)) m (omega arith), h)
