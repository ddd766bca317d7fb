-- ===== src/Ds/SetPayload/Layout.antt =====
-- The payload that stands for a list of members, and the walks of set.go over it.
use horreum.Common.{
  ℕ, ◌+◌, ◌^◌, ◌<◌, ◌≡◌, refl, false, none, some, List, [], ◌∷◌, ◌++◌, arith, length, append_assoc,
  length-append,
}
use horreum.Bytes.{
  Bytes, put_uint16, put_uint32, get_uint16, bytes_eq, bytes_eq_self, length-put_uint16_append,
}
use horreum.Bytes.Window.{At}
use horreum.Bytes.Field.{Field, Field-uint16}
use horreum.Ds.SetPayload.{find_member, walk_members}

-- [MemberLen:2][Member] for each member.
abbrev pub items : List Bytes → Bytes
items [] = []
items (m ∷ ms) = put_uint16 (length m) ++ (m ++ items ms)

-- [Count:4] and the items; no payload at all for no member.
abbrev pub encode : List Bytes → Bytes
encode [] = []
encode (m ∷ ms) = put_uint32 (length (m ∷ ms)) ++ items (m ∷ ms)

-- Every member's length fits its 2-byte field.
abbrev pub Fits : List Bytes → Type 0
Fits [] = Unit
Fits (m ∷ ms) = (length m < 2 ^ 16) × Fits ms

-- No member of the list equals `m`.
abbrev pub Absent : Bytes → List Bytes → Type 0
Absent m [] = Unit
Absent m (x ∷ xs) = (bytes_eq x m ≡ false) × Absent m xs

pub items-append : (xs ys : List Bytes) → items (xs ++ ys) ≡ items xs ++ items ys
items-append [] ys = refl
items-append (x ∷ xs) ys = simp (items-append xs ys, append_assoc)

-- The loop of SMembers collects the members.
pub walk_members-items :
    (raw : Bytes) (ms : List Bytes) (off : ℕ)
    → Fits ms
    → At raw off (items ms)
    → walk_members raw (length ms) off ≡ ms
unfolding walk_members
walk_members-items raw [] off h w = refl
walk_members-items raw (m ∷ ms) off h w =
    ground (arith, first, walk_members-items raw ms (off + 2 + length m) h.1 first.next)
  where
    first : Field get_uint16 2 raw off m (items ms)
    first = Field-uint16 m (items ms) h.0 w

-- Where the walk finds a member of the list `xs ++ m ∷ ys` that is not in `xs`.
pub find_member-present :
    (raw : Bytes) (xs : List Bytes) (m : Bytes) (ys : List Bytes) (off : ℕ)
    → Fits (xs ++ m ∷ ys)
    → Absent m xs
    → At raw off (items (xs ++ m ∷ ys))
    → find_member raw m (length (xs ++ m ∷ ys)) off
      ≡ some (off + length (items xs), off + length (items xs) + 2 + length m)
unfolding find_member
find_member-present raw [] m ys off h a w = ground (arith, first, bytes_eq_self m)
  where
    first : Field get_uint16 2 raw off m (items ys)
    first = Field-uint16 m (items ys) h.0 w
find_member-present raw (x ∷ xs) m ys off h a w = ground (
  arith,
  first,
  a,
  length-put_uint16_append (length x) (x ++ items xs),
  length-append x (items xs),
  find_member-present raw xs m ys (off + 2 + length x) h.1 a.1 first.next,
)
  where
    first : Field get_uint16 2 raw off x (items (xs ++ m ∷ ys))
    first = Field-uint16 x (items (xs ++ m ∷ ys)) h.0 w

-- The walk does not find what is not there.
pub find_member-Absent :
    (raw : Bytes) (xs : List Bytes) (m : Bytes) (off : ℕ)
    → Fits xs
    → Absent m xs
    → At raw off (items xs)
    → find_member raw m (length xs) off ≡ none
unfolding find_member
find_member-Absent raw [] m off h a w = refl
find_member-Absent raw (x ∷ xs) m off h a w =
    ground (arith, first, a, find_member-Absent raw xs m (off + 2 + length x) h.1 a.1 first.next)
  where
    first : Field get_uint16 2 raw off x (items xs)
    first = Field-uint16 x (items xs) h.0 w
