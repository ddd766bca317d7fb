-- ===== src/Ds/HashPayload/Layout.antt =====
-- The payload that stands for a list of entries, and the walks of hash.go over it.
use horreum.Common.{
  ℕ, ◌+◌, ◌^◌, ◌<◌, ◌≡◌, refl, false, none, some, List, [], ◌∷◌, ◌++◌, arith, length, append_assoc,
  length-append,
}
use horreum.Bytes.{
  Bytes, put_uint16, put_uint32, get_uint16, get_uint32, bytes_eq, bytes_eq_self,
  length-put_uint16_append, length-put_uint32_append,
}
use horreum.Bytes.Window.{At}
use horreum.Bytes.Field.{Field, Field-uint16, Field-uint32}
use horreum.Ds.HashPayload.{find_field, walk_fields}

abbrev pub Entry : Type 0
Entry = Bytes × Bytes

-- [FieldLen:2][Field][ValLen:4][Val]
abbrev pub entry : Bytes → Bytes → Bytes → Bytes
entry f v rest = put_uint16 (length f) ++ (f ++ (put_uint32 (length v) ++ (v ++ rest)))

abbrev pub items : List Entry → Bytes
items [] = []
items ((f, v) ∷ es) = entry f v (items es)

-- [Count:4] and the items; no payload at all for no entry.
abbrev pub encode : List Entry → Bytes
encode [] = []
encode (e ∷ es) = put_uint32 (length (e ∷ es)) ++ items (e ∷ es)

-- The lengths of every field and value fit their widths.
abbrev pub Fits : List Entry → Type 0
Fits [] = Unit
Fits ((f, v) ∷ es) = (length f < 2 ^ 16) × (length v < 2 ^ 32) × Fits es

-- No entry of the list has the field `k`.
abbrev pub Absent : Bytes → List Entry → Type 0
Absent k [] = Unit
Absent k ((f, v) ∷ es) = (bytes_eq f k ≡ false) × Absent k es

pub items-append : (xs ys : List Entry) → items (xs ++ ys) ≡ items xs ++ items ys
items-append [] ys = refl
items-append ((f, v) ∷ xs) ys = simp (items-append xs ys, append_assoc)

-- One entry under the walk.
pub record EntryAt (raw : Bytes) (off : ℕ) (f v rest : Bytes) : Type 0 where
  pub field : Field get_uint16 2 raw off f (put_uint32 (length v) ++ (v ++ rest))
  pub value : Field get_uint32 4 raw (off + 2 + length f) v rest

pub EntryAt-of :
    {raw : Bytes} {off : ℕ} (f v rest : Bytes)
    → length f < 2 ^ 16
    → length v < 2 ^ 32
    → At raw off (entry f v rest)
    → EntryAt raw off f v rest
EntryAt-of {raw} {off} f v rest hf hv w = record {
  field = first;
  value = Field-uint32 v rest hv first.next;
}
  where
    first : Field get_uint16 2 raw off f (put_uint32 (length v) ++ (v ++ rest))
    first = Field-uint16 f (put_uint32 (length v) ++ (v ++ rest)) hf w

pub length-entry :
    (f v rest : Bytes) → length (entry f v rest) ≡ 2 + length f + 4 + length v + length rest
length-entry f v rest = omega (
  arith,
  length-put_uint16_append (length f) (f ++ (put_uint32 (length v) ++ (v ++ rest))),
  length-append f (put_uint32 (length v) ++ (v ++ rest)),
  length-put_uint32_append (length v) (v ++ rest),
  length-append v rest,
)

-- The loop of HGetAll collects the entries.
pub walk_fields-items :
    (raw : Bytes) (es : List Entry) (off : ℕ)
    → Fits es
    → At raw off (items es)
    → walk_fields raw (length es) off ≡ es
unfolding walk_fields
walk_fields-items raw [] off h w = refl
walk_fields-items raw ((f, v) ∷ es) off h w = ground (
  arith,
  e.field,
  e.value,
  walk_fields-items raw es (off + 2 + length f + 4 + length v) h.2 e.value.next,
)
  where
    e : EntryAt raw off f v (items es)
    e = EntryAt-of f v (items es) h.0 h.1 w

-- The walk finds the first entry with the field, behind the entries `xs`.
pub find_field-present :
    (raw : Bytes) (xs : List Entry) (k v : Bytes) (ys : List Entry) (off : ℕ)
    → Fits (xs ++ (k, v) ∷ ys)
    → Absent k xs
    → At raw off (items (xs ++ (k, v) ∷ ys))
    → find_field raw k (length (xs ++ (k, v) ∷ ys)) off
      ≡ some (record {
        start = off + length (items xs);
        v_off = off + length (items xs) + 2 + length k + 4;
        v_len = length v;
      })
unfolding find_field
find_field-present raw [] k v ys off h a w = ground (arith, e.field, e.value, bytes_eq_self k)
  where
    e : EntryAt raw off k v (items ys)
    e = EntryAt-of k v (items ys) h.0 h.1 w
find_field-present raw ((f, u) ∷ xs) k v ys off h a w = ground (
  arith,
  e.field,
  e.value,
  a,
  length-entry f u (items xs),
  find_field-present raw xs k v ys (off + 2 + length f + 4 + length u) h.2 a.1 e.value.next,
)
  where
    e : EntryAt raw off f u (items (xs ++ (k, v) ∷ ys))
    e = EntryAt-of f u (items (xs ++ (k, v) ∷ ys)) h.0 h.1 w

-- The walk does not find what is not there.
pub find_field-Absent :
    (raw : Bytes) (xs : List Entry) (k : Bytes) (off : ℕ)
    → Fits xs
    → Absent k xs
    → At raw off (items xs)
    → find_field raw k (length xs) off ≡ none
unfolding find_field
find_field-Absent raw [] k off h a w = refl
find_field-Absent raw ((f, u) ∷ xs) k off h a w = ground (
  arith,
  e.field,
  e.value,
  a,
  find_field-Absent raw xs k (off + 2 + length f + 4 + length u) h.2 a.1 e.value.next,
)
  where
    e : EntryAt raw off f u (items xs)
    e = EntryAt-of f u (items xs) h.0 h.1 w
