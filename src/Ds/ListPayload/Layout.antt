-- ===== src/Ds/ListPayload/Layout.antt =====
-- The payload that stands for a list of elements, and what the operations of list.go make of it.
use horreum.Common.{
  ◌+◌, ◌^◌, ◌<◌, ◌≡◌, refl, true, none, ◌↔◌, some, List, [], ◌∷◌, ◌++◌, arith, length, append_assoc,
  append-nil, length-append,
}
use horreum.Bytes.{
  Bytes, put_uint32, get_uint32, get-put_uint32, put_uint32_wrap, drop-put_uint32,
  length-put_uint32_append,
}
use horreum.Bytes.Window.{At}
use horreum.Bytes.Field.{At_header}
use horreum.Bytes.Field.{Field, Field-uint32}
use horreum.Ds.ListPayload.{l_push, r_push, l_pop, l_len}

-- [ElemLen:4][Elem] for each element.
abbrev pub items : List Bytes → Bytes
items [] = []
items (e ∷ es) = put_uint32 (length e) ++ (e ++ items es)

-- [Count:4] and the items; no payload at all for no element.
abbrev pub encode : List Bytes → Bytes
encode [] = []
encode (e ∷ es) = put_uint32 (length (e ∷ es)) ++ items (e ∷ es)

-- Every element's length fits its 4-byte field.
abbrev pub Fits : List Bytes → Type 0
Fits [] = Unit
Fits (e ∷ es) = (length e < 2 ^ 32) × Fits es

pub items-append : (xs ys : List Bytes) → items (xs ++ ys) ≡ items xs ++ items ys
items-append [] ys = refl
items-append (x ∷ xs) ys = simp (items-append xs ys, append_assoc)

-- LPush puts the element in front.
pub l_push-encode :
    (xs : List Bytes) (e : Bytes) → length xs < 2 ^ 32 → l_push (encode xs) e ≡ encode (e ∷ xs)
unfolding l_push
l_push-encode [] e h = rw (put_uint32_wrap (length e)) refl
l_push-encode (x ∷ xs) e h = ground (
  arith,
  get-put_uint32 (length (x ∷ xs)) (items (x ∷ xs)),
  drop-put_uint32 (length (x ∷ xs)) (items (x ∷ xs)),
  length-put_uint32_append (length (x ∷ xs)) (items (x ∷ xs)),
  put_uint32_wrap (length xs + 2),
  put_uint32_wrap (length e),
)

-- RPush puts the element at the back of a list that has one already.
pub r_push-encode :
    (x : Bytes) (xs : List Bytes) (e : Bytes)
    → length (x ∷ xs) < 2 ^ 32
    → r_push (encode (x ∷ xs)) e ≡ some (encode ((x ∷ xs) ++ (e ∷ [])))
unfolding r_push
r_push-encode x xs e h = ground (
  arith,
  get-put_uint32 (length (x ∷ xs)) (items (x ∷ xs)),
  drop-put_uint32 (length (x ∷ xs)) (items (x ∷ xs)),
  length-put_uint32_append (length (x ∷ xs)) (items (x ∷ xs)),
  put_uint32_wrap (length xs + 2),
  put_uint32_wrap (length e),
  length-append xs (e ∷ []),
  items-append (x ∷ xs) (e ∷ []),
  append-nil e,
)

-- LPop takes the element in front; the last one leaves no payload.
pub l_pop-encode :
    (x : Bytes) (xs : List Bytes)
    → length (x ∷ xs) < 2 ^ 32
    → length x < 2 ^ 32
    → l_pop (encode (x ∷ xs)) ≡ (encode xs, x, true)
unfolding l_pop
l_pop-encode x xs h hx =
    ground (arith, get-put_uint32 (length (x ∷ xs)) (items (x ∷ xs)), front, front.next, last xs)
  where
    header : At (encode (x ∷ xs)) 4 (items (x ∷ xs))
    header = At_header (length (x ∷ xs)) (items (x ∷ xs))

    front : Field get_uint32 4 (encode (x ∷ xs)) 4 x (items xs)
    front = Field-uint32 x (items xs) hx header

    last : (ys : List Bytes) → length ys ≡ 0 → encode ys ≡ []
    last [] e = refl
    last (y ∷ ys) e = absurd (omega arith)

-- LLen reads the number of elements.
pub l_len-encode :
    (x : Bytes) (xs : List Bytes)
    → length (x ∷ xs) < 2 ^ 32
    → l_len (encode (x ∷ xs)) ≡ length (x ∷ xs)
unfolding l_len
l_len-encode x xs h = ground (
  arith,
  get-put_uint32 (length (x ∷ xs)) (items (x ∷ xs)),
  length-put_uint32_append (length (x ∷ xs)) (items (x ∷ xs)),
)

-- RPush panics exactly on a payload that is shorter than its count, so also on a missing key.
pub r_push-panics : (raw e : Bytes) → (r_push raw e ≡ none) ↔ (length raw < 4)
unfolding r_push
r_push-panics raw e = ground arith
