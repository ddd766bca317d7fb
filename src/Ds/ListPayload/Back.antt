-- ===== src/Ds/ListPayload/Back.antt =====
-- RPop of list.go on the payload of a list: the walk to the last element, and the cut.
use horreum.Common.{
  ℕ, suc, ◌+◌, ◌^◌, ◌≤◌, ◌<◌, ◌≡◌, refl, true, some, List, [], ◌∷◌, ◌++◌, arith, length,
  length-append,
}
use horreum.Bytes.{Bytes, put_uint32, get_uint32, get-put_uint32, length-put_uint32_append}
use horreum.Bytes.Window.{At}
use horreum.Bytes.Field.{cut_header, At_body, Field, Field-uint32, At_header}
use horreum.Ds.ListPayload.{r_pop_walk, r_pop_cut, r_pop}
use horreum.Ds.ListPayload.Layout.{items, encode, Fits, items-append}

-- The loop of RPop, from an offset in front of the items of `xs` and `x`, finds `x`.
r_pop_walk-items :
    (raw : Bytes) (xs : List Bytes) (x : Bytes) (off start len : ℕ)
    → Fits xs
    → length x < 2 ^ 32
    → At raw off (items (xs ++ x ∷ []))
    → r_pop_walk raw (suc (length xs)) off start len ≡ some (off + length (items xs), length x)
unfolding r_pop_walk
r_pop_walk-items raw [] x off start len h hx w = ground (arith, last)
  where
    last : Field get_uint32 4 raw off x []
    last = Field-uint32 x [] hx w
r_pop_walk-items raw (y ∷ ys) x off start len h hx w = ground (
  arith,
  first,
  r_pop_walk-items raw ys x (off + 4 + length y) off (length y) h.1 hx first.next,
  length-put_uint32_append (length y) (y ++ items ys),
  length-append y (items ys),
)
  where
    first : Field get_uint32 4 raw off y (items (ys ++ x ∷ []))
    first = Field-uint32 y (items (ys ++ x ∷ [])) h.0 w

encode_snoc :
    (xs : List Bytes) (x : Bytes)
    → encode (xs ++ x ∷ []) ≡ put_uint32 (length xs + 1) ++ (items xs ++ items (x ∷ []))
encode_snoc [] x = refl
encode_snoc (y ∷ ys) x = ground (arith, items-append (y ∷ ys) (x ∷ []), length-append ys (x ∷ []))

-- What RPop cuts off at the place that its loop has found.
r_pop_cut-items :
    (xs : List Bytes) (x : Bytes)
    → length x < 2 ^ 32
    → r_pop_cut
        (put_uint32 (length xs + 1) ++ (items xs ++ items (x ∷ [])))
        (length xs + 1)
        (some (4 + length (items xs), length x))
      ≡ (encode xs, x, true)
unfolding r_pop_cut
r_pop_cut-items [] x hx = ground (arith, last.value)
  where
    last : Field get_uint32 4 (put_uint32 1 ++ items (x ∷ [])) 4 x []
    last = Field-uint32 x [] hx (At_body 1 [] (items (x ∷ [])))
r_pop_cut-items (y ∷ ys) x hx =
    ground (arith, last.value, cut_header (length (y ∷ ys) + 1) (items (y ∷ ys)) (items (x ∷ [])))
  where
    last :
        Field get_uint32 4
          (put_uint32 (length (y ∷ ys) + 1) ++ (items (y ∷ ys) ++ items (x ∷ [])))
          (4 + length (items (y ∷ ys)))
          x
          []
    last = Field-uint32 x [] hx (At_body (length (y ∷ ys) + 1) (items (y ∷ ys)) (items (x ∷ [])))

-- RPop takes the element at the back; the last one leaves no payload.
pub r_pop-encode :
    (xs : List Bytes) (x : Bytes)
    → length xs + 1 < 2 ^ 32
    → Fits xs
    → length x < 2 ^ 32
    → r_pop (encode (xs ++ x ∷ [])) ≡ (encode xs, x, true)
unfolding r_pop
r_pop-encode xs x n h hx = rw (encode_snoc xs x) (
    ground
      (arith, count, long, r_pop_cut-items xs x hx, r_pop_walk-items raw xs x 4 0 0 h hx whole))
  where
    raw : Bytes
    raw = put_uint32 (length xs + 1) ++ (items xs ++ items (x ∷ []))

    count : get_uint32 raw ≡ suc (length xs)
    count = omega (arith, get-put_uint32 (length xs + 1) (items xs ++ items (x ∷ [])) n)

    long : 8 ≤ length raw
    long = omega (
      arith,
      length-put_uint32_append (length xs + 1) (items xs ++ items (x ∷ [])),
      length-append (items xs) (items (x ∷ [])),
      length-put_uint32_append (length x) (x ++ []),
    )

    whole : At raw 4 (items (xs ++ x ∷ []))
    whole = rw (items-append xs (x ∷ [])) (At_header (length xs + 1) (items xs ++ items (x ∷ [])))
