-- ===== src/Bytes/Field.antt =====
-- A part of a slice behind its own length, as the payloads of internal/ds and SCAN replies hold it.
use horreum.Common.{
  take, append_assoc, ℕ, ◌+◌, ◌^◌, ◌≤◌, ◌<◌, ◌≡◌, ◌∙◌, ap, ◌++◌, arith, length, drop, subst,
  length-append,
}
use horreum.Bytes.{
  length-put_uint32_append, drop-put_uint32, Bytes, slice, put_uint16, put_uint32, get_uint16,
  get_uint32, get-put_uint16, get-put_uint32, length-put_uint16, length-put_uint32,
}
use horreum.Bytes.Window.{At, take-append, At_append, At-length, At-slice, At-skip}

-- Behind the 4-byte count of a payload.
pub At_header : (n : ℕ) (rest : Bytes) → At (put_uint32 n ++ rest) 4 rest
At_header n rest =
    subst (λ k. At (put_uint32 n ++ rest) k rest) (length-put_uint32 n)
      (At_append (put_uint32 n) rest)

-- A payload cut behind its count and a part of its body.
module _ (n : ℕ) (body rest : Bytes) where
  pub cut_header : drop 4 (take (4 + length body) (put_uint32 n ++ (body ++ rest))) ≡ body
  cut_header =
      rw (← append_assoc (put_uint32 n) body rest, ← width, take-append) (drop-put_uint32 n body)
    where
      width : length (put_uint32 n ++ body) ≡ 4 + length body
      width = omega (arith, length-put_uint32_append n body)

  pub At_body : At (put_uint32 n ++ (body ++ rest)) (4 + length body) rest
  At_body = At-skip body rest (At_header n (body ++ rest))

-- At `off` stand `width` bytes that `get` reads as the length of `part`, `part`, and `rest`.
pub record Field (get : Bytes → ℕ) (width : ℕ) (raw : Bytes) (off : ℕ) (part rest : Bytes)
    : Type 0 where
  pub len : get (drop off raw) ≡ length part
  pub fits : off + width + length part ≤ length raw
  pub value : slice raw (off + width) (off + width + length part) ≡ part
  pub next : At raw (off + width + length part) rest

module _ {raw : Bytes} {off : ℕ} where
  module _ (get : Bytes → ℕ) (width : ℕ) (word part rest : Bytes) where
    Field-of_word :
        length word ≡ width
        → get (word ++ (part ++ rest)) ≡ length part
        → At raw off (word ++ (part ++ rest))
        → Field get width raw off part rest
    Field-of_word e g w = record {
      len = ap get w.here ∙ g;
      fits = omega (arith, At-length behind, length-append part rest);
      value = At-slice part rest behind;
      next = At-skip part rest behind;
    }
      where
        behind : At raw (off + width) (part ++ rest)
        behind = subst (λ k. At raw (off + k) (part ++ rest)) e (At-skip word (part ++ rest) w)

  pub Field-uint16 :
      (part rest : Bytes)
      → length part < 2 ^ 16
      → At raw off (put_uint16 (length part) ++ (part ++ rest))
      → Field get_uint16 2 raw off part rest
  Field-uint16 part rest h w =
      Field-of_word get_uint16 2 (put_uint16 (length part)) part rest
        (length-put_uint16 (length part)) (get-put_uint16 (length part) (part ++ rest) h) w

  pub Field-uint32 :
      (part rest : Bytes)
      → length part < 2 ^ 32
      → At raw off (put_uint32 (length part) ++ (part ++ rest))
      → Field get_uint32 4 raw off part rest
  Field-uint32 part rest h w =
      Field-of_word get_uint32 4 (put_uint32 (length part)) part rest
        (length-put_uint32 (length part)) (get-put_uint32 (length part) (part ++ rest) h) w
