-- ===== src/Bytes/Window.antt =====
-- Positions in a byte slice: what a walk with an offset has still in front of it.
use horreum.Common.{
  ℕ, zero, suc, ◌+◌, ◌-◌, ◌≤◌, ◌≡◌, refl, sym, ◌∙◌, ap, List, [], ◌∷◌, ◌++◌, arith, length, take,
  drop, length-append, length-drop, take-append-drop,
}
use horreum.Bytes.{Bytes, slice, byte, get_uint16, get_uint32}

module _ {ℓ} {A : Type ℓ} where
  pub drop-append : (xs ys : List A) → drop (length xs) (xs ++ ys) ≡ ys
  drop-append [] ys = refl
  drop-append (x ∷ xs) ys = drop-append xs ys

  pub take-append : (xs ys : List A) → take (length xs) (xs ++ ys) ≡ xs
  take-append [] ys = refl
  take-append (x ∷ xs) ys = ap (λ l. x ∷ l) (take-append xs ys)

  drop-nil : (n : ℕ) → drop {A = A} n [] ≡ []
  drop-nil zero = refl
  drop-nil (suc n) = refl

  pub drop-drop : (m n : ℕ) (xs : List A) → drop n (drop m xs) ≡ drop (m + n) xs
  drop-drop zero n xs = let shift : n ≡ zero + n = omega arith in ap (λ k. drop k xs) shift
  drop-drop (suc m) n [] = drop-nil n ∙ sym (drop-nil (suc m + n))
  drop-drop (suc m) n (x ∷ xs) =
      let shift : suc (m + n) ≡ suc m + n = omega arith in
      drop-drop m n xs ∙ ap (λ k. drop k (x ∷ xs)) shift

  pub take_all : (xs : List A) → take (length xs) xs ≡ xs
  take_all [] = refl
  take_all (x ∷ xs) = ap (λ l. x ∷ l) (take_all xs)

  pub drop_all : (xs : List A) → drop (length xs) xs ≡ []
  drop_all [] = refl
  drop_all (x ∷ xs) = drop_all xs

-- `off` is an offset inside `raw`, and raw[off:] is `rest`.
pub record At (raw : Bytes) (off : ℕ) (rest : Bytes) : Type 0 where
  pub inside : off ≤ length raw
  pub here : drop off raw ≡ rest

pub At-start : (raw : Bytes) → At raw 0 raw
At-start raw = record { inside = omega arith; here = refl }

pub At_append : (before rest : Bytes) → At (before ++ rest) (length before) rest
At_append before rest = record {
  inside = omega (arith, length-append before rest);
  here = drop-append before rest;
}

module _ {raw : Bytes} {off : ℕ} where
  pub At-length : {rest : Bytes} → At raw off rest → length raw ≡ off + length rest
  At-length {rest} w = omega (arith, w.inside, length-drop off raw, ap length w.here)

  pub At-slice :
      (part rest : Bytes) → At raw off (part ++ rest) → slice raw off (off + length part) ≡ part
  At-slice part rest w = lemma
    where
      width : off + length part - off ≡ length part
      width = omega arith

      lemma : slice raw off (off + length part) ≡ part
      lemma =
          ap (λ n. take n (drop off raw)) width
          ∙ ap (take (length part)) w.here
          ∙ take-append part rest

  pub At-skip : (part rest : Bytes) → At raw off (part ++ rest) → At raw (off + length part) rest
  At-skip part rest w = record {
    inside = omega (arith, At-length w, length-append part rest);
    here =
        sym (drop-drop off (length part) raw)
        ∙ ap (drop (length part)) w.here
        ∙ drop-append part rest;
  }

  pub At-split : {rest : Bytes} → At raw off rest → take off raw ++ rest ≡ raw
  At-split {rest} w = ap (λ l. take off raw ++ l) (sym w.here) ∙ take-append-drop off raw

module _ {ℓ} {A : Type ℓ} where
  pub drop-append_le :
      (n : ℕ) (xs ys : List A) → n ≤ length xs → drop n (xs ++ ys) ≡ drop n xs ++ ys
  drop-append_le zero xs ys h = refl
  drop-append_le (suc n) [] ys h = absurd (omega arith)
  drop-append_le (suc n) (x ∷ xs) ys h = drop-append_le n xs ys (omega arith)

  pub take-append_le : (n : ℕ) (xs ys : List A) → n ≤ length xs → take n (xs ++ ys) ≡ take n xs
  take-append_le zero xs ys h = refl
  take-append_le (suc n) [] ys h = absurd (omega arith)
  take-append_le (suc n) (x ∷ xs) ys h = ap (λ l. x ∷ l) (take-append_le n xs ys (omega arith))

-- What stands behind `hi` does not show in raw[lo:hi].
pub slice-append :
    (lo hi : ℕ) (xs ys : Bytes) → lo ≤ hi → hi ≤ length xs → slice (xs ++ ys) lo hi ≡ slice xs lo hi
slice-append lo hi xs ys h k =
    ap (take (hi - lo)) (drop-append_le lo xs ys (omega arith))
    ∙ take-append_le (hi - lo) (drop lo xs) ys (omega (arith, length-drop lo xs))

-- A word read inside a slice does not change when bytes follow the slice.
pub get_uint16-append : (xs ys : Bytes) → 2 ≤ length xs → get_uint16 (xs ++ ys) ≡ get_uint16 xs
unfolding get_uint16
get_uint16-append [] ys h = absurd (omega arith)
get_uint16-append (a ∷ []) ys h = absurd (omega arith)
get_uint16-append (a ∷ b ∷ xs) ys h = refl

pub get_uint32-append : (xs ys : Bytes) → 4 ≤ length xs → get_uint32 (xs ++ ys) ≡ get_uint32 xs
unfolding get_uint32
get_uint32-append [] ys h = absurd (omega arith)
get_uint32-append (a ∷ []) ys h = absurd (omega arith)
get_uint32-append (a ∷ b ∷ []) ys h = absurd (omega arith)
get_uint32-append (a ∷ b ∷ c ∷ []) ys h = absurd (omega arith)
get_uint32-append (a ∷ b ∷ c ∷ d ∷ xs) ys h = refl

pub byte-append : (xs ys : Bytes) → 1 ≤ length xs → byte (xs ++ ys) ≡ byte xs
unfolding byte
byte-append [] ys h = absurd (omega arith)
byte-append (a ∷ xs) ys h = refl
