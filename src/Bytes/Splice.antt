-- ===== src/Bytes/Splice.antt =====
-- A part of a byte slice that a `copy` overwrites, and the parts beside it.
use horreum.Common.{
  ℕ, ◌+◌, ◌-◌, ◌≤◌, ◌≡◌, refl, sym, ◌∙◌, ap, ◌++◌, append_assoc, arith, length, take, drop,
  length-append, length-take, length-drop, take-append-drop,
}
use horreum.Bytes.{Bytes}
use horreum.Bytes.Window.{drop-append, take-append, drop-drop, drop-append_le, take-append_le}

-- The slice after the copy.
abbrev pub spliced : ℕ → Bytes → Bytes → Bytes
spliced off v d = take off d ++ (v ++ drop (off + length v) d)

part-append :
    (o l : ℕ) (xs ys : Bytes) → o + l ≤ length xs → take l (drop o (xs ++ ys)) ≡ take l (drop o xs)
part-append o l xs ys h =
    ap (take l) (drop-append_le o xs ys (omega (arith, h)))
    ∙ take-append_le l (drop o xs) ys (omega (arith, h, length-drop o xs))

drop-past :
    (o m : ℕ) (xs ys zs : Bytes)
    → length xs ≡ m
    → m ≤ o
    → drop m zs ≡ ys
    → drop o (xs ++ ys) ≡ drop o zs
drop-past o m xs ys zs e h same =
    ap (λ k. drop k (xs ++ ys)) split
    ∙ sym (drop-drop m (o - m) (xs ++ ys))
    ∙ ap (drop (o - m)) (ap (λ k. drop k (xs ++ ys)) (sym e) ∙ drop-append xs ys ∙ sym same)
    ∙ drop-drop m (o - m) zs
    ∙ ap (λ k. drop k zs) (sym split)
  where
    split : o ≡ m + (o - m)
    split = omega (arith, h)

module _ (off : ℕ) (v d : Bytes) (fits : off + length v ≤ length d) where
  width : length (take off d) ≡ off
  width = omega (arith, length-take off d, fits)

  pub length-spliced : length (spliced off v d) ≡ length d
  length-spliced = omega (
    arith,
    fits,
    width,
    length-append (take off d) (v ++ drop (off + length v) d),
    length-append v (drop (off + length v) d),
    length-drop (off + length v) d,
  )

  -- The part itself, a part in front of it, and a part behind it.
  pub spliced_here : take (length v) (drop off (spliced off v d)) ≡ v
  spliced_here =
      ap (take (length v)) (
        ap (λ k. drop k (spliced off v d)) (sym width)
        ∙ drop-append (take off d) (v ++ drop (off + length v) d))
      ∙ take-append v (drop (off + length v) d)

  pub spliced_before :
      (o l : ℕ) → o + l ≤ off → take l (drop o (spliced off v d)) ≡ take l (drop o d)
  spliced_before o l h =
      part-append o l (take off d) (v ++ drop (off + length v) d) (omega (arith, h, width))
      ∙ sym (part-append o l (take off d) (drop off d) (omega (arith, h, width)))
      ∙ ap (λ x. take l (drop o x)) (take-append-drop off d)

  pub spliced_after :
      (o l : ℕ) → off + length v ≤ o → take l (drop o (spliced off v d)) ≡ take l (drop o d)
  spliced_after o l h =
      ap (λ x. take l (drop o x)) (sym (append_assoc (take off d) v (drop (off + length v) d)))
      ∙ ap (take l) (
          drop-past o (off + length v) (take off d ++ v) (drop (off + length v) d) d
            (omega (arith, width, length-append (take off d) v)) h refl)
