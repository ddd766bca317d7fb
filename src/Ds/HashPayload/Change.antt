-- ===== src/Ds/HashPayload/Change.antt =====
-- HGet, HSet, HDel and HGetAll of hash.go on the payload of a list of entries.
use horreum.Common.{
  ℕ, ◌+◌, ◌^◌, ◌<◌, ◌≡◌, ◌≢◌, ◌⊎◌, inl, inr, refl, sym, ◌∙◌, ap, Bool, true, false, Option, none,
  some, List, [], ◌∷◌, ◌++◌, arith, length, subst, append_assoc, append-nil, length-append,
  if◌then◌else◌, Bool-cases, ◌==◌,
}
use horreum.Bytes.{Bytes, put_uint16, put_uint32, put_uint32_wrap, put_uint16_wrap, drop-put_uint32}
use horreum.Ds.HashPayload.{h_set_found, h_get, h_set, h_del, h_get_all}
use horreum.Ds.HashPayload.Delete.{h_del-keeps_value}
use horreum.Ds.HashPayload.Layout.{Entry, items, encode, Fits, items-append, walk_fields-items}
use horreum.Ds.HashPayload.Lookup.{
  get, set, remove, Found, find_in, Whole, Whole_cons, find-Found, find-Missing, Fits-mid, Parts,
  Parts-of,
}

encode-of_count :
    (n : ℕ) (l : List Entry) → length l ≡ n → n ≢ 0 → put_uint32 n ++ items l ≡ encode l
encode-of_count n [] e h = absurd (h (omega arith))
encode-of_count n (x ∷ xs) e h = ap (λ k. put_uint32 k ++ items (x ∷ xs)) (omega arith)

encode_nil : (l : List Entry) → length l ≡ 0 → encode l ≡ []
encode_nil [] e = refl
encode_nil (x ∷ xs) e = absurd (omega arith)

glue :
    (a b c d e f : Bytes) → (a ++ (b ++ (c ++ (d ++ e)))) ++ f ≡ a ++ (b ++ (c ++ (d ++ (e ++ f))))
glue a b c d e f = simp append_assoc

glue' :
    (a b c d e f : Bytes) → (a ++ (b ++ (c ++ d))) ++ (e ++ f) ≡ a ++ (b ++ (c ++ (d ++ (e ++ f))))
glue' a b c d e f = simp append_assoc

-- A flag for a new field.
abbrev pub is_none {ℓ} : {A : Type ℓ} → Option A → Bool
is_none none = true
is_none (some a) = false

-- No value, or an empty one.
abbrev pub Hollow : Option Bytes → Type 0
Hollow none = Unit
Hollow (some v) = v ≡ []

module _ (k : Bytes) (x : Entry) (xs : List Entry) (fits : Fits (x ∷ xs))
    (small : length (x ∷ xs) < 2 ^ 32) where
  abbrev l : List Entry
  l = x ∷ xs

  w : Whole l
  w = Whole_cons x xs small

  parts : (f : Found k l) → Parts (length l) f.before k f.value f.after (encode l)
  parts f =
      let (hk, hv) = Fits-mid f.before k f.value f.after (subst Fits f.whole fits) in
      Parts-of (length l) f.before k f.value f.after l f.whole hk hv

  pub h_get-cons : h_get (encode l) k ≡ get k l
  unfolding h_get
  h_get-cons = elim (find_in k l) [
    | inl f ↦ rw f.got (ground (arith, w.count, w.long, find-Found k l fits w f, (parts f).value))
    | inr f ↦ rw f.got (ground (arith, w.count, w.long, find-Missing k l fits w f))
  ]

  pub h_get_all-cons : h_get_all (encode l) ≡ l
  unfolding h_get_all
  h_get_all-cons = ground (arith, w.count, w.long, walk_fields-items (encode l) l 4 fits w.body)

  h_del-Found :
      (f : Found k l)
      → (f.value ≡ []) ⊎ (length xs ≡ 0)
      → h_del (encode l) k ≡ (encode (f.before ++ f.after), true)
  unfolding h_del
  h_del-Found f side = elim (Bool-cases (length xs == 0)) [
    | inl one ↦ ground (
      arith,
      w.count,
      w.long,
      find-Found k l fits w f,
      ap length f.whole,
      length-append f.before ((k, f.value) ∷ f.after),
      length-append f.before f.after,
      encode_nil (f.before ++ f.after),
    )
    | inr more ↦
        let n = length f.before + length f.after in
        let width : length xs ≡ n =
          omega (arith, ap length f.whole, length-append f.before ((k, f.value) ∷ f.after)) in
        let kept =
          h_del-keeps_value f.before k f.value f.after (subst Fits f.whole fits) f.first
            (subst (λ j. length j < 2 ^ 32) f.whole small) (ground (arith, more, width)) in
        let bytes : put_uint32 n ++ (items f.before ++ (f.value ++ items f.after))
            ≡ encode (f.before ++ f.after) =
          rw (hollow more side) (
            ap (λ i. put_uint32 n ++ i) (sym (items-append f.before f.after))
            ∙ encode-of_count n (f.before ++ f.after) (length-append f.before f.after)
                (ground (arith, more, width))) in
        ap (λ j. h_del (encode j) k) f.whole ∙ kept ∙ ap (λ b. (b, true)) bytes
  ]
    where
      hollow : (length xs == 0) ≡ false → (f.value ≡ []) ⊎ (length xs ≡ 0) → f.value ≡ []
      hollow more (inl v) = v
      hollow more (inr one) = absurd (ground (arith, more, one))

  -- A field that is absent, whose value is empty, or whose entry is the only one.
  pub h_del-cons :
      Hollow (get k l) ⊎ (length xs ≡ 0)
      → h_del (encode l) k ≡ (encode (remove k l), if is_none (get k l) then false else true)
  h_del-cons side = elim (find_in k l) [
    | inl f ↦
        rw (f.got, f.rest)
          (h_del-Found f (elim side [ inl v ↦ inl (subst Hollow f.got v) | inr one ↦ inr one ]))
    | inr f ↦
        unfold h_del in
        rw (f.got, f.rest) (ground (arith, w.count, w.long, find-Missing k l fits w f))
  ]

  -- The bytes that HSet puts together around the new value.
  rebuilt :
      (v : Bytes) (f : Found k l)
      → put_uint32 (length l)
          ++ (items f.before
              ++ (put_uint16 (length k) ++ (k ++ (put_uint32 (length v) ++ (v ++ items f.after)))))
        ≡ encode (set k v l)
  rebuilt v f =
      ap (λ i. put_uint32 (length l) ++ i) (sym (items-append f.before ((k, v) ∷ f.after)))
      ∙ encode-of_count (length l) (f.before ++ (k, v) ∷ f.after) width (omega arith)
      ∙ ap encode (sym (f.changed v))
    where
      width : length (f.before ++ (k, v) ∷ f.after) ≡ length l
      width = omega (
        arith,
        ap length f.whole,
        length-append f.before ((k, v) ∷ f.after),
        length-append f.before ((k, f.value) ∷ f.after),
      )

  -- Both ways in which HSet overwrites a found entry.
  overwritten :
      (v : Bytes) (f : Found k l)
      → h_set_found (encode l) k v (
          some (record {
            start = 4 + length (items f.before);
            v_off = 4 + length (items f.before) + 2 + length k + 4;
            v_len = length f.value;
          }))
        ≡ (encode (set k v l), false)
  unfolding h_set_found
  overwritten v f = ground (
    arith,
    (parts f).to_length,
    (parts f).to_value,
    (parts f).behind,
    rebuilt v f,
    put_uint32_wrap (length v),
    glue (put_uint32 (length l)) (items f.before) (put_uint16 (length k)) k (put_uint32 (length v))
        (v ++ items f.after),
    glue' (put_uint32 (length l)) (items f.before) (put_uint16 (length k)) k (put_uint32 (length v))
        (v ++ items f.after),
  )

  pub h_set-cons : (v : Bytes) → h_set (encode l) k v ≡ (encode (set k v l), is_none (get k l))
  unfolding h_set
  h_set-cons v = elim (find_in k l) [
    | inl f ↦ rw f.got (ground (arith, w.count, w.long, find-Found k l fits w f, overwritten v f))
    | inr f ↦
        rw (f.got, f.changed v)
          (ground (
            arith,
            w.count,
            w.long,
            find-Missing k l fits w f,
            drop-put_uint32 (length l) (items l),
            put_uint32_wrap (length xs + 2),
            put_uint16_wrap (length k),
            put_uint32_wrap (length v),
            length-append xs ((k, v) ∷ []),
            items-append l ((k, v) ∷ []),
            append-nil v,
          ))
  ]
