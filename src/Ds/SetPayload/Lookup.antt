-- ===== src/Ds/SetPayload/Lookup.antt =====
-- The operations of set.go on the payload of a list of members.
use horreum.Common.{
  Bool-cases, ℕ, ◌+◌, ◌^◌, ◌<◌, ◌≤◌, ◌≡◌, ◌≢◌, ◌⊎◌, inl, inr, refl, ap, Bool, true, false, ◌||◌,
  none, some, List, [], ◌∷◌, ◌++◌, arith, length, drop, take, subst, append-nil, length-append,
  if◌then◌else◌,
}
use horreum.Bytes.{
  Bytes, put_uint32, get_uint16, get_uint32, bytes_eq, bytes_eq→eq, get-put_uint32, put_uint32_wrap,
  put_uint16_wrap, length-put_uint32_append, drop-put_uint32,
}
use horreum.Bytes.Window.{At}
use horreum.Bytes.Field.{At_header, cut_header, At_body, Field, Field-uint16}
use horreum.Ds.SetPayload.{find_member, s_add, s_rem, s_is_member, s_members}
use horreum.Ds.SetPayload.Layout.{
  items, encode, Fits, Absent, items-append, walk_members-items, find_member-present,
  find_member-Absent,
}

abbrev pub contains : Bytes → List Bytes → Bool
contains m [] = false
contains m (x ∷ xs) = bytes_eq x m || contains m xs

-- The list without the first member equal to `m`.
abbrev pub remove : Bytes → List Bytes → List Bytes
remove m [] = []
remove m (x ∷ xs) = if bytes_eq x m then xs else x ∷ remove m xs

-- A list contains `m`, split at its first place, or `m` is absent.
pub record Found (m : Bytes) (l : List Bytes) : Type 0 where
  pub before : List Bytes
  pub after : List Bytes
  pub whole : l ≡ before ++ m ∷ after
  pub first : Absent m before
  pub test : contains m l ≡ true
  pub rest : remove m l ≡ before ++ after

pub record Missing (m : Bytes) (l : List Bytes) : Type 0 where
  pub absent : Absent m l
  pub test : contains m l ≡ false
  pub rest : remove m l ≡ l

pub find_in : (m : Bytes) (l : List Bytes) → Found m l ⊎ Missing m l
find_in m [] = inr (record { absent = tt; test = refl; rest = refl })
find_in m (x ∷ xs) = elim (Bool-cases (bytes_eq x m)) [
  | inl e ↦ inl (record {
    before = [];
    after = xs;
    whole = ap (λ y. y ∷ xs) (bytes_eq→eq x m e);
    first = tt;
    test = rw e;
    rest = rw e;
  })
  | inr e ↦ elim (find_in m xs) [
    | inl f ↦ inl (record {
      before = x ∷ f.before;
      after = f.after;
      whole = ap (λ l. x ∷ l) f.whole;
      first = (e, f.first);
      test = rw e f.test;
      rest = rw e (ap (λ l. x ∷ l) f.rest);
    })
    | inr f ↦ inr (record {
      absent = (e, f.absent);
      test = rw e f.test;
      rest = rw e (ap (λ l. x ∷ l) f.rest);
    })
  ]
]

-- The payload of a list that is not empty: its count, its length, its members behind the count.
pub record Whole (l : List Bytes) : Type 0 where
  pub shape : encode l ≡ put_uint32 (length l) ++ items l
  pub count : get_uint32 (encode l) ≡ length l
  pub long : 4 ≤ length (encode l)
  pub body : At (encode l) 4 (items l)

pub Whole_cons : (x : Bytes) (xs : List Bytes) → length (x ∷ xs) < 2 ^ 32 → Whole (x ∷ xs)
Whole_cons x xs h = record {
  shape = refl;
  count = get-put_uint32 (length (x ∷ xs)) (items (x ∷ xs)) h;
  long = omega (arith, length-put_uint32_append (length (x ∷ xs)) (items (x ∷ xs)));
  body = At_header (length (x ∷ xs)) (items (x ∷ xs));
}

module _ (m : Bytes) (l : List Bytes) (fits : Fits l) (w : Whole l) where
  pub find-Found :
      (f : Found m l)
      → find_member (encode l) m (length l) 4
        ≡ some (4 + length (items f.before), 4 + length (items f.before) + 2 + length m)
  find-Found f = rw (ap length f.whole) (
      find_member-present (encode l) f.before m f.after 4 (subst Fits f.whole fits) f.first
        (subst (λ k. At (encode l) 4 (items k)) f.whole w.body))

  pub find-Missing : Missing m l → find_member (encode l) m (length l) 4 ≡ none
  find-Missing f = find_member-Absent (encode l) l m 4 fits f.absent w.body

module _ (m : Bytes) (x : Bytes) (xs : List Bytes) (fits : Fits (x ∷ xs))
    (small : length (x ∷ xs) < 2 ^ 32) where
  w : Whole (x ∷ xs)
  w = Whole_cons x xs small

  -- SIsMember
  pub s_is_member-cons : s_is_member (encode (x ∷ xs)) m ≡ contains m (x ∷ xs)
  unfolding s_is_member
  s_is_member-cons = elim (find_in m (x ∷ xs)) [
    | inl f ↦ rw f.test (ground (arith, w.count, w.long, find-Found m (x ∷ xs) fits w f))
    | inr f ↦ rw f.test (ground (arith, w.count, w.long, find-Missing m (x ∷ xs) fits w f))
  ]

  pub s_members-cons : s_members (encode (x ∷ xs)) ≡ x ∷ xs
  unfolding s_members
  s_members-cons =
      ground (arith, w.count, w.long, walk_members-items (encode (x ∷ xs)) (x ∷ xs) 4 fits w.body)

  pub s_add-cons : s_add (encode (x ∷ xs)) m ≡ (
      if contains m (x ∷ xs) then (encode (x ∷ xs), false) else (encode ((x ∷ xs) ++ m ∷ []), true))
  unfolding s_add
  s_add-cons = elim (find_in m (x ∷ xs)) [
    | inl f ↦ rw f.test (ground (arith, w.count, w.long, find-Found m (x ∷ xs) fits w f))
    | inr f ↦ rw f.test (
        ground (
          arith,
          w.count,
          w.long,
          find-Missing m (x ∷ xs) fits w f,
          drop-put_uint32 (length (x ∷ xs)) (items (x ∷ xs)),
          put_uint32_wrap (length xs + 2),
          put_uint16_wrap (length m),
          length-append xs (m ∷ []),
          items-append (x ∷ xs) (m ∷ []),
          append-nil m,
        ))
  ]

-- The bytes in front of a found member and those behind it.
split-payload :
    (n : ℕ) (before after : List Bytes) (m : Bytes)
    → (l : List Bytes) → l ≡ before ++ m ∷ after
    → length m < 2 ^ 16
    → let raw = put_uint32 n ++ items l in
      let start = 4 + length (items before) in
      (drop 4 (take start raw) ≡ items before) × (drop (start + 2 + length m) raw ≡ items after)
split-payload n before after m l e h =
    rw (e, items-append before (m ∷ after))
      (cut_header n (items before) (items (m ∷ after)), found.next.here)
  where
    found :
        Field get_uint16 2
          (put_uint32 n ++ (items before ++ items (m ∷ after)))
          (4 + length (items before))
          m
          (items after)
    found = Field-uint16 m (items after) h (At_body n (items before) (items (m ∷ after)))

Fits-mid : (xs : List Bytes) (m : Bytes) (ys : List Bytes) → Fits (xs ++ m ∷ ys) → length m < 2 ^ 16
Fits-mid [] m ys h = h.0
Fits-mid (x ∷ xs) m ys h = Fits-mid xs m ys h.1

encode-of_count :
    (n : ℕ) (l : List Bytes) → length l ≡ n → n ≢ 0 → put_uint32 n ++ items l ≡ encode l
encode-of_count n [] e h = absurd (h (omega arith))
encode-of_count n (x ∷ xs) e h = ap (λ k. put_uint32 k ++ items (x ∷ xs)) (omega arith)

encode_nil : (l : List Bytes) → length l ≡ 0 → encode l ≡ []
encode_nil [] e = refl
encode_nil (x ∷ xs) e = absurd (omega arith)

module _ (m : Bytes) (x : Bytes) (xs : List Bytes) (fits : Fits (x ∷ xs))
    (small : length (x ∷ xs) < 2 ^ 32) where
  pub s_rem-cons : s_rem (encode (x ∷ xs)) m ≡ (
      if contains m (x ∷ xs) then (encode (remove m (x ∷ xs)), true) else (encode (x ∷ xs), false))
  unfolding s_rem
  s_rem-cons = elim (find_in m (x ∷ xs)) [
    | inl f ↦
        rw (f.test, f.rest)
          (ground (
            arith,
            w.count,
            w.long,
            find-Found m (x ∷ xs) fits w f,
            parts f,
            ap length f.whole,
            length-append f.before (m ∷ f.after),
            length-append f.before f.after,
            encode_nil (f.before ++ f.after),
            encode-of_count (length xs) (f.before ++ f.after),
            items-append f.before f.after,
          ))
    | inr f ↦ rw f.test (ground (arith, w.count, w.long, find-Missing m (x ∷ xs) fits w f))
  ]
    where
      w : Whole (x ∷ xs)
      w = Whole_cons x xs small

      parts :
          (f : Found m (x ∷ xs))
          → let start = 4 + length (items f.before) in
            (drop 4 (take start (encode (x ∷ xs))) ≡ items f.before)
            × (drop (start + 2 + length m) (encode (x ∷ xs)) ≡ items f.after)
      parts f =
          split-payload (length (x ∷ xs)) f.before f.after m (x ∷ xs) f.whole
            (Fits-mid f.before m f.after (subst Fits f.whole fits))
