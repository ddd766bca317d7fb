-- ===== src/Ds/HashPayload/Lookup.antt =====
-- A list of entries as a map, and the payload around a found entry.
use horreum.Common.{
  ℕ, ◌+◌, ◌^◌, ◌<◌, ◌≤◌, ◌≡◌, ◌⊎◌, inl, inr, refl, ap, Option, none, some, List, [], ◌∷◌, ◌++◌,
  arith, length, drop, take, subst, append_assoc, length-append, if◌then◌else◌, Bool-cases,
}
use horreum.Bytes.{
  Bytes, slice, put_uint16, put_uint32, get_uint32, bytes_eq, bytes_eq→eq, get-put_uint32,
  length-put_uint32_append, length-put_uint16_append, length-put_uint32,
}
use horreum.Bytes.Window.{At, take-append, drop-append}
use horreum.Bytes.Field.{At_header, cut_header, At_body}
use horreum.Ds.HashPayload.{find_field}
use horreum.Ds.HashPayload.Layout.{
  Entry, items, encode, Fits, Absent, items-append, EntryAt, EntryAt-of, find_field-present,
  find_field-Absent,
}

abbrev pub get : Bytes → List Entry → Option Bytes
get k [] = none
get k ((f, v) ∷ es) = if bytes_eq f k then some v else get k es

-- The first entry with the field is overwritten; a new field goes to the end.
abbrev pub set : Bytes → Bytes → List Entry → List Entry
set k v [] = (k, v) ∷ []
set k v ((f, u) ∷ es) = if bytes_eq f k then (f, v) ∷ es else (f, u) ∷ set k v es

abbrev pub remove : Bytes → List Entry → List Entry
remove k [] = []
remove k ((f, v) ∷ es) = if bytes_eq f k then es else (f, v) ∷ remove k es

-- The first entry with the field `k`.
pub record Found (k : Bytes) (l : List Entry) : Type 0 where
  pub before : List Entry
  pub value : Bytes
  pub after : List Entry
  pub whole : l ≡ before ++ (k, value) ∷ after
  pub first : Absent k before
  pub got : get k l ≡ some value
  pub changed : (v : Bytes) → set k v l ≡ before ++ (k, v) ∷ after
  pub rest : remove k l ≡ before ++ after

pub record Missing (k : Bytes) (l : List Entry) : Type 0 where
  pub absent : Absent k l
  pub got : get k l ≡ none
  pub changed : (v : Bytes) → set k v l ≡ l ++ (k, v) ∷ []
  pub rest : remove k l ≡ l

pub find_in : (k : Bytes) (l : List Entry) → Found k l ⊎ Missing k l
find_in k [] = inr (record { absent = tt; got = refl; changed = λ v. refl; rest = refl })
find_in k ((f, u) ∷ es) = elim (Bool-cases (bytes_eq f k)) [
  | inl e ↦ inl (record {
    before = [];
    value = u;
    after = es;
    whole = ap (λ y. (y, u) ∷ es) (bytes_eq→eq f k e);
    first = tt;
    got = rw e;
    changed = λ v. rw e (ap (λ y. (y, v) ∷ es) (bytes_eq→eq f k e));
    rest = rw e;
  })
  | inr e ↦ elim (find_in k es) [
    | inl r ↦ inl (record {
      before = (f, u) ∷ r.before;
      value = r.value;
      after = r.after;
      whole = ap (λ l. (f, u) ∷ l) r.whole;
      first = (e, r.first);
      got = rw e r.got;
      changed = λ v. rw e (ap (λ l. (f, u) ∷ l) (r.changed v));
      rest = rw e (ap (λ l. (f, u) ∷ l) r.rest);
    })
    | inr r ↦ inr (record {
      absent = (e, r.absent);
      got = rw e r.got;
      changed = λ v. rw e (ap (λ l. (f, u) ∷ l) (r.changed v));
      rest = rw e (ap (λ l. (f, u) ∷ l) r.rest);
    })
  ]
]

-- The payload of a list that is not empty: its count, its length, its entries behind the count.
pub record Whole (l : List Entry) : Type 0 where
  pub count : get_uint32 (encode l) ≡ length l
  pub long : 4 ≤ length (encode l)
  pub body : At (encode l) 4 (items l)

pub Whole_cons : (e : Entry) (es : List Entry) → length (e ∷ es) < 2 ^ 32 → Whole (e ∷ es)
Whole_cons e es h = record {
  count = get-put_uint32 (length (e ∷ es)) (items (e ∷ es)) h;
  long = omega (arith, length-put_uint32_append (length (e ∷ es)) (items (e ∷ es)));
  body = At_header (length (e ∷ es)) (items (e ∷ es));
}

module _ (k : Bytes) (l : List Entry) (fits : Fits l) (w : Whole l) where
  pub find-Found :
      (f : Found k l)
      → find_field (encode l) k (length l) 4
        ≡ some (record {
          start = 4 + length (items f.before);
          v_off = 4 + length (items f.before) + 2 + length k + 4;
          v_len = length f.value;
        })
  find-Found f = rw (ap length f.whole) (
      find_field-present (encode l) f.before k f.value f.after 4 (subst Fits f.whole fits) f.first
        (subst (λ j. At (encode l) 4 (items j)) f.whole w.body))

  pub find-Missing : Missing k l → find_field (encode l) k (length l) 4 ≡ none
  find-Missing f = find_field-Absent (encode l) l k 4 fits f.absent w.body

pub Fits-mid :
    (xs : List Entry) (k v : Bytes) (ys : List Entry)
    → Fits (xs ++ (k, v) ∷ ys)
    → (length k < 2 ^ 16) × (length v < 2 ^ 32)
Fits-mid [] k v ys h = (h.0, h.1)
Fits-mid ((f, u) ∷ xs) k v ys h = Fits-mid xs k v ys h.2

take_prefix : (raw pre post : Bytes) (n : ℕ) → raw ≡ pre ++ post → n ≡ length pre → take n raw ≡ pre
take_prefix raw pre post n e h = rw (e, h) (take-append pre post)

drop_prefix :
    (raw pre post : Bytes) (n : ℕ) → raw ≡ pre ++ post → n ≡ length pre → drop n raw ≡ post
drop_prefix raw pre post n e h = rw (e, h) (drop-append pre post)

-- The parts of a payload around a found entry: in front of the entry, in front of its value with
-- and without the value's length, the value itself, and what stands behind it.
pub record Parts (n : ℕ) (before : List Entry) (k v : Bytes) (after : List Entry) (raw : Bytes)
    : Type 0 where
  pub front : drop 4 (take (4 + length (items before)) raw) ≡ items before
  pub to_length :
      take (4 + length (items before) + 2 + length k) raw
      ≡ put_uint32 n ++ (items before ++ (put_uint16 (length k) ++ k))
  pub to_value :
      take (4 + length (items before) + 2 + length k + 4) raw
      ≡ put_uint32 n ++ (items before ++ (put_uint16 (length k) ++ (k ++ put_uint32 (length v))))
  pub value :
      slice raw
        (4 + length (items before) + 2 + length k + 4)
        (4 + length (items before) + 2 + length k + 4 + length v)
      ≡ v
  pub from_value : drop (4 + length (items before) + 2 + length k + 4) raw ≡ v ++ items after
  pub behind : drop (4 + length (items before) + 2 + length k + 4 + length v) raw ≡ items after

pub Parts-of :
    (n : ℕ) (before : List Entry) (k v : Bytes) (after l : List Entry)
    → l ≡ before ++ (k, v) ∷ after
    → length k < 2 ^ 16
    → length v < 2 ^ 32
    → Parts n before k v after (put_uint32 n ++ items l)
Parts-of n before k v after l e hk hv =
    rw (e, items-append before ((k, v) ∷ after))
      (record {
        front = cut_header n (items before) (items ((k, v) ∷ after));
        to_length =
            take_prefix raw (put_uint32 n ++ (items before ++ (put_uint16 (length k) ++ k)))
              (put_uint32 (length v) ++ (v ++ items after))
              (4 + length (items before) + 2 + length k) (simp append_assoc)
              (omega (
                arith,
                length-put_uint32_append n (items before ++ (put_uint16 (length k) ++ k)),
                length-append (items before) (put_uint16 (length k) ++ k),
                length-put_uint16_append (length k) k,
              ));
        to_value =
            take_prefix raw pre (v ++ items after) (4 + length (items before) + 2 + length k + 4)
              split width;
        from_value =
            drop_prefix raw pre (v ++ items after) (4 + length (items before) + 2 + length k + 4)
              split width;
        value = x.value.value;
        behind = x.value.next.here;
      })
  where
    raw : Bytes
    raw = put_uint32 n ++ (items before ++ items ((k, v) ∷ after))

    x : EntryAt raw (4 + length (items before)) k v (items after)
    x = EntryAt-of k v (items after) hk hv (At_body n (items before) (items ((k, v) ∷ after)))

    pre : Bytes
    pre = put_uint32 n ++ (items before ++ (put_uint16 (length k) ++ (k ++ put_uint32 (length v))))

    split : raw ≡ pre ++ (v ++ items after)
    split = simp append_assoc

    width : 4 + length (items before) + 2 + length k + 4 ≡ length pre
    width = omega (
      arith,
      length-put_uint32_append n
          (items before ++ (put_uint16 (length k) ++ (k ++ put_uint32 (length v)))),
      length-append (items before) (put_uint16 (length k) ++ (k ++ put_uint32 (length v))),
      length-put_uint16_append (length k) (k ++ put_uint32 (length v)),
      length-append k (put_uint32 (length v)),
      length-put_uint32 (length v),
    )
