-- ===== src/Ds/HashPayload/Delete.antt =====
-- HDel of hash.go on a field that is there: the bytes of the value stay in the payload.
use horreum.Common.{
  ◌+◌, ◌^◌, ◌<◌, ◌≡◌, ◌≢◌, refl, ap, true, List, [], ◌∷◌, ◌++◌, arith, length, length-append,
}
use horreum.Bytes.{Bytes, put_uint32}
use horreum.Ds.HashPayload.{h_del}
use horreum.Ds.HashPayload.Layout.{Entry, items, encode, Fits, Absent, find_field-present}
use horreum.Ds.HashPayload.Lookup.{Whole, Whole_cons, Fits-mid, Parts, Parts-of}

module _ (before : List Entry) (k v : Bytes) (after : List Entry) where
  abbrev whole : List Entry
  whole = before ++ (k, v) ∷ after

  Whole-whole : (l : List Entry) → l ≡ whole → length l < 2 ^ 32 → Whole l
  Whole-whole [] e b = absurd (omega (arith, ap length e, length-append before ((k, v) ∷ after)))
  Whole-whole (x ∷ xs) e b = Whole_cons x xs b

  -- On a payload of less than 2^32 entries, whose fields and values fit the widths of their lengths,
  -- HDel of a field whose first entry is not the only entry counts one entry less and removes the
  -- field and both lengths, but leaves the bytes of the deleted value between the entries before it
  -- and those behind it.
  pub h_del-keeps_value :
      Fits whole
      → Absent k before
      → length whole < 2 ^ 32
      → length before + length after ≢ 0
      → h_del (encode whole) k
        ≡ (put_uint32 (length before + length after) ++ (items before ++ (v ++ items after)), true)
  unfolding h_del
  h_del-keeps_value fits first small others = ground (
    arith,
    w.count,
    w.long,
    find_field-present (encode whole) before k v after 4 fits first w.body,
    parts.front,
    parts.from_value,
    length-append before ((k, v) ∷ after),
  )
    where
      w : Whole whole
      w = Whole-whole whole refl small

      parts : Parts (length whole) before k v after (put_uint32 (length whole) ++ items whole)
      parts =
          let (hk, hv) = Fits-mid before k v after fits in
          Parts-of (length whole) before k v after whole refl hk hv
