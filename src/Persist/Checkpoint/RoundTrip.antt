-- ===== src/Persist/Checkpoint/RoundTrip.antt =====
-- decodeCheckpoint of checkpoint.go undoes encodeCheckpoint, but for the expiry of the entries.
use horreum.Common.{
  ℕ, suc, ◌+◌, ◌-◌, ◌*◌, ◌%◌, ◌/◌, ◌^◌, ◌<◌, ◌≤◌, ◌≡◌, ◌⊎◌, inl, inr, refl, sym, ◌∙◌, ap, List, [],
  ◌∷◌, ◌++◌, map, append_assoc, arith, ltb, length, Bool-cases,
}
use horreum.Bytes.{Bytes, put_uint32, get_uint32, bytes_eq}
use horreum.Arena.Region.{Handle}
use horreum.Index.{Entry}
use horreum.Persist.Checkpoint.{
  Encoded, written, key_too_long, buffer_overflow, buffer_too_small, entry_fields, key_field,
  encode_entries, encode_checkpoint, entries, decode_entries, decode_checkpoint, checkpoint_magic,
}
use horreum.Persist.Checkpoint.Codec.{AllFit, checkpointed, wide, decode_entries_round}

pub Encoded-cases :
    (e : Encoded)
    → ((x : Bytes) × (e ≡ written x))
      ⊎ ((e ≡ buffer_too_small) ⊎ ((e ≡ key_too_long) ⊎ (e ≡ buffer_overflow)))
Encoded-cases (written x) = inl (x, refl)
Encoded-cases buffer_too_small = inr (inl refl)
Encoded-cases key_too_long = inr (inr (inl refl))
Encoded-cases buffer_overflow = inr (inr (inr refl))

-- A round of the loop of encodeCheckpoint that is not an error.
encode_entries-cons :
    (cap : ℕ) (se : Entry Handle) (snap : List (Entry Handle)) (pos : ℕ) (out : Bytes)
    → encode_entries cap (se ∷ snap) pos ≡ written out
    → (length se.key < 2 ^ 16)
      × (pos + (24 + (length se.key - 4)) ≤ cap)
      × (bytes : Bytes) × (encode_entries cap snap (pos + (24 + (length se.key - 4)))
          ≡ written bytes)
      × (entry_fields se ++ (key_field se.key ++ bytes) ≡ out)
unfolding encode_entries
encode_entries-cons cap se snap pos out run = elim (Bool-cases (ltb 0xFFFF (length se.key))) [
  | inl long ↦ absurd (ground (arith, run, long))
  | inr short ↦ elim (Bool-cases (ltb cap (pos + (24 + (length se.key - 4))))) [
    | inl full ↦ absurd (ground (arith, run, short, full))
    | inr room ↦ elim (Encoded-cases (encode_entries cap snap (pos + (24 + (length se.key - 4))))) [
      | inl (bytes, rest) ↦ (
        ground (arith, short),
        ground (arith, room),
        bytes,
        rest,
        ground (arith, run, short, room, rest),
      )
      | inr failed ↦ absurd (ground (arith, run, short, room, failed))
    ]
  ]
]

decode-encode_entries :
    (cap : ℕ) (snap : List (Entry Handle)) (pos : ℕ) (out tail : Bytes)
    → AllFit snap
    → encode_entries cap snap pos ≡ written out
    → decode_entries (length snap) (out ++ tail) pos
      ≡ entries (map checkpointed snap) (pos + length out)
unfolding decode_entries encode_entries
decode-encode_entries cap [] pos out tail fits run =
    let none_written : [] ≡ out = ground (arith, run) in
    ap (entries []) (omega (arith, ap length (sym none_written)))
decode-encode_entries cap (se ∷ snap) pos out tail fits run =
    let (short, room, bytes, rest, out_is) = encode_entries-cons cap se snap pos out run in
    let others =
      decode-encode_entries cap snap (pos + (24 + (length se.key - 4))) bytes tail fits.1 rest in
    ap (λ b. decode_entries (suc (length snap)) b pos)
      (ap (λ b. b ++ tail) (sym out_is) ∙ regrouped bytes)
    ∙ decode_entries_round se fits.0 short (bytes ++ tail) (length snap) pos (map checkpointed snap)
        _ others
    ∙ ap (entries (map checkpointed (se ∷ snap)))
        (omega (arith, wide se fits.0 short bytes, ap length out_is))
  where
    regrouped :
        (bytes : Bytes)
        → (entry_fields se ++ (key_field se.key ++ bytes)) ++ tail
          ≡ entry_fields se ++ (key_field se.key ++ (bytes ++ tail))
    regrouped bytes =
        append_assoc (entry_fields se) (key_field se.key ++ bytes) tail
        ∙ ap (λ l. entry_fields se ++ l) (append_assoc (key_field se.key) bytes tail)

encode_entries-within :
    (cap : ℕ) (snap : List (Entry Handle)) (pos : ℕ) (out : Bytes)
    → pos ≤ cap
    → AllFit snap
    → encode_entries cap snap pos ≡ written out
    → pos + length out ≤ cap
unfolding encode_entries
encode_entries-within cap [] pos out h fits run =
    let none_written : [] ≡ out = ground (arith, run) in
    omega (arith, h, ap length (sym none_written))
encode_entries-within cap (se ∷ snap) pos out h fits run =
    let (short, room, bytes, rest, out_is) = encode_entries-cons cap se snap pos out run in
    let below =
      encode_entries-within cap snap (pos + (24 + (length se.key - 4))) bytes room fits.1 rest in
    omega (arith, below, wide se fits.0 short bytes, ap length out_is)

header_wide :
    (n : ℕ) (bytes : Bytes)
    → 12 + length bytes ≡ length (checkpoint_magic ++ (put_uint32 1 ++ (put_uint32 n ++ bytes)))
unfolding put_uint32
header_wide n bytes = omega arith

header_read :
    (n : ℕ) (bytes tail : Bytes)
    → n < 2 ^ 32
    → decode_checkpoint ((checkpoint_magic ++ (put_uint32 1 ++ (put_uint32 n ++ bytes))) ++ tail)
      ≡ decode_entries n (bytes ++ tail) 12
unfolding put_uint32 decode_checkpoint bytes_eq get_uint32
header_read n bytes tail few = ground (arith, count)
  where
    count :
        n % 2 ^ 8
          + n / 2 ^ 8 % 2 ^ 8 * 2 ^ 8
          + n / 2 ^ 16 % 2 ^ 8 * 2 ^ 16
          + n / 2 ^ 24 % 2 ^ 8 * 2 ^ 24
        ≡ n
    count = omega (arith, few)

-- A snapshot of fewer than 2^32 entries, whose fields hold in their widths and which
-- encodeCheckpoint writes, is read back by decodeCheckpoint with any bytes behind it: the same
-- entries in their order, with the count of bytes written, but every entry has lost its expiry
-- and the upper byte of its handle's meta.
pub decode-encode_checkpoint :
    (cap : ℕ) (snap : List (Entry Handle)) (out tail : Bytes)
    → AllFit snap
    → length snap < 2 ^ 32
    → encode_checkpoint cap snap ≡ written out
    → decode_checkpoint (out ++ tail) ≡ entries (map checkpointed snap) (length out)
unfolding encode_checkpoint decode_checkpoint
decode-encode_checkpoint cap snap out tail fits few run = elim (Bool-cases (ltb cap 12)) [
  | inl small ↦ absurd (ground (arith, run, small))
  | inr room ↦ elim (Encoded-cases (encode_entries cap snap 12)) [
    | inr failed ↦ absurd (ground (arith, run, room, failed))
    | inl (bytes, body) ↦
        let out_is : checkpoint_magic ++ (put_uint32 1 ++ (put_uint32 (length snap) ++ bytes))
            ≡ out =
          ground (arith, run, room, body) in
        ap (λ b. decode_checkpoint (b ++ tail)) (sym out_is)
        ∙ header_read (length snap) bytes tail few
        ∙ decode-encode_entries cap snap 12 bytes tail fits body
        ∙ ap (entries (map checkpointed snap)) (header_wide (length snap) bytes ∙ ap length out_is)
  ]
]

-- The bytes of a checkpoint have room in the buffer.
pub encode_checkpoint-within :
    (cap : ℕ) (snap : List (Entry Handle)) (out : Bytes)
    → AllFit snap
    → encode_checkpoint cap snap ≡ written out
    → length out ≤ cap
unfolding encode_checkpoint
encode_checkpoint-within cap snap out fits run = elim (Bool-cases (ltb cap 12)) [
  | inl small ↦ absurd (ground (arith, run, small))
  | inr room ↦ elim (Encoded-cases (encode_entries cap snap 12)) [
    | inr failed ↦ absurd (ground (arith, run, room, failed))
    | inl (bytes, body) ↦
        let out_is : checkpoint_magic ++ (put_uint32 1 ++ (put_uint32 (length snap) ++ bytes))
            ≡ out =
          ground (arith, run, room, body) in
        let below = encode_entries-within cap snap 12 bytes (ground (arith, room)) fits body in
        omega (arith, below, header_wide (length snap) bytes, ap length out_is)
  ]
]
