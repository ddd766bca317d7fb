-- ===== src/Persist/Checkpoint/Codec.antt =====
-- encodeCheckpoint and decodeCheckpoint of checkpoint.go: a checkpoint holds the entries of a snapshot,
-- without their expiry.
use horreum.Common.{
  ℕ, suc, ◌+◌, ◌-◌, ◌^◌, ◌<◌, ◌≡◌, refl, sym, ◌∙◌, ap, ap₂, false, List, [], ◌∷◌, ◌++◌, arith, ltb,
  if◌then◌else◌, length, take, drop, replicate, length-append,
}
use horreum.Bytes.{
  Bytes, byte, uint8, uint16, put_uint16, put_uint32, put_uint64, get_uint16, get_uint32,
  get_uint64, get-put_uint16, get-put_uint32, get-put_uint64,
}
use horreum.Bytes.Window.{drop-append, take-append, drop-drop}
use horreum.Arena.Region.{Handle}
use horreum.Index.{Entry}
use horreum.Persist.Checkpoint.{entry_fields, key_field, entries, decode_entry, decode_entries}

-- The fields of an entry hold in their widths, and the key length is the key's.
pub record Fits (se : Entry Handle) : Type 0 where
  pub hash_fits : se.hash < 2 ^ 64
  pub key_len_is : se.key_len ≡ uint16 (length se.key)
  pub offset_fits : se.handle.offset < 2 ^ 32
  pub size_fits : se.handle.size < 2 ^ 32
  pub region_fits : se.handle.region < 2 ^ 8

abbrev pub AllFit : List (Entry Handle) → Type 0
AllFit [] = Unit
AllFit (se ∷ snap) = Fits se × AllFit snap

-- What a checkpoint keeps of a handle, and of an entry.
abbrev pub checkpointed_handle : Handle → Handle
checkpointed_handle h = record h { meta = uint8 h.meta }

abbrev pub checkpointed : Entry Handle → Entry Handle
checkpointed se = record se { handle = checkpointed_handle se.handle; expires_at = 0 }

length-fields : (se : Entry Handle) → length (entry_fields se) ≡ 20
unfolding put_uint16 put_uint32 put_uint64
length-fields se = refl

key_field_long : (a b c d : ℕ) (key : Bytes) → key_field (a ∷ b ∷ c ∷ d ∷ key) ≡ a ∷ b ∷ c ∷ d ∷ key
key_field_long a b c d key =
    let no_zeros : 4 - suc (suc (suc (suc (length key)))) ≡ 0 = omega arith in
    ap (λ n. a ∷ b ∷ c ∷ d ∷ (replicate n 0 ++ key)) no_zeros

length-key_field : (key : Bytes) → length (key_field key) ≡ 4 + (length key - 4)
length-key_field [] = refl
length-key_field (a ∷ []) = refl
length-key_field (a ∷ b ∷ []) = refl
length-key_field (a ∷ b ∷ c ∷ []) = refl
length-key_field (a ∷ b ∷ c ∷ d ∷ key) = omega (arith, ap length (key_field_long a b c d key))

-- The key is read back from its field.
key_field-read :
    (key rest : Bytes)
    → take (if ltb (length key) 4 then length key else 4) (key_field key ++ rest)
        ++ take (length key - 4) (drop 4 (key_field key ++ rest))
      ≡ key
key_field-read [] rest = refl
key_field-read (a ∷ []) rest = refl
key_field-read (a ∷ b ∷ []) rest = refl
key_field-read (a ∷ b ∷ c ∷ []) rest = refl
key_field-read (a ∷ b ∷ c ∷ d ∷ key) rest =
    ap
      (λ field.
        take in_line (field ++ rest)
        ++ take (length (a ∷ b ∷ c ∷ d ∷ key) - 4) (drop 4 (field ++ rest)))
      (key_field_long a b c d key)
    ∙ ap₂ (λ m n. take m (a ∷ b ∷ c ∷ d ∷ (key ++ rest)) ++ take n (key ++ rest)) four tail_is
    ∙ ap (λ l. a ∷ b ∷ c ∷ d ∷ l) (take-append key rest)
  where
    in_line : ℕ
    in_line = if ltb (length (a ∷ b ∷ c ∷ d ∷ key)) 4 then length (a ∷ b ∷ c ∷ d ∷ key) else 4

    four : in_line ≡ 4
    four = ground arith

    tail_is : length (a ∷ b ∷ c ∷ d ∷ key) - 4 ≡ length key
    tail_is = omega arith

module _ (se : Entry Handle) (f : Fits se) (short : length se.key < 2 ^ 16) (rest : Bytes) where
  abbrev pub entry_bytes : Bytes
  entry_bytes = entry_fields se ++ (key_field se.key ++ rest)

  hash_at : get_uint64 entry_bytes ≡ se.hash
  unfolding put_uint64
  hash_at = get-put_uint64 se.hash _ f.hash_fits

  key_len_at : get_uint16 (drop 8 entry_bytes) ≡ length se.key
  unfolding put_uint64 put_uint16
  key_len_at = get-put_uint16 (length se.key) _ short

  offset_at : get_uint32 (drop 10 entry_bytes) ≡ se.handle.offset
  unfolding put_uint64 put_uint16 put_uint32
  offset_at = get-put_uint32 se.handle.offset _ f.offset_fits

  size_at : get_uint32 (drop 14 entry_bytes) ≡ se.handle.size
  unfolding put_uint64 put_uint16 put_uint32
  size_at = get-put_uint32 se.handle.size _ f.size_fits

  region_at : byte (drop 18 entry_bytes) ≡ se.handle.region
  unfolding put_uint64 put_uint16 put_uint32 byte
  region_at = omega (arith, f.region_fits)

  meta_at : byte (drop 19 entry_bytes) ≡ uint8 se.handle.meta
  unfolding put_uint64 put_uint16 put_uint32 byte
  meta_at = refl

  field_at : drop 20 entry_bytes ≡ key_field se.key ++ rest
  unfolding put_uint64 put_uint16 put_uint32
  field_at = refl

  -- The key length in the entry is the length of the key.
  key_at :
      take
          (if ltb (get_uint16 (drop 8 entry_bytes)) 4 then get_uint16 (drop 8 entry_bytes) else 4)
          (drop 20 entry_bytes)
        ++ take (get_uint16 (drop 8 entry_bytes) - 4) (drop 24 entry_bytes)
      ≡ se.key
  key_at =
      ap
        (λ n.
          take (if ltb n 4 then n else 4) (drop 20 entry_bytes)
          ++ take (n - 4) (drop 24 entry_bytes))
        key_len_at
      ∙ ap (λ l. take in_line (drop 20 entry_bytes) ++ take (length se.key - 4) l)
          (sym (drop-drop 20 4 entry_bytes))
      ∙ ap (λ l. take in_line l ++ take (length se.key - 4) (drop 4 l)) field_at
      ∙ key_field-read se.key rest
    where
      in_line : ℕ
      in_line = if ltb (length se.key) 4 then length se.key else 4

  pub decoded : decode_entry entry_bytes ≡ checkpointed se
  decoded = λ i. record {
    hash = hash_at i;
    key_len = (ap uint16 key_len_at ∙ sym f.key_len_is) i;
    handle = record {
      offset = offset_at i;
      size = size_at i;
      meta = meta_at i;
      region = region_at i;
    };
    expires_at = 0;
    key = key_at i;
  }

  behind : drop (24 + (length se.key - 4)) entry_bytes ≡ rest
  behind =
      ap (λ n. drop n entry_bytes) widths
      ∙ sym (drop-drop 20 (length (key_field se.key)) entry_bytes)
      ∙ ap (drop (length (key_field se.key))) field_at
      ∙ drop-append (key_field se.key) rest
    where
      widths : 24 + (length se.key - 4) ≡ 20 + length (key_field se.key)
      widths = omega (arith, length-key_field se.key)

  pub wide : length entry_bytes ≡ 24 + (length se.key - 4) + length rest
  wide = omega (
    arith,
    length-append (entry_fields se) (key_field se.key ++ rest),
    length-fields se,
    length-append (key_field se.key) rest,
    length-key_field se.key,
  )

  -- One round of the loop of decodeCheckpoint.
  pub decode_entries_round :
      (n pos : ℕ) (es : List (Entry Handle)) (end : ℕ)
      → decode_entries n rest (pos + (24 + (length se.key - 4))) ≡ entries es end
      → decode_entries (suc n) entry_bytes pos ≡ entries (checkpointed se ∷ es) end
  unfolding decode_entries
  decode_entries_round n pos es end run = ground (arith, enough, enough_key, others, decoded)
    where
      others :
          decode_entries n
            (drop (24 + (get_uint16 (drop 8 entry_bytes) - 4)) entry_bytes)
            (pos + (24 + (get_uint16 (drop 8 entry_bytes) - 4)))
          ≡ entries es end
      others =
          ap (λ k. decode_entries n (drop (24 + (k - 4)) entry_bytes) (pos + (24 + (k - 4))))
            key_len_at
          ∙ ap (λ l. decode_entries n l (pos + (24 + (length se.key - 4)))) behind
          ∙ run

      enough : ltb (length entry_bytes) 24 ≡ false
      enough = ground (arith, wide)

      enough_key : ltb (length entry_bytes) (24 + (get_uint16 (drop 8 entry_bytes) - 4)) ≡ false
      enough_key =
          ap (λ k. ltb (length entry_bytes) (24 + (k - 4))) key_len_at ∙ ground (arith, wide)
