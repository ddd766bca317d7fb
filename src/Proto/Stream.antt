-- ===== src/Proto/Stream.antt =====
-- Feed does not depend on how the stream is cut: more bytes change no frame and no error that the
-- loop has found, and a loop that ran short goes on where it stopped.
use horreum.Common.{
  ℕ, ◌+◌, ◌<◌, ◌≤◌, ◌≡◌, ◌∙◌, ap, ◌++◌, arith, length, drop, length-append, length-take,
  length-drop,
}
use native.Mathlib.Decide.{dec_lt}
use horreum.Bytes.{byte, Bytes, slice, get_uint16, get_uint32}
use horreum.Bytes.Window.{
  get_uint16-append, get_uint32-append, byte-append, drop-append_le, slice-append,
}
use horreum.Proto.{Frame, ProtoError}
use horreum.Proto.Parse.{short, failed, parsed, parse_in, consumed}

-- The header that a parse reads does not change when bytes follow.
record SameHeader (w more : Bytes) : Type 0 where
  magic_word : get_uint16 (w ++ more) ≡ get_uint16 w
  op_byte : byte (drop 2 (w ++ more)) ≡ byte (drop 2 w)
  flags_byte : byte (drop 3 (w ++ more)) ≡ byte (drop 3 w)
  key_len : get_uint16 (drop 4 (w ++ more)) ≡ get_uint16 (drop 4 w)
  val_len : get_uint32 (drop 6 (w ++ more)) ≡ get_uint32 (drop 6 w)

SameHeader-of : (w more : Bytes) → 10 ≤ length w → SameHeader w more
SameHeader-of w more h = record {
  magic_word = get_uint16-append w more (omega arith);
  op_byte =
      ap byte (drop-append_le 2 w more (omega arith))
      ∙ byte-append (drop 2 w) more (omega (arith, length-drop 2 w));
  flags_byte =
      ap byte (drop-append_le 3 w more (omega arith))
      ∙ byte-append (drop 3 w) more (omega (arith, length-drop 3 w));
  key_len =
      ap get_uint16 (drop-append_le 4 w more (omega arith))
      ∙ get_uint16-append (drop 4 w) more (omega (arith, length-drop 4 w));
  val_len =
      ap get_uint32 (drop-append_le 6 w more (omega arith))
      ∙ get_uint32-append (drop 6 w) more (omega (arith, length-drop 6 w));
}

short_header : (w : Bytes) → length w < 10 → parse_in w ≡ short
unfolding parse_in
short_header w h = ground arith

module _ (w more : Bytes) where
  abbrev k : ℕ
  k = get_uint16 (drop 4 w)

  abbrev v : ℕ
  v = get_uint32 (drop 6 w)

  -- The views of a frame that lies inside `w`.
  same_slices :
      10 + k + v ≤ length w
      → (slice (w ++ more) 10 (10 + k) ≡ slice w 10 (10 + k))
        × (slice (w ++ more) (10 + k) (10 + k + v) ≡ slice w (10 + k) (10 + k + v))
  same_slices h = (
    slice-append 10 (10 + k) w more (omega arith) (omega arith),
    slice-append (10 + k) (10 + k + v) w more (omega arith) (omega arith),
  )

  parsed_long :
      10 ≤ length w
      → (f : Frame) → parse_in w ≡ parsed f
      → (parse_in (w ++ more) ≡ parsed f) × (consumed f ≤ length w)
  unfolding parse_in
  parsed_long h f e =
      let s = SameHeader-of w more h in
      rw (s.magic_word, s.op_byte, s.flags_byte, s.key_len, s.val_len)
        (
          ground (arith, same_slices, length-append w more),
          ground (
            arith,
            length-take k (drop 10 w),
            length-drop 10 w,
            length-take v (drop (10 + k) w),
            length-drop (10 + k) w,
          ),
        )

  failed_long :
      10 ≤ length w → (e : ProtoError) → parse_in w ≡ failed e → parse_in (w ++ more) ≡ failed e
  unfolding parse_in
  failed_long h f e =
      let s = SameHeader-of w more h in
      rw (s.magic_word, s.op_byte, s.flags_byte, s.key_len, s.val_len)
        (ground (arith, same_slices, length-append w more))

  -- A frame parsed from `w` is parsed from every buffer that begins with `w`, and lies inside `w`.
  pub parse_in-parsed :
      (f : Frame)
      → parse_in w ≡ parsed f
      → (parse_in (w ++ more) ≡ parsed f) × (consumed f ≤ length w)
  parse_in-parsed f e = elim (dec_lt (length w) 10) [
    | yes h ↦ cc (short_header w h)
    | no h ↦ parsed_long (omega arith) f e
  ]

  -- And so is an error.
  pub parse_in-failed : (e : ProtoError) → parse_in w ≡ failed e → parse_in (w ++ more) ≡ failed e
  parse_in-failed e h = elim (dec_lt (length w) 10) [
    | yes l ↦ cc (short_header w l)
    | no l ↦ failed_long (omega arith) e h
  ]
