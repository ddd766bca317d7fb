-- ===== src/Proto/Decode.antt =====
-- What a stream of bytes holds: its frames up to an error or an incomplete frame. The loops of Feed
-- compute it, and it does not depend on how the stream is cut.
use horreum.Common.{
  ℕ, zero, suc, ◌+◌, ◌<◌, ◌≡◌, ◌⊎◌, inl, inr, refl, sym, ◌∙◌, ap, Option, none, some, List, [], ◌∷◌,
  ◌++◌, map, arith, length, drop, length-append, length-drop,
}
use horreum.Bytes.{Bytes}
use horreum.Bytes.Window.{drop-append_le}
use horreum.Proto.{Frame, ProtoError}
use horreum.Proto.Parse.{Parsed, short, failed, parsed, parse_in, consumed, drain, frame_of}
use horreum.Proto.Stream.{parse_in-parsed, parse_in-failed}

pub record Decoded : Type 0 where
  pub frames : List Frame
  pub stop : Option ProtoError
  pub left : Bytes

abbrev pub before : List Frame → Decoded → Decoded
before fs d = record { frames = fs ++ d.frames; stop = d.stop; left = d.left }

unfoldable pub decode_fuel : ℕ → Bytes → Decoded
decode_fuel zero w = record { frames = []; stop = none; left = w }
decode_fuel (suc n) w = elim (parse_in w) [
  | short ↦ record { frames = []; stop = none; left = w }
  | failed e ↦ record { frames = []; stop = some e; left = w }
  | parsed f ↦ before (f ∷ []) (decode_fuel n (drop (consumed f) w))
]

abbrev pub decode : Bytes → Decoded
decode w = decode_fuel (length w + 1) w

pub Parsed-cases :
    (p : Parsed)
    → (p ≡ short) ⊎ ((e : ProtoError) × (p ≡ failed e)) ⊎ ((f : Frame) × (p ≡ parsed f))
Parsed-cases short = inl refl
Parsed-cases (failed e) = inr (inl (e, refl))
Parsed-cases (parsed f) = inr (inr (f, refl))

module _ (n : ℕ) (w : Bytes) where
  fuel-short :
      parse_in w ≡ short → decode_fuel (suc n) w ≡ record { frames = []; stop = none; left = w }
  unfolding decode_fuel
  fuel-short e = rw (e, decode_fuel)

  fuel-failed :
      (x : ProtoError)
      → parse_in w ≡ failed x
      → decode_fuel (suc n) w ≡ record { frames = []; stop = some x; left = w }
  unfolding decode_fuel
  fuel-failed x e = rw (e, decode_fuel)

  pub fuel-parsed :
      (f : Frame)
      → parse_in w ≡ parsed f
      → decode_fuel (suc n) w ≡ before (f ∷ []) (decode_fuel n (drop (consumed f) w))
  unfolding decode_fuel
  fuel-parsed f e = rw (e, decode_fuel)

-- Fuel beyond the length changes nothing, and what is left is no longer than the stream.
pub fuel_enough :
    (n m : ℕ) (w : Bytes) → length w < n → length w < m → decode_fuel n w ≡ decode_fuel m w
fuel_enough zero m w h k = absurd (omega arith)
fuel_enough (suc n) zero w h k = absurd (omega arith)
fuel_enough (suc n) (suc m) w h k = elim (Parsed-cases (parse_in w)) [
  | inl e ↦ fuel-short n w e ∙ sym (fuel-short m w e)
  | inr r ↦ elim r [
    | inl (x, e) ↦ fuel-failed n w x e ∙ sym (fuel-failed m w x e)
    | inr (f, e) ↦
        fuel-parsed n w f e
        ∙ ap (before (f ∷ [])) (
            fuel_enough n m (drop (consumed f) w)
              (omega (arith, length-drop (consumed f) w, (parse_in-parsed w [] f e).1))
              (omega (arith, length-drop (consumed f) w, (parse_in-parsed w [] f e).1)))
        ∙ sym (fuel-parsed m w f e)
  ]
]

-- A stream that runs short goes on with what was left and the bytes that follow.
append_fuel :
    (m n : ℕ) (a b : Bytes)
    → length a < m
    → length (a ++ b) < n
    → (decode_fuel m a).stop ≡ none
    → decode_fuel n (a ++ b)
      ≡ before (decode_fuel m a).frames (decode ((decode_fuel m a).left ++ b))
append_fuel zero n a b h k s = absurd (omega arith)
append_fuel (suc m) zero a b h k s = absurd (omega arith)
append_fuel (suc m) (suc n) a b h k s = elim (Parsed-cases (parse_in a)) [
  | inl e ↦
      rw (fuel-short m a e) (fuel_enough (suc n) (length (a ++ b) + 1) (a ++ b) k (omega arith))
  | inr r ↦ elim r [
    | inl (x, e) ↦ cc (fuel-failed m a x e)
    | inr (f, e) ↦
        let c = consumed f in
        let (again, fits) = parse_in-parsed a b f e in
        let rest : drop c (a ++ b) ≡ drop c a ++ b = drop-append_le c a b fits in
        let ih =
          append_fuel m n (drop c a) b (omega (arith, length-drop c a))
            (omega (arith, length-append (drop c a) b, length-append a b, length-drop c a))
            (ap (λ (d : Decoded). d.stop) (sym (fuel-parsed m a f e)) ∙ s) in
        rw (fuel-parsed m a f e) (
          fuel-parsed n (a ++ b) f again
          ∙ ap (λ l. before (f ∷ []) (decode_fuel n l)) rest
          ∙ ap (before (f ∷ [])) ih)
  ]
]

-- An error ends the stream, whatever follows.
error_fuel :
    (m n : ℕ) (a b : Bytes) (x : ProtoError)
    → length a < m
    → length (a ++ b) < n
    → (decode_fuel m a).stop ≡ some x
    → ((decode_fuel n (a ++ b)).frames ≡ (decode_fuel m a).frames)
      × ((decode_fuel n (a ++ b)).stop ≡ some x)
error_fuel zero n a b x h k s = absurd (omega arith)
error_fuel (suc m) zero a b x h k s = absurd (omega arith)
error_fuel (suc m) (suc n) a b x h k s = elim (Parsed-cases (parse_in a)) [
  | inl e ↦ cc (fuel-short m a e)
  | inr r ↦ elim r [
    | inl (y, e) ↦
        ground (arith, fuel-failed m a y e, fuel-failed n (a ++ b) y (parse_in-failed a b y e))
    | inr (f, e) ↦
        let c = consumed f in
        let (again, fits) = parse_in-parsed a b f e in
        let rest : drop c (a ++ b) ≡ drop c a ++ b = drop-append_le c a b fits in
        let ih =
          error_fuel m n (drop c a) b x (omega (arith, length-drop c a))
            (omega (arith, length-append (drop c a) b, length-append a b, length-drop c a))
            (ap (λ (d : Decoded). d.stop) (sym (fuel-parsed m a f e)) ∙ s) in
        let step : decode_fuel (suc n) (a ++ b) ≡ before (f ∷ []) (decode_fuel n (drop c a ++ b)) =
          fuel-parsed n (a ++ b) f again ∙ ap (λ l. before (f ∷ []) (decode_fuel n l)) rest in
        rw (fuel-parsed m a f e, step) (ap (λ l. f ∷ l) ih.0, ih.1)
  ]
]

module _ (a b : Bytes) where
  -- A stream that goes on behind bytes without an error holds their frames, and then those of the
  -- bytes that they left over, followed by the rest.
  pub decode_append :
      (decode a).stop ≡ none
      → decode (a ++ b) ≡ before (decode a).frames (decode ((decode a).left ++ b))
  decode_append = append_fuel (length a + 1) (length (a ++ b) + 1) a b (omega arith) (omega arith)

  -- Behind an error nothing more is read, whatever follows.
  pub decode_append_error :
      (x : ProtoError)
      → (decode a).stop ≡ some x
      → ((decode (a ++ b)).frames ≡ (decode a).frames) × ((decode (a ++ b)).stop ≡ some x)
  decode_append_error x =
      error_fuel (length a + 1) (length (a ++ b) + 1) a b x (omega arith) (omega arith)

-- The loops of Feed compute it.
pub drain-eq-decode :
    (n off : ℕ) (w : Bytes)
    → record {
      frames = map frame_of (drain n off w).frames;
      stop = (drain n off w).stop;
      left = (drain n off w).left;
    }
      ≡ decode_fuel n w
unfolding drain decode_fuel
drain-eq-decode zero off w = refl
drain-eq-decode (suc n) off w = elim (Parsed-cases (parse_in w)) [
  | inl e ↦ rw (e, drain, decode_fuel)
  | inr r ↦ elim r [
    | inl (x, e) ↦ rw (e, drain, decode_fuel)
    | inr (f, e) ↦
        rw (e, drain, decode_fuel)
          (ap (before (f ∷ [])) (drain-eq-decode n (off + consumed f) (drop (consumed f) w)))
  ]
]

left_fuel :
    (n : ℕ) (w : Bytes)
    → length w < n
    → (decode_fuel n w).stop ≡ none
    → decode (decode_fuel n w).left
      ≡ record { frames = []; stop = none; left = (decode_fuel n w).left }
left_fuel zero w h s = absurd (omega arith)
left_fuel (suc n) w h s = elim (Parsed-cases (parse_in w)) [
  | inl e ↦ rw (fuel-short n w e) (
      fuel_enough (length w + 1) (suc (length w)) w (omega arith) (omega arith)
      ∙ fuel-short (length w) w e)
  | inr r ↦ elim r [
    | inl (x, e) ↦ cc (fuel-failed n w x e)
    | inr (f, e) ↦
        let fits = (parse_in-parsed w [] f e).1 in
        rw (fuel-parsed n w f e) (
          left_fuel n (drop (consumed f) w) (omega (arith, length-drop (consumed f) w))
            (ap (λ (d : Decoded). d.stop) (sym (fuel-parsed n w f e)) ∙ s))
  ]
]

-- What a stream without error leaves is an incomplete frame.
pub decode-left :
    (w : Bytes)
    → (decode w).stop ≡ none
    → decode (decode w).left ≡ record { frames = []; stop = none; left = (decode w).left }
decode-left w = left_fuel (length w + 1) w (omega arith)
