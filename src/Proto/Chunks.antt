-- ===== src/Proto/Chunks.antt =====
-- A connection's stream through Feed, chunk by chunk, and the frames that a call overwrites.
use horreum.Common.{
  ℕ, suc, ◌+◌, ◌<◌, ◌≤◌, ◌^◌, ◌≡◌, refl, sym, ◌∙◌, ap, ap₂, false, Option, none, some, List, [],
  ◌∷◌, ◌++◌, arith, length, drop, length-append, append-nil, append_assoc, Option-cases, inl, inr,
  subst,
}
use horreum.Bytes.{Bytes, put_uint16, put_uint32}
use horreum.Bytes.Window.{drop-append}
use horreum.Proto.{Frame, ProtoError, max_frame_size, OpCode}
use horreum.Proto.Encode.{encode_response}
use horreum.Proto.Parse.{consumed, Parser, Fed, feed}
use horreum.Proto.Frames.{parse_in-encode_response}
use horreum.Proto.Decode.{
  decode, decode_fuel, before, decode_append, decode_append_error, decode-left, fuel_enough,
  fuel-parsed,
}
use horreum.Proto.Feed.{overwrites, Faithful, feed-Faithful}

-- The bytes of the frames, one after another.
abbrev pub encode_all : List Frame → Bytes
encode_all [] = []
encode_all (f ∷ fs) = encode_response [] f.op f.flags f.key f.value ++ encode_all fs

-- The key's length fits its field and the frame the limit.
abbrev pub Fit : List Frame → Type 0
Fit [] = Unit
Fit (f ∷ fs) =
    (length f.key < 2 ^ 16) × (10 + length f.key + length f.value ≤ max_frame_size) × Fit fs

pub length-encode_response :
    (op : OpCode) (status : ℕ) (key value : Bytes)
    → length (encode_response [] op status key value) ≡ 10 + length key + length value
unfolding encode_response put_uint16 put_uint32
length-encode_response op status key value = omega (arith, length-append key value)

-- One frame in front of a stream.
decode-cons :
    (f : Frame) (rest : Bytes)
    → Fit (f ∷ [])
    → decode (encode_response [] f.op f.flags f.key f.value ++ rest) ≡ before (f ∷ []) (decode rest)
decode-cons f rest h =
    fuel_enough (length w + 1) (suc (length w)) w (omega arith) (omega arith)
    ∙ fuel-parsed (length w) w f (parse_in-encode_response f.op f.key f.value rest f.flags h.0 h.1)
    ∙ ap (λ l. before (f ∷ []) (decode_fuel (length w) l)) cut
    ∙ ap (before (f ∷ [])) (fuel_enough (length w) (length rest + 1) rest room (omega arith))
  where
    e : Bytes
    e = encode_response [] f.op f.flags f.key f.value

    w : Bytes
    w = e ++ rest

    width : length e ≡ consumed f
    width = length-encode_response f.op f.flags f.key f.value

    cut : drop (consumed f) w ≡ rest
    cut = ap (λ n. drop n w) (sym width) ∙ drop-append e rest

    room : length rest < length w
    room = omega (arith, width, length-append e rest)

-- A stream of encoded frames, followed by anything, holds these frames and then what follows.
pub decode-encode_all :
    (fs : List Frame) (rest : Bytes)
    → Fit fs
    → decode (encode_all fs ++ rest) ≡ before fs (decode rest)
decode-encode_all [] rest h = refl
decode-encode_all (f ∷ fs) rest h =
    ap decode (append_assoc (encode_response [] f.op f.flags f.key f.value) (encode_all fs) rest)
    ∙ decode-cons f (encode_all fs ++ rest) (h.0, h.1, tt)
    ∙ ap (before (f ∷ [])) (decode-encode_all fs rest h.2)

-- A connection: Feed on one chunk after another, until an error drops it.
module _ (grow : ℕ → ℕ → ℕ) where
  abbrev resumed : List Frame → Fed → Fed
  resumed fs r = record { frames = fs ++ r.frames; error = r.error; parser = r.parser }

  pub feed_all : Parser → List Bytes → Fed
  feed_all p [] = record { frames = []; error = none; parser = p }
  feed_all p (c ∷ cs) =
      let r = feed grow p c in
      let rest = resumed r.frames (feed_all r.parser cs) in
      elim r.error [ some e ↦ r | none ↦ rest ]

  -- No call overwrites the frames that it returns.
  abbrev pub Quiet : Parser → List Bytes → Type 0
  Quiet p [] = Unit
  Quiet p (c ∷ cs) = (overwrites grow p c ≡ false) × Quiet (feed grow p c).parser cs

abbrev pub concat : List Bytes → Bytes
concat [] = []
concat (c ∷ cs) = c ++ concat cs

module _ (grow : ℕ → ℕ → ℕ) where
  -- However a stream is cut into chunks, a connection on which no call of Feed moves left-over bytes
  -- over the key or the value of a frame that it returns delivers the frames of the stream up to its
  -- first error, and stops with that error. The bytes that the parser holds at the start, if any,
  -- are an incomplete frame.
  pub feed_all-eq-decode :
      (p : Parser) (cs : List Bytes)
      → Quiet grow p cs
      → decode p.pending ≡ record { frames = []; stop = none; left = p.pending }
      → ((feed_all grow p cs).frames ≡ (decode (p.pending ++ concat cs)).frames)
        × ((feed_all grow p cs).error ≡ (decode (p.pending ++ concat cs)).stop)
  unfolding feed_all
  feed_all-eq-decode p [] q idle = rw (append-nil p.pending, idle) (refl, refl)
  feed_all-eq-decode p (c ∷ cs) q idle =
      rw (← append_assoc p.pending c (concat cs)) (elim (Option-cases r.error) [
        | inl e ↦
            let stop : (decode w).stop ≡ none = sym t.error ∙ e in
            let held : r.parser.pending ≡ (decode w).left =
              t.pending
              ∙ ap (λ (o : Option ProtoError). elim o [ none ↦ (decode w).left | some x ↦ [] ])
                  stop in
            let (fs, er) =
              feed_all-eq-decode r.parser cs q.1 (subst Idle (sym held) (decode-left w stop)) in
            let later : decode (w ++ concat cs)
                ≡ before (decode w).frames (decode (r.parser.pending ++ concat cs)) =
              decode_append w (concat cs) stop
              ∙ ap (λ l. before (decode w).frames (decode (l ++ concat cs))) (sym held) in
            rw (later, e, feed_all) (ap₂ ◌++◌ t.frames fs, er)
        | inr (x, e) ↦
            let (fs, er) = decode_append_error w (concat cs) x (sym t.error ∙ e) in
            rw (e, feed_all, fs, er) (t.frames, e)
      ])
    where
      r : Fed
      r = feed grow p c

      w : Bytes
      w = p.pending ++ c

      t : Faithful (decode w) r
      t = feed-Faithful grow p c q.0

      Idle : Bytes → Type 0
      Idle l = decode l ≡ record { frames = []; stop = none; left = l }
