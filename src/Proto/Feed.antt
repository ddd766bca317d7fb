-- ===== src/Proto/Feed.antt =====
-- Feed against the stream that it parses, and the bytes that its compaction overwrites.
use horreum.Common.{
  ℕ, zero, suc, ◌+◌, ◌-◌, ◌/◌, ◌≤◌, ◌≡◌, inl, inr, refl, sym, ◌∙◌, ap, ap₂, Bool, false, none, some,
  [], ◌∷◌, ◌++◌, map, arith, length, drop, take, length-drop, length-take, ltb, ◌==◌, not, ◌&&◌,
  ◌||◌, List, subst, ◌≢◌, Bool-cases,
}
use horreum.Bytes.{Bytes, slice, get_uint16, get_uint32}
use horreum.Bytes.Window.{drop-drop, drop-append}
use horreum.Proto.{Frame, header_size}
use horreum.Proto.Parse.{
  parsed, parse_in, consumed, drain, drain_all, frame_of, view_in, Parser, Fed, feed, feed_fresh,
  feed_pending, append_capacity,
}
use horreum.Proto.Decode.{Decoded, decode, Parsed-cases, drain-eq-decode}

-- The views of a parsed frame are the bytes behind its header.
parse_in-views :
    (w : Bytes) (f : Frame)
    → parse_in w ≡ parsed f
    → (slice w 10 (10 + length f.key) ≡ f.key)
      × (slice w (10 + length f.key) (10 + length f.key + length f.value) ≡ f.value)
unfolding parse_in
parse_in-views w f e =
    let k = get_uint16 (drop 4 w) in
    let v = get_uint32 (drop 6 w) in
    ground (
      arith,
      length-take k (drop 10 w),
      length-drop 10 w,
      length-take v (drop (10 + k) w),
      length-drop (10 + k) w,
    )

-- A frame shows the same bytes in every array that agrees with its buffer behind the header.
view_in-same :
    (arr w : Bytes) (off : ℕ) (f : Frame)
    → parse_in w ≡ parsed f
    → drop (off + 10) arr ≡ drop 10 w
    → view_in arr (off, f) ≡ f
view_in-same arr w off f e same =
    let k = length f.key in
    let v = length f.value in
    let views = parse_in-views w f e in
    let wk : off + 10 + k - (off + 10) ≡ 10 + k - 10 = omega arith in
    let wv : off + 10 + k + v - (off + 10 + k) ≡ 10 + k + v - (10 + k) = omega arith in
    let key : slice arr (off + 10) (off + 10 + k) ≡ f.key = ap₂ take wk same ∙ views.0 in
    let later : drop (off + 10 + k) arr ≡ drop (10 + k) w =
      sym (drop-drop (off + 10) k arr) ∙ ap (drop k) same ∙ drop-drop 10 k w in
    let value : slice arr (off + 10 + k) (off + 10 + k + v) ≡ f.value =
      ap₂ take wv later ∙ views.1 in
    λ i. record f { key = key i; value = value i }

-- `arr` shows the bytes of `w`, which stands at `off`, from its position `n` on.
abbrev Shows : ℕ → Bytes → ℕ → Bytes → Type 0
Shows n arr off w = (j : ℕ) → n ≤ off + j → drop (off + j) arr ≡ drop j w

Shows-drop :
    (n : ℕ) (arr : Bytes) (off : ℕ) (w : Bytes) (c : ℕ)
    → Shows n arr off w
    → Shows n arr (off + c) (drop c w)
Shows-drop n arr off w c s j h =
    let e : off + c + j ≡ off + (c + j) = omega arith in
    ap (λ k. drop k arr) e ∙ s (c + j) (omega (arith, h)) ∙ sym (drop-drop c j w)

-- One of the views of the frame at `off` reaches into the first `n` bytes of its array.
abbrev pub touched : ℕ → ℕ × Frame → Bool
touched n (off, f) = ltb 0 (length f.key + length f.value) && ltb (off + header_size) n

abbrev pub any_touched : ℕ → List (ℕ × Frame) → Bool
any_touched n [] = false
any_touched n (x ∷ xs) = touched n x || any_touched n xs

slice_nothing : (arr : Bytes) (a : ℕ) (x : Bytes) → length x ≡ 0 → slice arr a (a + length x) ≡ x
slice_nothing arr a [] h =
    let width : a + 0 - a ≡ 0 = omega arith in ap (λ k. take k (drop a arr)) width
slice_nothing arr a (y ∷ x) h = absurd (omega (arith, h))

-- A frame that no byte before `n` belongs to.
view_in-untouched :
    (n : ℕ) (arr w : Bytes) (off : ℕ) (f : Frame)
    → parse_in w ≡ parsed f
    → Shows n arr off w
    → touched n (off, f) ≡ false
    → view_in arr (off, f) ≡ f
view_in-untouched n arr w off f e s quiet = elim (Bool-cases (ltb (off + 10) n)) [
  | inr behind ↦ view_in-same arr w off f e (s 10 (ground (arith, behind)))
  | inl before ↦
      let (no_key, no_value) : (length f.key ≡ 0) × (length f.value ≡ 0) =
        ground (arith, quiet, before) in
      let key = slice_nothing arr (off + 10) f.key no_key in
      let value = slice_nothing arr (off + 10 + length f.key) f.value no_value in
      λ i. record f { key = key i; value = value i }
]

views-drain :
    (m n off : ℕ) (w arr : Bytes)
    → Shows m arr off w
    → any_touched m (drain n off w).frames ≡ false
    → map (view_in arr) (drain n off w).frames ≡ map frame_of (drain n off w).frames
unfolding drain
views-drain m zero off w arr s quiet = refl
views-drain m (suc n) off w arr s quiet = elim (Parsed-cases (parse_in w)) [
  | inl e ↦ rw (e, drain)
  | inr r ↦ elim r [
    | inl (x, e) ↦ rw (e, drain)
    | inr (f, e) ↦
        let (first, later) : (touched m (off, f) ≡ false)
            × (any_touched m (drain n (off + consumed f) (drop (consumed f) w)).frames ≡ false) =
          ground (arith, quiet, e) in
        let ih =
          views-drain m n (off + consumed f) (drop (consumed f) w) arr
            (Shows-drop m arr off w (consumed f) s) later in
        rw (e, drain) (ap₂ ◌∷◌ (view_in-untouched m arr w off f e s first) ih)
  ]
]

-- Moving the last bytes of a buffer to its front spares what stands behind them.
Shows-slid : (work left : Bytes) → Shows (length left) (left ++ drop (length left) work) 0 work
Shows-slid work left j h =
    let n = length left in
    let e : 0 + j ≡ n + (j - n) = omega (arith, h) in
    let e' : n + (j - n) ≡ j = omega (arith, h) in
    ap (λ i. drop i (left ++ drop n work)) e
    ∙ sym (drop-drop n (j - n) (left ++ drop n work))
    ∙ ap (drop (j - n)) (drop-append left (drop n work))
    ∙ drop-drop n (j - n) work
    ∙ ap (λ i. drop i work) e'

-- The call ends with bytes left over, and moves them over a byte of a view that it returns.
unfoldable pub overwrites : (ℕ → ℕ → ℕ) → Parser → Bytes → Bool
overwrites grow p buf =
    let work = p.pending ++ buf in
    let cap = append_capacity grow p.capacity (length work) in
    let d = drain_all work in
    let over = ltb (length d.left) (cap / 2) && any_touched (length d.left) d.frames in
    not (length p.pending == 0) && (elim d.stop [ some e ↦ false | none ↦ over ])

-- What Feed should do with the bytes that it holds and those that come.
pub record Faithful (d : Decoded) (r : Fed) : Type 0 where
  pub frames : r.frames ≡ d.frames
  pub error : r.error ≡ d.stop
  pub pending : r.parser.pending ≡ (elim d.stop [ none ↦ d.left | some e ↦ [] ])

-- The parts of what the loops leave are those of the stream.
pub record Matches (w : Bytes) : Type 0 where
  pub frames : map frame_of (drain_all w).frames ≡ (decode w).frames
  pub stop : (drain_all w).stop ≡ (decode w).stop
  pub left : (drain_all w).left ≡ (decode w).left

pub Matches-of : (w : Bytes) → Matches w
Matches-of w =
    let e = drain-eq-decode (length w + 1) 0 w in
    record {
      frames = ap (λ (d : Decoded). d.frames) e;
      stop = ap (λ (d : Decoded). d.stop) e;
      left = ap (λ (d : Decoded). d.left) e;
    }

nil_of_length : (w : Bytes) → length w ≡ 0 → w ≡ []
nil_of_length [] h = refl
nil_of_length (x ∷ w) h = absurd (omega arith)

module _ (grow : ℕ → ℕ → ℕ) (p : Parser) (buf : Bytes) where
  fresh-Faithful : p.pending ≡ [] → Faithful (decode buf) (feed_fresh grow p buf)
  unfolding feed_fresh
  fresh-Faithful e =
      let m = Matches-of buf in
      record {
        frames = ground (arith, m);
        error = ground (arith, m);
        pending = ground (arith, m, e, nil_of_length (drain_all buf).left);
      }

  moved :
      any_touched (length (drain_all (p.pending ++ buf)).left) (drain_all (p.pending ++ buf)).frames
        ≡ false
      → map
          (view_in (
            (drain_all (p.pending ++ buf)).left
            ++ drop (length (drain_all (p.pending ++ buf)).left) (p.pending ++ buf)))
          (drain_all (p.pending ++ buf)).frames
        ≡ map frame_of (drain_all (p.pending ++ buf)).frames
  moved quiet =
      views-drain (length (drain_all (p.pending ++ buf)).left) (length (p.pending ++ buf) + 1) 0
        (p.pending ++ buf) _ (Shows-slid (p.pending ++ buf) (drain_all (p.pending ++ buf)).left)
        quiet

  pending-Faithful :
      length p.pending ≢ 0
      → overwrites grow p buf ≡ false
      → Faithful (decode (p.pending ++ buf)) (feed_pending grow p buf)
  unfolding feed_pending overwrites
  pending-Faithful ne quiet =
      let m = Matches-of (p.pending ++ buf) in
      record {
        frames = ground (arith, m, moved);
        error = ground (arith, m);
        pending = ground (arith, m, nil_of_length (drain_all (p.pending ++ buf)).left);
      }

  -- A call of Feed that moves no left-over bytes over the key or the value of a frame that it returns
  -- returns the frames of the bytes held and the bytes that came, the error that ends them, and
  -- holds what was not consumed.
  pub feed-Faithful :
      overwrites grow p buf ≡ false → Faithful (decode (p.pending ++ buf)) (feed grow p buf)
  unfolding feed
  feed-Faithful quiet = elim (Bool-cases (length p.pending == 0)) [
    | inl e ↦
        let nil = nil_of_length p.pending (ground (arith, e)) in
        rw (e, feed)
          (subst (λ l. Faithful (decode (l ++ buf)) (feed_fresh grow p buf)) (sym nil)
            (fresh-Faithful nil))
    | inr e ↦ rw (e, feed) (pending-Faithful (ground (arith, e)) quiet)
  ]
