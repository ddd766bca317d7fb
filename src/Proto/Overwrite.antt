-- ===== src/Proto/Overwrite.antt =====
-- What a caller of Feed sees when the compaction writes over the frames of the call.
use horreum.Common.{ℕ, ◌+◌, ◌≤◌, ◌≡◌, refl, true, none, List, ◌∷◌, ◌++◌, map, arith, length, drop}
use horreum.Bytes.{Bytes, slice}
use horreum.Bytes.Window.{slice-append}
use horreum.Proto.{Frame}
use horreum.Proto.Parse.{drain_all, view_in, Parser, feed, feed_pending}
use horreum.Proto.Feed.{overwrites}

module _ (grow : ℕ → ℕ → ℕ) (p : Parser) (buf : Bytes) where
  abbrev work : Bytes
  work = p.pending ++ buf

  -- If a call of Feed without error moves left-over bytes over the key or the value of a frame that
  -- it returns, and the key of its first frame ends before the
  -- length of the bytes left over, then the caller reads those bytes as the key of that frame.
  pub feed-overwritten :
      (f : Frame) (xs : List (ℕ × Frame))
      → overwrites grow p buf ≡ true
      → (drain_all work).stop ≡ none
      → (drain_all work).frames ≡ (0, f) ∷ xs
      → 10 + length f.key ≤ length (drain_all work).left
      → (g : Frame) × (gs : List Frame) × ((feed grow p buf).frames ≡ g ∷ gs)
        × (g.key ≡ slice (drain_all work).left 10 (10 + length f.key))
        × (g.op ≡ f.op)
  unfolding feed feed_pending overwrites
  feed-overwritten f xs o s e fits = (
    view_in slid (0, f),
    map (view_in slid) xs,
    ground (arith, o, s, e),
    slice-append 10 (10 + length f.key) left (drop (length left) work) (omega arith) fits,
    refl,
  )
    where
      left : Bytes
      left = (drain_all work).left

      slid : Bytes
      slid = left ++ drop (length left) work
