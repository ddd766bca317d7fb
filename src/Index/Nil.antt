-- ===== src/Index/Nil.antt =====
-- Put of index.go with a nil key that the table does not hold: the same as with an empty key.
use horreum.Common.{ℕ, ◌*◌, ◌<◌, ◌≡◌, ◌⊎◌, inl, inr, ◌∙◌, true, false, none, [], arith, leb}
use horreum.Index.{HashIndex, put, place, put_nested, put_nil, place_nil}
use horreum.Index.Table.{IsTable, view, walk_to-cases, view-Has}
use horreum.Index.Grow.{put_all-grows}

module _ {H : Type 0} (hd : H) (x : ℕ) where
  place_nil-place :
      (h : HashIndex H) → IsTable h → view h [] ≡ none → place_nil h hd x ≡ place h [] hd x
  unfolding place_nil place
  place_nil-place h t absent = elim (walk_to-cases h t []) [
    | inl (w, r, _, _) ↦ ground (arith, r)
    | inr (p, e, r, hp, s, same) ↦
        absurd (ground (arith, absent, view-Has h t e [] (p, hp, s) same))
  ]

  pub put_nil-put :
      (h : HashIndex H) → IsTable h → view h [] ≡ none → put_nil h hd x ≡ put h [] hd x
  unfolding put_nil put put_nested
  put_nil-put h t absent = elim (load (h.cap * 3) (h.count * 4)) [
    | inr low ↦ ground (arith, low.1, place_nil-place h t absent)
    | inl high ↦
        let (g, run, tg, _, _, same) = put_all-grows h t 1 in
        ground (arith, high, run, place_nil-place g tg (same [] ∙ absent))
  ]
    where
      load : (a b : ℕ) → (leb a b ≡ true) ⊎ ((b < a) × (leb a b ≡ false))
      load a b = ground arith
