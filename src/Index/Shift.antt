-- ===== src/Index/Shift.antt =====
-- The loop of deleteAt in index.go closes the gap that a deletion leaves.
use horreum.Common.{
  ℕ, ◌<◌, ◌≤◌, ◌≡◌, ◌≢◌, ◌⊎◌, inl, inr, sym, ◌∙◌, ap, subst, true, false, Option, none, some, arith,
}
use horreum.Bytes.{Bytes}
use horreum.Index.{put_slot, moves}
use horreum.Index.Ring.{way, next}
use horreum.Index.Probe.{whether, way-next}

moves-true :
    (cap g c d : ℕ) → g < cap → c < cap → d < cap → moves g c d ≡ true → way cap d g < way cap d c
moves-true cap g c d i j k h = ground arith

moves-false :
    (cap g c d : ℕ)
    → g < cap
    → c < cap
    → d < cap
    → g ≢ c
    → moves g c d ≡ false
    → way cap d c ≤ way cap d g
moves-false cap g c d i j k n h = ground arith

-- A way through `g` that ends behind `c` passes `c` too, if `c` is the first of the two from `g` on.
crossing :
    (cap d g c p : ℕ)
    → d < cap
    → g < cap
    → c < cap
    → p < cap
    → 1 ≤ way cap g c
    → way cap g c ≤ way cap g p
    → way cap d g < way cap d p
    → p ≢ c
    → way cap d c < way cap d p
crossing cap d g c p i j k l b far less other = ground arith

ahead_step :
    (cap g c w : ℕ)
    → g < cap
    → c < cap
    → w < cap
    → c ≢ w
    → 1 ≤ way cap g c
    → way cap g c ≤ way cap g w
    → (way cap g (next cap c) ≤ way cap g w) × (1 ≤ way cap g (next cap c))
ahead_step cap g c w i j k n b far = (ground arith, ground arith)

pub one_step :
    (cap c w : ℕ) → c < cap → w < cap → c ≢ w → (way cap c (next cap c) ≡ 1) × (1 ≤ way cap c w)
one_step cap c w i j n = ground arith

module _ {E : Type 0} (home : E → ℕ) (key_of : E → Bytes) (cap : ℕ) where
  -- The entry stands somewhere in the table.
  abbrev pub Held : (ℕ → Option E) → E → Type 0
  Held slots e = (p : ℕ) × (p < cap) × (slots p ≡ some e)

  -- Every slot on the way from an entry's home to the entry is taken.
  abbrev pub Clear : (ℕ → Option E) → Type 0
  Clear slots =
      (p q : ℕ) (e : E)
      → p < cap
      → q < cap
      → slots p ≡ some e
      → way cap (home e) q < way cap (home e) p
      → slots q ≢ none

  abbrev pub Distinct : (ℕ → Option E) → Type 0
  Distinct slots =
      (p q : ℕ) (e f : E)
      → p < cap
      → q < cap
      → slots p ≡ some e
      → slots q ≡ some f
      → key_of e ≡ key_of f
      → p ≡ q

  -- A gap at `g`, with the walk at `c` and another free slot `w` ahead: the gap is in nobody's way
  -- but that of entries that the walk has not reached.
  pub record Gap (slots : ℕ → Option E) (g c w : ℕ) : Type 0 where
    pub gap_inside : g < cap
    pub walk_inside : c < cap
    pub free_inside : w < cap
    pub gap : slots g ≡ none
    pub free : slots w ≡ none
    pub behind : 1 ≤ way cap g c
    pub ahead : way cap g c ≤ way cap g w
    pub clear :
        (p q : ℕ) (e : E)
        → p < cap
        → q < cap
        → slots p ≡ some e
        → way cap (home e) q < way cap (home e) p
        → (slots q ≢ none) ⊎ ((q ≡ g) × (way cap g c ≤ way cap g p))
    pub distinct : Distinct slots

  module _ (homes : (e : E) → home e < cap) (slots : ℕ → Option E) (g c w : ℕ)
      (gp : Gap slots g c w) where
    -- The walk is at a free slot: the table is clear.
    pub Gap-done : slots c ≡ none → Clear slots
    Gap-done here p q e hp hq s less = elim (gp.clear p q e hp hq s less) [
      | inl taken ↦ taken
      | inr (at_gap, far) ↦ λ t. elim (whether p c) [
        | inl same ↦ absurd (ground (arith, ap slots same, here, s))
        | inr other ↦
            elim (gp.clear p c e hp gp.walk_inside s (
              crossing cap (home e) g c p (homes e) gp.gap_inside gp.walk_inside hp gp.behind far
                (subst (λ k. way cap (home e) k < way cap (home e) p) at_gap less) other)) [
                  | inl taken ↦ taken here
                  | inr (cg, far2) ↦ absurd (ground (arith, cg, gp.behind))
                ]
      ]
    ]

    module _ (e : E) (here : slots c ≡ some e) where
      w_other : c ≢ w
      w_other same = absurd (ground (arith, ap slots same, here, gp.free))

      gap_other : g ≢ c
      gap_other same = absurd (ground (arith, ap slots same, here, gp.gap))

      pub Gap-kept : moves g c (home e) ≡ false → Gap slots g (next cap c) w
      Gap-kept stay = record {
        gap_inside = gp.gap_inside;
        walk_inside = (way-next cap c w gp.walk_inside gp.free_inside w_other).1;
        free_inside = gp.free_inside;
        gap = gp.gap;
        free = gp.free;
        behind = step.1;
        ahead = step.0;
        clear = λ p q f hp hq s less. elim (gp.clear p q f hp hq s less) [
          | inl taken ↦ inl taken
          | inr (at_gap, far) ↦ elim (whether c p) [
            | inl same ↦ absurd (ground (arith, less, at_gap, same, out_of_way p f same s))
            | inr other ↦ inr (
              at_gap,
              (ahead_step cap g c p gp.gap_inside gp.walk_inside hp other gp.behind far).0,
            )
          ]
        ];
        distinct = gp.distinct;
      }
        where
          step : (way cap g (next cap c) ≤ way cap g w) × (1 ≤ way cap g (next cap c))
          step =
              ahead_step cap g c w gp.gap_inside gp.walk_inside gp.free_inside w_other gp.behind
                gp.ahead

          out_of_way :
              (p : ℕ) (f : E) → c ≡ p → slots p ≡ some f → way cap (home f) c ≤ way cap (home f) g
          out_of_way p f same s =
              let ee : some e ≡ some f = sym here ∙ ap slots same ∙ s in
              subst
                (λ o. elim o [ none ↦ Unit {0} | some h ↦ way cap (home h) c ≤ way cap (home h) g ])
                ee
                (moves-false cap g c (home e) gp.gap_inside gp.walk_inside (homes e) gap_other stay)

      abbrev pub moved : ℕ → Option E
      moved = put_slot c none (put_slot g (some e) slots)

      pub Gap-moved : moves g c (home e) ≡ true → Gap moved c (next cap c) w
      Gap-moved go = record {
        gap_inside = gp.walk_inside;
        walk_inside = (way-next cap c w gp.walk_inside gp.free_inside w_other).1;
        free_inside = gp.free_inside;
        gap = ground arith;
        free = ground (arith, gp.free, w_other, w_gap);
        behind = omega (arith, one.0);
        ahead = omega (arith, one.0, one.1);
        clear = λ p q f hp hq s less. elim (whether q c) [
          | inl at_c ↦
              inr (at_c, omega (arith, one.0, (one_step cap c p gp.walk_inside hp (not_c p f s)).1))
          | inr off_c ↦ inl (λ t. elim (whether q g) [
            | inl at_g ↦ absurd (ground (arith, t, at_g, gap_other))
            | inr off_g ↦ elim (origin p f hp s) [
              | inl (at_g, same) ↦
                  elim (gp.clear c q e gp.walk_inside hq here (longer f q p at_g same less)) [
                    | inl taken ↦ taken (ground (arith, t, off_c, off_g))
                    | inr (k, _) ↦ absurd (off_g k)
                  ]
              | inr (old, _) ↦ elim (gp.clear p q f hp hq old less) [
                | inl taken ↦ taken (ground (arith, t, off_c, off_g))
                | inr (k, _) ↦ absurd (off_g k)
              ]
            ]
          ])
        ];
        distinct = λ p q f h hp hq s t same. elim (origin p f hp s) [
          | inl (pg, fe) ↦ elim (origin q h hq t) [
            | inl (qg, _) ↦ pg ∙ sym qg
            | inr (old, off_c) ↦
                absurd
                  (off_c (gp.distinct q c h e hq gp.walk_inside old here (sym same ∙ ap key_of fe)))
          ]
          | inr (old, off_c) ↦ elim (origin q h hq t) [
            | inl (_, he) ↦
                absurd
                  (off_c (gp.distinct p c f e hp gp.walk_inside old here (same ∙ ap key_of he)))
            | inr (old2, _) ↦ gp.distinct p q f h hp hq old old2 same
          ]
        ];
      }
        where
          not_c : (p : ℕ) (f : E) → moved p ≡ some f → c ≢ p
          not_c p f s same = absurd (ground (arith, s, same))

          -- Where an entry of the new table stood.
          origin :
              (p : ℕ) (f : E)
              → p < cap
              → moved p ≡ some f
              → ((p ≡ g) × (f ≡ e)) ⊎ ((slots p ≡ some f) × (p ≢ c))
          origin p f hp s = elim (whether p c) [
            | inl at_c ↦ absurd (ground (arith, s, at_c))
            | inr off_c ↦ elim (whether p g) [
              | inl at_g ↦ inl (at_g, ground (arith, s, at_g, gap_other, off_c))
              | inr off_g ↦ inr (ground (arith, s, off_c, off_g), off_c)
            ]
          ]

          longer :
              (f : E) (q p : ℕ)
              → p ≡ g
              → f ≡ e
              → way cap (home f) q < way cap (home f) p
              → way cap (home e) q < way cap (home e) c
          longer f q p at_g same less =
              let far = moves-true cap g c (home e) gp.gap_inside gp.walk_inside (homes e) go in
              let less2 : way cap (home e) q < way cap (home e) g =
                subst (λ k. way cap (home e) q < way cap (home e) k) at_g
                  (subst (λ k. way cap (home k) q < way cap (home k) p) same less) in
              omega (arith, far, less2)

          one : (way cap c (next cap c) ≡ 1) × (1 ≤ way cap c w)
          one = one_step cap c w gp.walk_inside gp.free_inside w_other

          w_gap : w ≢ g
          w_gap same = absurd (ground (arith, same, gp.behind, gp.ahead))
