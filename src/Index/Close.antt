-- ===== src/Index/Close.antt =====
-- deleteAt in index.go keeps every other entry, in a table without a gap.
use horreum.Common.{
  ℕ, zero, suc, ◌+◌, ◌<◌, ◌≤◌, ◌≡◌, ◌≢◌, inl, inr, refl, ◌∙◌, ap, Option, none, some, arith,
  Bool-cases, Option-cases,
}
use horreum.Bytes.{Bytes}
use horreum.Index.Rounds.{returns}
use horreum.Index.{put_slot, moves, shift_back}
use horreum.Index.Ring.{way, next, next_is}
use horreum.Index.Probe.{whether, way-next}
use horreum.Index.Shift.{Held, Clear, Distinct, Gap, Gap-done, Gap-kept, Gap-moved}

module _ {E : Type 0} where
  abbrev pub one : Option E → ℕ
  one none = 0
  one (some e) = 1

  -- The number of taken slots below `n`.
  abbrev pub occupied : ℕ → (ℕ → Option E) → ℕ
  occupied zero slots = 0
  occupied (suc n) slots = occupied n slots + one (slots n)

  occupied-above :
      (n i : ℕ) (v : Option E) (slots : ℕ → Option E)
      → n ≤ i
      → occupied n (put_slot i v slots) ≡ occupied n slots
  occupied-above zero i v slots h = refl
  occupied-above (suc n) i v slots h =
      let here : put_slot i v slots n ≡ slots n = ground (arith, h) in
      omega (arith, occupied-above n i v slots (omega arith), ap one here)

  -- A taken slot is counted.
  pub occupied-some :
      (n p : ℕ) (e : E) (slots : ℕ → Option E) → p < n → slots p ≡ some e → 1 ≤ occupied n slots
  occupied-some zero p e slots h s = absurd (omega (arith, h))
  occupied-some (suc n) p e slots h s = elim (whether p n) [
    | inl same ↦ omega (arith, ap one s, ap (λ k. one (slots k)) same)
    | inr other ↦ omega (arith, occupied-some n p e slots (omega (arith, h, other)) s)
  ]

  pub occupied-put :
      (n i : ℕ) (v : Option E) (slots : ℕ → Option E)
      → i < n
      → occupied n (put_slot i v slots) + one (slots i) ≡ occupied n slots + one v
  occupied-put zero i v slots h = absurd (omega arith)
  occupied-put (suc n) i v slots h = elim (whether n i) [
    | inl same ↦
        let here : put_slot i v slots n ≡ v = ground (arith, same) in
        omega (
          arith,
          occupied-above n i v slots (omega (arith, same)),
          ap one here,
          ap (λ k. one (slots k)) same,
        )
    | inr other ↦
        let here : put_slot i v slots n ≡ slots n = ground (arith, other) in
        omega (arith, occupied-put n i v slots (omega (arith, other, h)), ap one here)
  ]

  -- Fewer taken slots than slots: one is free.
  pub vacancy :
      (n : ℕ) (slots : ℕ → Option E) → occupied n slots < n → (v : ℕ) × (v < n) × (slots v ≡ none)
  vacancy zero slots h = absurd (omega arith)
  vacancy (suc n) slots h = elim (Option-cases (slots n)) [
    | inl free ↦ (n, omega arith, free)
    | inr (e, here) ↦
        let (v, less, free) = vacancy n slots (omega (arith, ap one here, h)) in
        (v, omega (arith, less), free)
  ]

module _ {E : Type 0} (home : E → ℕ) (key_of : E → Bytes) (cap : ℕ) where
  -- The table `after` has the entries of `before`, and no gap.
  pub record Closed (before after : ℕ → Option E) : Type 0 where
    pub kept : (e : E) → Held home key_of cap before e → Held home key_of cap after e
    pub only : (e : E) → Held home key_of cap after e → Held home key_of cap before e
    pub clear : Clear home key_of cap after
    pub distinct : Distinct home key_of cap after
    pub counted : occupied cap after ≡ occupied cap before

  abbrev moved : (ℕ → Option E) → (g c : ℕ) → E → ℕ → Option E
  moved slots g c e = put_slot c none (put_slot g (some e) slots)

  -- A move of one entry into the gap changes neither the entries nor their number.
  record Moved (slots after : ℕ → Option E) : Type 0 where
    kept : (e : E) → Held home key_of cap slots e → Held home key_of cap after e
    only : (e : E) → Held home key_of cap after e → Held home key_of cap slots e
    counted : occupied cap after ≡ occupied cap slots

  move :
      (slots : ℕ → Option E) (g c : ℕ) (e : E)
      → g < cap
      → c < cap
      → slots g ≡ none
      → slots c ≡ some e
      → Moved slots (moved slots g c e)
  move slots g c e gi ci gap here = record {
    kept = λ f (p, hp, s). elim (whether p c) [
      | inl at_c ↦ (g, gi, ground (arith, s, at_c, ap slots at_c, here, apart))
      | inr off_c ↦ elim (whether p g) [
        | inl at_g ↦ absurd (ground (arith, ap slots at_g, s, gap))
        | inr off_g ↦ (p, hp, ground (arith, s, off_c, off_g))
      ]
    ];
    only = λ f (p, hp, s). elim (whether p c) [
      | inl at_c ↦ absurd (ground (arith, s, at_c))
      | inr off_c ↦ elim (whether p g) [
        | inl at_g ↦ (c, ci, ground (arith, s, at_g, apart, here, off_c))
        | inr off_g ↦ (p, hp, ground (arith, s, off_c, off_g))
      ]
    ];
    counted = omega (
      arith,
      occupied-put cap c none (put_slot g (some e) slots) ci,
      occupied-put cap g (some e) slots gi,
      ap one gap,
      ap one there,
    );
  }
    where
      apart : g ≢ c
      apart same = absurd (ground (arith, ap slots same, here, gap))

      there : put_slot g (some e) slots c ≡ some e
      there = ground (arith, here, apart)

  module _ (homes : (e : E) → home e < cap) where
    pub shift-Closed :
        (n : ℕ) (slots : ℕ → Option E) (g c w : ℕ)
        → Gap home key_of cap slots g c w
        → way cap c w < n
        → (after : ℕ → Option E) × (shift_back home cap n slots g c ≡ returns after)
          × Closed slots after
    unfolding shift_back
    shift-Closed zero slots g c w gp less = absurd (omega arith)
    shift-Closed (suc n) slots g c w gp less = elim (Option-cases (slots c)) [
      | inl free ↦ (
        slots,
        ground (arith, free),
        record {
          kept = λ e h. h;
          only = λ e h. h;
          clear = Gap-done home key_of cap homes slots g c w gp free;
          distinct = gp.distinct;
          counted = refl;
        },
      )
      | inr (e, here) ↦
          let c_w : c ≢ w = λ same. absurd (ground (arith, ap slots same, here, gp.free)) in
          let nearer = way-next cap c w gp.walk_inside gp.free_inside c_w in
          let step = next_is cap c gp.walk_inside in
          elim (Bool-cases (moves g c (home e))) [
            | inr stay ↦
                let (after, run, closed) =
                  shift-Closed n slots g (next cap c) w
                    (Gap-kept home key_of cap homes slots g c w gp e here stay)
                    (omega (arith, nearer.0)) in
                (after, ground (arith, here, stay, step, run), closed)
            | inl go ↦
                let (after, run, closed) =
                  shift-Closed n (moved slots g c e) c (next cap c) w
                    (Gap-moved home key_of cap homes slots g c w gp e here go)
                    (omega (arith, nearer.0)) in
                let m = move slots g c e gp.gap_inside gp.walk_inside gp.gap here in
                (
                  after,
                  ground (arith, here, go, step, run),
                  record {
                    kept = λ f h. closed.kept f (m.kept f h);
                    only = λ f h. m.only f (closed.only f h);
                    clear = closed.clear;
                    distinct = closed.distinct;
                    counted = closed.counted ∙ m.counted;
                  },
                )
          ]
    ]
