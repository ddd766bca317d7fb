-- ===== src/Index/Grow.antt =====
-- grow of index.go fills a larger table with the same map, and Put with it.
use horreum.Common.{
  ℕ, zero, suc, ◌+◌, ◌*◌, ◌<◌, ◌≤◌, ◌≡◌, ◌≢◌, ◌⊎◌, inl, inr, refl, sym, ◌∙◌, ap, subst, true, false,
  Option, none, some, arith, leb, if◌then◌else◌, Bool-cases, Option-cases,
}
use horreum.Bytes.{Bytes, bytes_eq, bytes_eq→eq, bytes_eq_self}
use horreum.Index.Rounds.{returns}
use horreum.Index.{Entry, HashIndex, place, put_all, put_nested, put, empty_table}
use horreum.Index.Probe.{whether}
use horreum.Index.Close.{occupied, one}
use horreum.Index.Table.{IsTable, view, walk_to-cases, view-Has, view-absent}
use horreum.Index.Store.{Writes, place-Writes, is_some, counts}

occupied_le : {E : Type 0} (n : ℕ) (slots : ℕ → Option E) → occupied n slots ≤ n
occupied_le zero slots = omega arith
occupied_le (suc n) slots = ground (arith, occupied_le n slots)

occupied-none : (E : Type 0) (n : ℕ) → occupied {E = E} n (λ i. none) ≡ 0
occupied-none E zero = refl
occupied-none E (suc n) = omega (arith, occupied-none E n)

module _ {H : Type 0} where
  -- A table that is not three quarters full is not grown.
  put_nested_low :
      (depth : ℕ) (h : HashIndex H) (k : Bytes) (hd : H) (x : ℕ)
      → h.count * 4 < h.cap * 3
      → put_nested depth h k hd x ≡ place h k hd x
  unfolding put_nested
  put_nested_low zero h k hd x low = refl
  put_nested_low (suc depth) h k hd x low = ground (arith, low)

  pub empty-IsTable : (cap : ℕ) → 4 ≤ cap → IsTable {H = H} (empty_table cap)
  empty-IsTable cap r = record {
    roomy = r;
    spare = omega (arith, r);
    counted = occupied-none (Entry H) cap;
    clear = λ p q e hp hq s less. absurd (ground (arith, s));
    distinct = λ p q e f hp hq s u same. absurd (ground (arith, s));
    hashed = λ e (p, hp, s). absurd (ground (arith, s));
  }

  module _ (h : HashIndex H) (t : IsTable h) (depth : ℕ) where
    -- The table has the entries of the positions below `i`.
    record Copied (i : ℕ) (g : HashIndex H) : Type 0 where
      table : IsTable g
      cap_is : g.cap ≡ h.cap * 2
      count_is : g.count ≡ occupied i h.slots
      there :
          (p : ℕ) (e : Entry H)
          → p < i
          → h.slots p ≡ some e
          → view g e.key ≡ some (e.handle, e.expires_at)
      absent :
          (j : Bytes)
          → ((p : ℕ) (e : Entry H) → p < i → h.slots p ≡ some e → e.key ≢ j)
          → view g j ≡ none

    skip_one : (i : ℕ) (g : HashIndex H) → h.slots i ≡ none → Copied i g → Copied (suc i) g
    skip_one i g free c = record {
      table = c.table;
      cap_is = c.cap_is;
      count_is = omega (arith, c.count_is, ap one free);
      there = λ p e less s. elim (whether p i) [
        | inl same ↦ absurd (ground (arith, s, free, ap h.slots same))
        | inr other ↦ c.there p e (omega (arith, less, other)) s
      ];
      absent = λ j no. c.absent j (λ p e less. no p e (omega (arith, less)));
    }

    copy_one :
        (i : ℕ) (g g' : HashIndex H) (e : Entry H)
        → i < h.cap
        → h.slots i ≡ some e
        → Copied i g
        → Writes g e.key (some (e.handle, e.expires_at)) g'
        → g'.cap ≡ g.cap
        → Copied (suc i) g'
    copy_one i g g' e hi here c w same_cap =
        let new : view g e.key ≡ none = c.absent e.key (λ p f less s same.
          absurd
            (ground (arith, less, t.distinct p i f e (omega (arith, less, hi)) hi s here same))) in
        record {
          table = w.table;
          cap_is = same_cap ∙ c.cap_is;
          count_is =
              omega (arith, w.count_is, ap (λ v. counts (is_some v)) new, c.count_is, ap one here);
          there = λ p f less s. elim (whether p i) [
            | inl same ↦ w.reads f.key ∙ last p f same s
            | inr other ↦ elim (Bool-cases (bytes_eq e.key f.key)) [
              | inl ef ↦ absurd (
                  other (
                    t.distinct p i f e (omega (arith, less, hi)) hi s here
                      (sym (bytes_eq→eq e.key f.key ef))))
              | inr ne ↦ w.reads f.key ∙ rw ne (c.there p f (omega (arith, less, other)) s)
            ]
          ];
          absent = λ j no. elim (Bool-cases (bytes_eq e.key j)) [
            | inl ej ↦ absurd (no i e (omega arith) here (bytes_eq→eq e.key j ej))
            | inr ne ↦ w.reads j ∙ rw ne (c.absent j (λ p f less. no p f (omega (arith, less))))
          ];
        }
      where
        last :
            (p : ℕ) (f : Entry H)
            → p ≡ i
            → h.slots p ≡ some f
            → (if bytes_eq e.key f.key then some (e.handle, e.expires_at) else view g f.key)
              ≡ some (f.handle, f.expires_at)
        last p f same s =
            subst
              (λ o. elim o [
                | none ↦ Unit {0}
                | some d ↦
                    (if bytes_eq e.key d.key then some (e.handle, e.expires_at) else view g d.key)
                    ≡ some (d.handle, d.expires_at)
              ])
              (sym here ∙ ap h.slots (sym same) ∙ s) (rw (bytes_eq_self e.key) refl)

    copy_all :
        (n i : ℕ) (g : HashIndex H)
        → i + n ≡ h.cap
        → Copied i g
        → (g' : HashIndex H) × (put_all (put_nested depth) h.slots n i g ≡ returns g')
          × Copied h.cap g'
    unfolding put_all
    copy_all zero i g e c = (g, refl, subst (λ k. Copied k g) (omega (arith, e)) c)
    copy_all (suc n) i g e c = elim (Option-cases (h.slots i)) [
      | inl free ↦
          let (g', run, d) = copy_all n (suc i) g (omega (arith, e)) (skip_one i g free c) in
          (g', ground (arith, free, run), d)
      | inr (f, here) ↦
          let few : g.count ≤ i = omega (arith, c.count_is, occupied_le i h.slots) in
          let (g1, run, w, same_cap) =
            place-Writes g f.key f.handle f.expires_at c.table (omega (arith, few, c.cap_is, e)) in
          let low =
            put_nested_low depth g f.key f.handle f.expires_at (omega (arith, few, c.cap_is, e)) in
          let (g', run2, d) =
            copy_all n (suc i) g1 (omega (arith, e))
              (copy_one i g g1 f (omega (arith, e)) here c w same_cap) in
          (g', ground (arith, here, low, run, run2), d)
    ]

    -- The table that grow builds is twice as large and stands for the same map.
    pub put_all-grows :
        (g : HashIndex H) × (put_all (put_nested depth) h.slots h.cap 0 (empty_table (h.cap * 2))
          ≡ returns g)
        × IsTable g
        × (g.cap ≡ h.cap * 2)
        × (g.count ≡ h.count)
        × ((j : Bytes) → view g j ≡ view h j)
    put_all-grows =
        let big : IsTable {H = H} (empty_table (h.cap * 2)) =
          empty-IsTable (h.cap * 2) (omega (arith, t.roomy)) in
        let start : Copied 0 (empty_table (h.cap * 2)) = record {
          table = big;
          cap_is = refl;
          count_is = refl;
          there = λ p e less s. absurd (omega (arith, less));
          absent = λ j no.
              view-absent (empty_table (h.cap * 2)) big j
                (λ e (p, hp, s). absurd (ground (arith, s)));
        } in
        let (g, run, c) = copy_all h.cap 0 (empty_table (h.cap * 2)) (omega arith) start in
        (
          g,
          run,
          c.table,
          c.cap_is,
          c.count_is ∙ t.counted,
          λ j. elim (walk_to-cases h t j) [
            | inl (w, r, v, none_has) ↦
                c.absent j (λ p e hp s same. none_has e (p, hp, s) same)
                ∙ sym (view-absent h t j none_has)
            | inr (p, e, r, hp, s, same) ↦
                subst (λ b. view g b ≡ view h b) same
                  (c.there p e hp s ∙ sym (view-Has h t e e.key (p, hp, s) refl))
          ],
        )

  -- Put ends, keeps the table, writes the key and nothing else, and says whether the key was there.
  pub put-Writes :
      (h : HashIndex H) (k : Bytes) (hd : H) (x : ℕ)
      → IsTable h
      → (h' : HashIndex H) × (put h k hd x ≡ returns (h', is_some (view h k)))
        × Writes h k (some (hd, x)) h'
  unfolding put put_nested
  put-Writes h k hd x t = elim (load (h.cap * 3) (h.count * 4)) [
    | inr low ↦
        let (h', run, w, _) = place-Writes h k hd x t (omega (arith, low.0, t.roomy)) in
        (h', ground (arith, low.1, run), w)
    | inl high ↦
        let (g, run, tg, cap_is, count_is, same) = put_all-grows h t 1 in
        let (h', run2, w, _) =
          place-Writes g k hd x tg (omega (arith, cap_is, count_is, t.spare, t.roomy)) in
        (
          h',
          ground (arith, high, run, run2, same k),
          record {
            table = w.table;
            reads = λ j. w.reads j ∙ ap (λ v. if bytes_eq k j then some (hd, x) else v) (same j);
            count_is = omega (arith, w.count_is, count_is, ap (λ v. counts (is_some v)) (same k));
          },
        )
  ]
    where
      load : (a b : ℕ) → (leb a b ≡ true) ⊎ ((b < a) × (leb a b ≡ false))
      load a b = ground arith
