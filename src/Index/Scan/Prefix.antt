-- ===== src/Index/Scan/Prefix.antt =====
-- DeletePrefix of index.go takes out the keys with the prefix, and them only.
use horreum.Common.{
  ℕ, zero, suc, ◌+◌, ◌-◌, ◌%◌, ◌<◌, ◌≤◌, ◌≡◌, ◌≢◌, ◌⊎◌, inl, inr, refl, sym, ◌∙◌, ap, subst, true,
  false, Option, none, some, List, [], ◌∷◌, ◌++◌, append-nil, append_assoc, arith, length, leb,
  ◌==◌, Bool-cases, Option-cases,
}
use horreum.Bytes.{Bytes}
use horreum.Index.Rounds.{Loop, returns, forever}
use horreum.Index.{Entry, HashIndex, home, put_slot, moves, shift_back, delete_at}
use horreum.Index.Ring.{way, next, next_is}
use horreum.Index.Probe.{whether, way-next}
use horreum.Index.Shift.{one_step}
use horreum.Index.Close.{occupied-some, vacancy}
use horreum.Index.Table.{IsTable, view, walk_to-cases, view-absent, view-agree}
use horreum.Index.Delete.{delete_at-Taken}
use horreum.Index.Scan.{has_prefix, prefix_loop, delete_prefix}

-- A slot ahead of the gap that is below the gap's first place is ahead of a walk that is below it too.
walk_below :
    (cap b g c : ℕ) → b < cap → g < cap → c < cap → way cap b g < way cap b c → g < b → c < b
walk_below cap b g c i j k less low = ground arith

way_on :
    (cap b c w : ℕ)
    → b < cap
    → c < cap
    → w < cap
    → c ≢ w
    → way cap b c ≤ way cap b w
    → (way cap b (next cap c) ≡ way cap b c + 1) × (way cap b (next cap c) ≤ way cap b w)
way_on cap b c w i j k n h = (ground arith, ground arith)

module _ {E : Type 0} (home_of : E → ℕ) (cap b w : ℕ) (P : E → Type 0) (hb : b < cap)
    (hw : w < cap) where
  -- What holds of the entries below the position of the deletion holds of them after the shift.
  record Low (slots : ℕ → Option E) (g c : ℕ) : Type 0 where
    gap_inside : g < cap
    walk_inside : c < cap
    free : slots w ≡ none
    behind : way cap b g < way cap b c
    ahead : way cap b c ≤ way cap b w
    low : (p : ℕ) (f : E) → p < b → slots p ≡ some f → P f

  shift-low :
      (n : ℕ) (slots after : ℕ → Option E) (g c : ℕ)
      → Low slots g c
      → shift_back home_of cap n slots g c ≡ returns after
      → (p : ℕ) (f : E) → p < b
      → after p ≡ some f
      → P f
  unfolding shift_back
  shift-low zero slots after g c l run = λ p f less s. absurd (ground (arith, run))
  shift-low (suc n) slots after g c l run = elim (Option-cases (slots c)) [
    | inl free ↦
        let stop : slots ≡ after = ground (arith, run, free) in
        λ p f less s. l.low p f less (ap (λ (t : ℕ → Option E). t p) stop ∙ s)
    | inr (e, here) ↦
        let c_w : c ≢ w = λ same. absurd (ground (arith, ap slots same, here, l.free)) in
        let on = way_on cap b c w hb l.walk_inside hw c_w l.ahead in
        let inside = (way-next cap c w l.walk_inside hw c_w).1 in
        let step = next_is cap c l.walk_inside in
        elim (Bool-cases (moves g c (home_of e))) [
          | inr stay ↦
              shift-low n slots after g (next cap c)
                (record {
                  gap_inside = l.gap_inside;
                  walk_inside = inside;
                  free = l.free;
                  behind = omega (arith, on.0, l.behind);
                  ahead = on.1;
                  low = l.low;
                })
                (sym (ground (arith, here, stay, step)) ∙ run)
          | inl go ↦
              shift-low n (put_slot c none (put_slot g (some e) slots)) after c (next cap c)
                (record {
                  gap_inside = l.walk_inside;
                  walk_inside = inside;
                  free = ground (arith, l.free, c_w, gap_free l.behind l.ahead);
                  behind = omega (arith, on.0);
                  ahead = on.1;
                  low = λ p f less s. elim (whether p c) [
                    | inl at_c ↦ absurd (ground (arith, s, at_c))
                    | inr off_c ↦ elim (whether p g) [
                      | inl at_g ↦
                          l.low c f
                            (walk_below cap b g c hb l.gap_inside l.walk_inside l.behind
                              (omega (arith, less, at_g)))
                            (here ∙ ground (arith, s, off_c, at_g))
                      | inr off_g ↦ l.low p f less (ground (arith, s, off_c, off_g))
                    ]
                  ];
                })
                (sym (ground (arith, here, go, step)) ∙ run)
        ]
  ]
    where
      gap_free : way cap b g < way cap b c → way cap b c ≤ way cap b w → w ≢ g
      gap_free less far same = absurd (omega (arith, less, far, ap (way cap b) same))

Loop-cases : {A : Type 0} (l : Loop A) → ((a : A) × (l ≡ returns a)) ⊎ (l ≡ forever)
Loop-cases (returns a) = inl (a, refl)
Loop-cases forever = inr refl

module _ {H : Type 0} (prefix : Bytes) where
  -- No entry below `idx` has the prefix.
  abbrev Passed : HashIndex H → ℕ → Type 0
  Passed h idx =
      (p : ℕ) (f : Entry H) → p < idx → h.slots p ≡ some f → has_prefix f.key prefix ≡ false

  delete_at-Passed :
      (h h' : HashIndex H) (idx : ℕ) (e : Entry H)
      → IsTable h
      → idx < h.cap
      → h.slots idx ≡ some e
      → delete_at h idx ≡ returns h'
      → Passed h idx
      → Passed h' idx
  unfolding delete_at
  delete_at-Passed h h' idx e t hi s run passed = elim (Loop-cases shifted) [
    | inr goes_on ↦ absurd (ground (arith, run, goes_on))
    | inl (after, stops) ↦
        let (w, hw, free) = vacancy h.cap h.slots (omega (arith, t.counted, t.spare)) in
        let idx_w : idx ≢ w = λ same. absurd (ground (arith, ap h.slots same, s, free)) in
        let on = one_step h.cap idx w hi hw idx_w in
        let start : Low (home h.cap) h.cap idx w (λ f. has_prefix f.key prefix ≡ false) hi hw
            (put_slot idx none h.slots) idx (next h.cap idx) =
          record {
            gap_inside = hi;
            walk_inside = (way-next h.cap idx w hi hw idx_w).1;
            free = ground (arith, free);
            behind = ground (arith, on.0);
            ahead = omega (arith, on.0, on.1);
            low = λ p f less v. passed p f less (ground (arith, v, less));
          } in
        let same : after ≡ h'.slots = ground (arith, run, stops) in
        λ p f less v.
          shift-low (home h.cap) h.cap idx w (λ f. has_prefix f.key prefix ≡ false) hi hw h.cap
            (put_slot idx none h.slots) after idx (next h.cap idx) start
            (ap (shift_back (home h.cap) h.cap h.cap (put_slot idx none h.slots) idx)
                (sym (next_is h.cap idx hi))
              ∙ stops)
            p f less (ap (λ (u : ℕ → Option (Entry H)). u p) same ∙ v)
  ]
    where
      shifted : Loop (ℕ → Option (Entry H))
      shifted =
          shift_back (home h.cap) h.cap h.cap (put_slot idx none h.slots) idx ((idx + 1) % h.cap)

  -- What DeletePrefix makes of a table.
  pub record Purged (h h' : HashIndex H) : Type 0 where
    pub table : IsTable h'
    pub kept : (k : Bytes) → has_prefix k prefix ≡ false → view h' k ≡ view h k
    pub gone : (k : Bytes) → has_prefix k prefix ≡ true → view h' k ≡ none

  purge :
      (n : ℕ) (h : HashIndex H) (idx : ℕ) (freed : List H)
      → IsTable h
      → Passed h idx
      → h.cap - idx + h.count < n
      → (h' : HashIndex H) × (hs : List H) × (prefix_loop prefix n h idx freed
          ≡ returns (h', freed ++ hs))
        × Purged h h'
        × (length hs + h'.count ≡ h.count)
  unfolding prefix_loop
  purge zero h idx freed t passed enough = absurd (omega (arith, enough))
  purge (suc n) h idx freed t passed enough = elim (reached h.cap idx) [
    | inl end ↦ (
      h,
      [],
      ground (arith, end.1, append-nil freed),
      record {
        table = t;
        kept = λ k fails. refl;
        gone = λ k fits. elim (walk_to-cases h t k) [
          | inl (w, r, v, none_has) ↦ view-absent h t k none_has
          | inr (p, e, r, hp, s, same) ↦ absurd (
              ground (
                arith,
                passed p e (omega (arith, hp, end.0)) s,
                fits,
                ap (λ b. has_prefix b prefix) same,
              ))
        ];
      },
      omega arith,
    )
    | inr inside ↦ elim (Option-cases (h.slots idx)) [
      | inl free ↦
          let (h', hs, run, x, count) =
            purge n h (suc idx) freed t
              (λ p f less s. elim (whether p idx) [
                | inl same ↦ absurd (ground (arith, s, free, ap h.slots same))
                | inr other ↦ passed p f (omega (arith, less, other)) s
              ])
              (omega (arith, enough, inside.0)) in
          (h', hs, ground (arith, inside.1, free, run), x, count)
      | inr (e, here) ↦ elim (Bool-cases (has_prefix e.key prefix)) [
        | inr fails ↦
            let (h', hs, run, x, count) =
              purge n h (suc idx) freed t
                (λ p f less s. elim (whether p idx) [
                  | inl same ↦ same_test e f (sym here ∙ ap h.slots (sym same) ∙ s) fails
                  | inr other ↦ passed p f (omega (arith, less, other)) s
                ])
                (omega (arith, enough, inside.0)) in
            (h', hs, ground (arith, inside.1, here, fails, run), x, count)
        | inl fits ↦
            let (h1, run1, x1) = delete_at-Taken h t idx e inside.0 here in
            let (h', hs, run, x, count) =
              purge n h1 idx (freed ++ (e.handle ∷ [])) x1.table
                (delete_at-Passed h h1 idx e t inside.0 here run1 passed)
                (omega (arith, enough, x1.count_is, x1.cap_is)) in
            (
              h',
              e.handle ∷ hs,
              ground
                  (arith, inside.1, here, fits, run1, run, append_assoc freed (e.handle ∷ []) hs),
              record {
                table = x.table;
                kept = λ k fails.
                    x.kept k fails
                    ∙ view-agree h h1 e.key k t x1.table (λ f off in_old. x1.kept f off in_old)
                        (λ f off in_new. (x1.only f in_new).1)
                        (λ same.
                          absurd (ground (arith, fails, fits, ap (λ b. has_prefix b prefix) same)));
                gone = x.gone;
              },
              omega (arith, count, x1.count_is),
            )
      ]
    ]
  ]
    where
      reached : (a b : ℕ) → ((a ≤ b) × (leb a b ≡ true)) ⊎ ((b < a) × (leb a b ≡ false))
      reached a b = ground arith

      same_test :
          (e f : Entry H)
          → some e ≡ some f
          → has_prefix e.key prefix ≡ false
          → has_prefix f.key prefix ≡ false
      same_test e f same fails =
          subst (λ o. elim o [ none ↦ Unit {0} | some g ↦ has_prefix g.key prefix ≡ false ]) same
            fails

  -- DeletePrefix ends; after it no key with the prefix has an entry, every other key reads as before,
  -- and as many handles are returned as entries are gone.
  pub delete_prefix-Purged :
      (h : HashIndex H)
      → IsTable h
      → (h' : HashIndex H) × (hs : List H) × (delete_prefix h prefix ≡ returns (h', hs))
        × Purged h h'
        × (length hs + h'.count ≡ h.count)
  unfolding delete_prefix
  delete_prefix-Purged h t = elim (whether_zero h.count) [
    | inl none_left ↦ (
      h,
      [],
      ground (arith, none_left.1),
      record {
        table = t;
        kept = λ k fails. refl;
        gone = λ k fits. view-absent h t k (λ e (p, hp, s) same.
            absurd (omega (arith, occupied-some h.cap p e h.slots hp s, t.counted, none_left.0)));
      },
      omega arith,
    )
    | inr some_left ↦
        let (h', hs, run, x, count) =
          purge (h.cap + h.count + 1) h 0 [] t (λ p f less s. absurd (omega (arith, less)))
            (omega arith) in
        (h', hs, ground (arith, some_left, run), x, count)
  ]
    where
      whether_zero : (a : ℕ) → ((a ≡ 0) × ((a == 0) ≡ true)) ⊎ ((a == 0) ≡ false)
      whether_zero a = ground arith
