-- ===== src/Index/Restore.antt =====
-- Add and Snapshot of index.go: what adding the entries of a snapshot to a table restores.
use horreum.Common.{
  ℕ, zero, suc, ◌+◌, ◌<◌, ◌≤◌, ◌≡◌, ◌≢◌, ◌⊎◌, inl, inr, refl, sym, ◌∙◌, ap, subst, true, Option,
  none, some, List, [], ◌∷◌, arith, not, if◌then◌else◌, length, Bool-cases, Option-cases,
}
use horreum.Bytes.{Bytes, bytes_eq, bytes_eq→eq, bytes_eq_self}
use horreum.Index.Rounds.{Loop, returns, ◌>>=◌}
use horreum.Index.{Entry, HashIndex, vacant, walk_to, put_slot, entry_of, place, add}
use horreum.Index.Probe.{whether}
use horreum.Index.Close.{occupied, one, occupied-some}
use horreum.Index.Table.{IsTable, view, walk_to-cases, view-Has, view-absent}
use horreum.Index.Store.{is_some, place-Writes}
use horreum.Index.Scan.{collect, snapshot}

abbrev pub or_else : {A : Type 0} → Option A → Option A → Option A
or_else none v = v
or_else (some a) v = some a

module _ {H : Type 0} where
  -- The loop of LoadIndex over the entries of a snapshot.
  unfoldable pub add_all : HashIndex H → List (Entry H) → Loop (HashIndex H)
  add_all h [] = returns h
  add_all h (e ∷ es) = add h e.key e.handle e.expires_at >>= λ r. add_all r.0 es

  -- The first entry with a key.
  unfoldable pub first_with : List (Entry H) → Bytes → Option (H × ℕ)
  first_with [] k = none
  first_with (e ∷ es) k =
      if bytes_eq e.key k then some (e.handle, e.expires_at) else first_with es k

  -- Add ends, keeps the table, writes a key that is absent and no other, and says whether it was absent.
  pub add-Writes :
      (h : HashIndex H) (k : Bytes) (hd : H) (x : ℕ)
      → IsTable h
      → h.count + 1 < h.cap
      → (h' : HashIndex H) × (add h k hd x ≡ returns (h', not (is_some (view h k))))
        × IsTable h'
        × (h'.cap ≡ h.cap)
        × (h'.count ≤ h.count + 1)
        × ((j : Bytes)
            → view h' j ≡ (if bytes_eq k j then or_else (view h k) (some (hd, x)) else view h j))
  unfolding add place
  add-Writes h k hd x t room = elim (walk_to-cases h t k) [
    | inl (w, r, v, none_has) ↦
        let absent = view-absent h t k none_has in
        let (h', run, wr, cap_is) = place-Writes h k hd x t room in
        let same = placed w r h' run in
        (
          h',
          ground (arith, r, absent, same),
          wr.table,
          cap_is,
          omega (arith, wr.count_is, ap (λ o. counts_of o) absent),
          λ j. rw absent (wr.reads j),
        )
    | inr (p, e, r, hp, s, same) ↦
        let there = view-Has h t e k (p, hp, s) same in
        (
          h,
          ground (arith, r, there),
          t,
          refl,
          omega arith,
          λ j. elim (Bool-cases (bytes_eq k j)) [
            | inl kj ↦
                rw (kj, there)
                  (subst (λ b. view h b ≡ some (e.handle, e.expires_at)) (bytes_eq→eq k j kj) there)
            | inr other ↦ rw other refl
          ],
        )
  ]
    where
      counts_of : Option (H × ℕ) → ℕ
      counts_of none = 0
      counts_of (some v) = 1

      placed :
          (w : ℕ)
          → walk_to h k ≡ vacant w
          → (h' : HashIndex H) → place h k hd x ≡ returns (h', is_some (view h k))
          → record h { slots = put_slot w (some (entry_of k hd x)) h.slots; count = h.count + 1 }
            ≡ h'
      placed w r h' run = ground (arith, r, run)

  -- Adding entries to a table with room for them ends; a key that the table has reads as before, and
  -- any other key as the first entry with it.
  pub add_all-reads :
      (es : List (Entry H)) (h : HashIndex H)
      → IsTable h
      → h.count + length es < h.cap
      → (h' : HashIndex H) × (add_all h es ≡ returns h')
        × IsTable h'
        × ((j : Bytes) → view h' j ≡ or_else (view h j) (first_with es j))
  unfolding add_all first_with
  add_all-reads [] h t room = (h, refl, t, λ j. keep (view h j))
    where
      keep : (o : Option (H × ℕ)) → o ≡ or_else o none
      keep none = refl
      keep (some v) = refl
  add_all-reads (e ∷ es) h t room =
      let (h1, run1, t1, cap_is, count_is, reads1) =
        add-Writes h e.key e.handle e.expires_at t (omega (arith, room)) in
      let (h', run, t', reads) = add_all-reads es h1 t1 (omega (arith, room, cap_is, count_is)) in
      (
        h',
        ground (arith, run1, run),
        t',
        λ j. reads j ∙ elim (Bool-cases (bytes_eq e.key j)) [
          | inl same ↦
              rw (reads1 j, same)
                (subst
                  (λ b.
                    or_else (or_else (view h b) (some (e.handle, e.expires_at))) (first_with es j)
                    ≡ or_else (view h j) (some (e.handle, e.expires_at)))
                  (sym (bytes_eq→eq e.key j same)) (chosen (view h j) (first_with es j)))
          | inr other ↦ rw (reads1 j, other) refl
        ],
      )
    where
      chosen :
          (o rest : Option (H × ℕ))
          → or_else (or_else o (some (e.handle, e.expires_at))) rest
            ≡ or_else o (some (e.handle, e.expires_at))
      chosen none rest = refl
      chosen (some v) rest = refl

  first_with-none :
      (slots : ℕ → Option (Entry H)) (k : Bytes) (n i : ℕ)
      → ((p : ℕ) (f : Entry H) → i ≤ p → p < i + n → slots p ≡ some f → f.key ≢ k)
      → first_with (collect slots n i) k ≡ none
  unfolding first_with collect
  first_with-none slots k zero i absent = refl
  first_with-none slots k (suc n) i absent =
      let rest =
        first_with-none slots k n (suc i)
          (λ p f lo hi. absent p f (omega (arith, lo)) (omega (arith, hi))) in
      elim (Option-cases (slots i)) [
        | inl free ↦ ground (arith, free, rest)
        | inr (e, here) ↦ elim (Bool-cases (bytes_eq e.key k)) [
          | inl same ↦
              absurd (absent i e (omega arith) (omega arith) here (bytes_eq→eq e.key k same))
          | inr other ↦ ground (arith, here, other, rest)
        ]
      ]

  first_with-some :
      (slots : ℕ → Option (Entry H)) (k : Bytes) (p : ℕ) (e : Entry H) (n i : ℕ)
      → i ≤ p
      → p < i + n
      → slots p ≡ some e
      → e.key ≡ k
      → ((q : ℕ) (f : Entry H) → q < i + n → slots q ≡ some f → f.key ≡ k → q ≡ p)
      → first_with (collect slots n i) k ≡ some (e.handle, e.expires_at)
  unfolding first_with collect
  first_with-some slots k p e zero i lo hi s same only = absurd (omega (arith, lo, hi))
  first_with-some slots k p e (suc n) i lo hi s same only = elim (whether i p) [
    | inl at_p ↦
        let here : slots i ≡ some e = ap slots at_p ∙ s in
        let passes : bytes_eq e.key k ≡ true =
          subst (λ b. bytes_eq e.key b ≡ true) same (bytes_eq_self e.key) in
        ground (arith, here, passes)
    | inr off_p ↦
        let rest =
          first_with-some slots k p e n (suc i) (omega (arith, lo, off_p)) (omega (arith, hi)) s
            same (λ q f hq. only q f (omega (arith, hq))) in
        elim (Option-cases (slots i)) [
          | inl free ↦ ground (arith, free, rest)
          | inr (f, here) ↦ elim (Bool-cases (bytes_eq f.key k)) [
            | inl keys ↦ absurd (off_p (only i f (omega arith) here (bytes_eq→eq f.key k keys)))
            | inr other ↦ ground (arith, here, other, rest)
          ]
        ]
  ]

  length-collect :
      (slots : ℕ → Option (Entry H)) (n i : ℕ)
      → length (collect slots n i) + occupied i slots ≡ occupied (i + n) slots
  unfolding collect
  length-collect slots zero i = omega (arith, ap (λ k. occupied k slots) (plain i))
    where
      plain : (a : ℕ) → a ≡ a + 0
      plain a = omega arith
  length-collect slots (suc n) i =
      let rest : length (collect slots n (suc i)) + (occupied i slots + one (slots i))
          ≡ occupied (i + suc n) slots =
        length-collect slots n (suc i) ∙ ap (λ k. occupied k slots) (moved i n) in
      elim (Option-cases (slots i)) [
        | inl free ↦ ground (arith, free, rest, ap one free)
        | inr (e, here) ↦ ground (arith, here, rest, ap one here)
      ]
    where
      moved : (a b : ℕ) → suc a + b ≡ a + suc b
      moved a b = omega arith

  whether_empty :
      (h : HashIndex H)
      → IsTable h
      → ((h.count ≡ 0) × (snapshot h ≡ [])) ⊎ (snapshot h ≡ collect h.slots h.cap 0)
  unfolding snapshot
  whether_empty h t = ground (arith, t.roomy)

  -- The snapshot has as many entries as the table.
  pub length-snapshot : (h : HashIndex H) → IsTable h → length (snapshot h) ≡ h.count
  length-snapshot h t = elim (whether_empty h t) [
    | inl (zero_count, nil) ↦ omega (arith, zero_count, ap length nil)
    | inr full ↦ ap length full ∙ omega (arith, length-collect h.slots h.cap 0, whole, t.counted)
  ]
    where
      plain : (a : ℕ) → 0 + a ≡ a
      plain a = omega arith

      whole : occupied (0 + h.cap) h.slots ≡ occupied h.cap h.slots
      whole = ap (λ k. occupied k h.slots) (plain h.cap)

  -- The first entry with a key in the snapshot is what the table has for the key.
  pub first_with-snapshot :
      (h : HashIndex H) (k : Bytes) → IsTable h → first_with (snapshot h) k ≡ view h k
  unfolding first_with
  first_with-snapshot h k t = elim (whether_empty h t) [
    | inl (zero_count, nil) ↦
        ap (λ es. first_with es k) nil
        ∙ none_first
        ∙ sym (
            view-absent h t k (λ e (p, hp, s) same.
              omega (arith, occupied-some h.cap p e h.slots hp s, t.counted, zero_count)))
    | inr full ↦ ap (λ es. first_with es k) full ∙ elim (walk_to-cases h t k) [
      | inl (w, r, v, none_has) ↦
          first_with-none h.slots k h.cap 0 (λ p f lo hi s. none_has f (p, omega (arith, hi), s))
          ∙ sym (view-absent h t k none_has)
      | inr (p, e, r, hp, s, same) ↦
          first_with-some h.slots k p e h.cap 0 (omega arith) (omega (arith, hp)) s same
            (λ q f hq sq keys. t.distinct q p f e (omega (arith, hq)) hp sq s (keys ∙ sym same))
          ∙ sym (view-Has h t e k (p, hp, s) same)
    ]
  ]
    where
      none_first : first_with [] k ≡ none
      none_first = refl

  -- Adding the entries of a snapshot to a table without entries that has room for them ends, and makes
  -- a table that reads at every key as the one that the snapshot is of.
  pub add_all-snapshot :
      (h g : HashIndex H)
      → IsTable h
      → IsTable g
      → g.count ≡ 0
      → h.count < g.cap
      → (g' : HashIndex H) × (add_all g (snapshot h) ≡ returns g')
        × IsTable g'
        × ((j : Bytes) → view g' j ≡ view h j)
  add_all-snapshot h g t u empty room =
      let (g', run, t', reads) =
        add_all-reads (snapshot h) g u (omega (arith, length-snapshot h t, room, empty)) in
      (g', run, t', λ j. reads j ∙ rw (nothing j) (first_with-snapshot h j t))
    where
      nothing : (j : Bytes) → view g j ≡ none
      nothing j = view-absent g u j (λ e (p, hp, s) same.
          omega (arith, occupied-some g.cap p e g.slots hp s, u.counted, empty))
