-- ===== src/Index/Delete.antt =====
-- Delete of index.go takes one key out of the map.
use horreum.Common.{
  ℕ, ◌+◌, ◌-◌, ◌<◌, ◌≡◌, ◌≢◌, inl, inr, refl, sym, ◌∙◌, ap, subst, Option, none, some, arith,
  Bool-cases,
}
use horreum.Bytes.{Bytes, bytes_eq, bytes_eq→eq, bytes_eq_self}
use horreum.Index.Rounds.{returns}
use horreum.Index.{Entry, HashIndex, home, put_slot, delete_at, delete}
use horreum.Index.Ring.{next, next_is}
use horreum.Index.Probe.{whether}
use horreum.Index.Shift.{Gap, one_step}
use horreum.Index.Close.{occupied, occupied-put, one, vacancy, shift-Closed}
use horreum.Index.Table.{
  key_of, Has, IsTable, homes, way_short, view, walk_to-cases, view-Has, view-absent, view-agree,
}
use horreum.Index.Store.{Writes}

abbrev pub handle_of : {H : Type 0} → Option (H × ℕ) → Option H
handle_of none = none
handle_of (some (hd, x)) = some hd

module _ {H : Type 0} where
  module _ (h : HashIndex H) (t : IsTable h) (p : ℕ) (e : Entry H) (hp : p < h.cap)
      (s : h.slots p ≡ some e) where
    abbrev emptied : ℕ → Option (Entry H)
    emptied = put_slot p none h.slots

    off_gap : (q : ℕ) (f : Entry H) → emptied q ≡ some f → (p ≢ q) × (h.slots q ≡ some f)
    off_gap q f u = elim (whether q p) [
      | inl same ↦ absurd (ground (arith, u, same))
      | inr other ↦ (λ same. other (sym same), ground (arith, u, other))
    ]

    emptied-Gap :
        (w : ℕ)
        → w < h.cap
        → h.slots w ≡ none
        → Gap (home h.cap) key_of h.cap emptied p (next h.cap p) w
    emptied-Gap w hw free =
        let p_w : p ≢ w = λ same. absurd (ground (arith, ap h.slots same, s, free)) in
        let step = one_step h.cap p w hp hw p_w in
        record {
          gap_inside = hp;
          walk_inside = ground (arith, hp);
          free_inside = hw;
          gap = ground arith;
          free = ground (arith, free);
          behind = omega (arith, step.0);
          ahead = omega (arith, step.0, step.1);
          clear = λ a q f ha hq u less.
              let (off, old) = off_gap a f u in
              elim (whether q p) [
                | inl at_gap ↦ inr (at_gap, omega (arith, step.0, (one_step h.cap p a hp ha off).1))
                | inr other ↦
                    inl (λ none_there.
                      t.clear a q f ha hq old less (ground (arith, none_there, other)))
              ];
          distinct = λ a b f g ha hb u v same.
              t.distinct a b f g ha hb (off_gap a f u).1 (off_gap b g v).1 same;
        }

    -- deleteAt ends, and takes out the entry at its position and no other.
    pub record Taken (h' : HashIndex H) : Type 0 where
      pub table : IsTable h'
      pub kept : (f : Entry H) → f.key ≢ e.key → Has h f → Has h' f
      pub only : (f : Entry H) → Has h' f → (f.key ≢ e.key) × Has h f
      pub cap_is : h'.cap ≡ h.cap
      pub cursor_is : h'.scan_cursor ≡ h.scan_cursor
      pub count_is : h'.count + 1 ≡ h.count

    pub delete_at-Taken : (h' : HashIndex H) × (delete_at h p ≡ returns h') × Taken h'
    unfolding delete_at
    delete_at-Taken =
        let (w, hw, free) = vacancy h.cap h.slots (omega (arith, t.counted, t.spare)) in
        let gp = emptied-Gap w hw free in
        let (after, run, closed) =
          shift-Closed (home h.cap) key_of h.cap (homes h.cap t.roomy) h.cap emptied p
            (next h.cap p) w gp (way_short h.cap (next h.cap p) w gp.walk_inside hw) in
        let less = occupied-put h.cap p none h.slots hp in
        let filled : occupied h.cap after + 1 ≡ h.count =
          omega (arith, less, closed.counted, t.counted, ap one s) in
        let only =
          λ (f : Entry H) (in_new : Has (record h { slots = after; count = h.count - 1 }) f).
            let (a, ha, u) = closed.only f in_new in
            let (off, old) = off_gap a f u in the_rest f a ha off old in
        (
          record h { slots = after; count = h.count - 1 },
          ground (arith, run, next_is h.cap p hp),
          record {
            table = record {
              roomy = t.roomy;
              spare = omega (arith, t.spare);
              counted = omega (arith, filled);
              clear = closed.clear;
              distinct = closed.distinct;
              hashed = λ f in_new. t.hashed f (only f in_new).1;
            };
            kept = λ f other (a, ha, u). closed.kept f (
              a,
              ha,
              elim (whether a p) [
                | inl same ↦ absurd (ground (arith, other, same, s, u, same_entry f a same u))
                | inr off ↦ ground (arith, u, off)
              ],
            );
            only = only;
            cap_is = refl;
            cursor_is = refl;
            count_is = omega (arith, filled);
          },
        )
      where
        the_rest :
            (f : Entry H) (a : ℕ)
            → a < h.cap
            → p ≢ a
            → h.slots a ≡ some f
            → (f.key ≢ e.key) × Has h f
        the_rest f a ha off old =
            (λ same. off (t.distinct p a e f hp ha s old (sym same)), (a, ha, old))

        same_entry : (f : Entry H) (a : ℕ) → a ≡ p → h.slots a ≡ some f → f.key ≡ e.key
        same_entry f a same u =
            subst (λ o. elim o [ none ↦ Unit {0} | some g ↦ g.key ≡ e.key ])
              (sym s ∙ ap h.slots (sym same) ∙ u) refl

  -- Delete ends, keeps the table, takes the key out of the map and nothing else, and returns its handle.
  pub delete-Writes :
      (h : HashIndex H) (k : Bytes)
      → IsTable h
      → (h' : HashIndex H) × (delete h k ≡ returns (h', handle_of (view h k))) × Writes h k none h'
  unfolding delete
  delete-Writes h k t = elim (walk_to-cases h t k) [
    | inl (w, r, v, none_has) ↦
        let absent = view-absent h t k none_has in
        (
          h,
          ground (arith, r, absent),
          record {
            table = t;
            reads = λ j. elim (Bool-cases (bytes_eq k j)) [
              | inl same ↦ rw (same, sym (bytes_eq→eq k j same)) absent
              | inr other ↦ rw other refl
            ];
            count_is = rw absent refl;
          },
        )
    | inr (p, e, r, hp, s, same) ↦
        let there = view-Has h t e k (p, hp, s) same in
        let (h', run, x) = delete_at-Taken h t p e hp s in
        (
          h',
          ground (arith, r, there, run),
          record {
            table = x.table;
            reads = λ j. elim (Bool-cases (bytes_eq k j)) [
              | inl kj ↦ rw kj (
                  view-absent h' x.table j
                    (λ f in_new fj. (x.only f in_new).0 (fj ∙ sym (bytes_eq→eq k j kj) ∙ sym same)))
              | inr other ↦ rw other (
                  view-agree h h' k j t x.table
                    (λ f off in_old. x.kept f (λ fe. off (fe ∙ same)) in_old)
                    (λ f off in_new. (x.only f in_new).1)
                    (λ jk. absurd (ground (arith, other, jk, bytes_eq_self k))))
            ];
            count_is = rw there (omega (arith, x.count_is));
          },
        )
  ]
