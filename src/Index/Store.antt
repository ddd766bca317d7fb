-- ===== src/Index/Store.antt =====
-- Put, Add and Delete of index.go keep a table, and write its map at one key.
use horreum.Common.{
  ℕ, ◌+◌, ◌<◌, ◌≡◌, ◌≢◌, ◌⊎◌, inl, inr, refl, sym, ◌∙◌, ap, subst, Bool, true, false, Option, none,
  some, arith, if◌then◌else◌, length, Bool-cases,
}
use horreum.Bytes.{Bytes, uint16, bytes_eq, bytes_eq→eq, bytes_eq_self}
use horreum.Index.Rounds.{returns}
use horreum.Index.{Entry, HashIndex, home, put_slot, entry_of, fnv64, place}
use horreum.Index.Ring.{way}
use horreum.Index.Probe.{whether}
use horreum.Index.Close.{occupied-put, one}
use horreum.Index.Table.{
  key_of, Hashed, IsTable, view, walk_to-cases, view-Has, view-absent, view-agree,
}

abbrev pub is_some {ℓ} : {A : Type ℓ} → Option A → Bool
is_some none = false
is_some (some a) = true

abbrev pub counts : Bool → ℕ
counts true = 1
counts false = 0

module _ {H : Type 0} where
  -- The table `h'` is `h` with the map written at `k`.
  pub record Writes (h : HashIndex H) (k : Bytes) (v : Option (H × ℕ)) (h' : HashIndex H)
      : Type 0 where
    pub table : IsTable h'
    pub reads : (j : Bytes) → view h' j ≡ (if bytes_eq k j then v else view h j)
    pub count_is : h'.count + counts (is_some (view h k)) ≡ h.count + counts (is_some v)

  -- A slot that gets an entry whose way is taken, and whose key stands nowhere else.
  module _ (h : HashIndex H) (t : IsTable h) (p : ℕ) (e : Entry H) (hp : p < h.cap) (x : Hashed e)
      (taken : (q : ℕ)
        → q < h.cap
        → way h.cap (home h.cap e) q < way h.cap (home h.cap e) p
        → h.slots q ≢ none)
      (only : (q : ℕ) (f : Entry H) → q < h.cap → h.slots q ≡ some f → f.key ≡ e.key → q ≡ p)
      (same_key : (f : Entry H) → h.slots p ≡ some f → f.key ≡ e.key) (count : ℕ)
      (spare : count < h.cap) (counted : count + one (h.slots p) ≡ h.count + 1) where
    abbrev stored : HashIndex H
    stored = record h { slots = put_slot p (some e) h.slots; count = count }

    stored_here : put_slot p (some e) h.slots p ≡ some e
    stored_here = ground arith

    origin :
        (q : ℕ) (f : Entry H)
        → put_slot p (some e) h.slots q ≡ some f
        → ((q ≡ p) × (f ≡ e)) ⊎ ((q ≢ p) × (h.slots q ≡ some f))
    origin q f s = elim (whether q p) [
      | inl at_p ↦ inl (at_p, ground (arith, s, at_p))
      | inr off_p ↦ inr (off_p, ground (arith, s, off_p))
    ]

    stored-IsTable : IsTable stored
    stored-IsTable = record {
      roomy = t.roomy;
      spare = spare;
      counted = omega (arith, occupied-put h.cap p (some e) h.slots hp, t.counted, counted);
      clear = λ a q f ha hq s less. elim (whether q p) [
        | inl at_p ↦ λ free. absurd (ground (arith, free, at_p))
        | inr off_p ↦ λ free. elim (origin a f s) [
          | inl (ap_p, fe) ↦
              taken q hq
                (subst (λ k. way h.cap (home h.cap e) q < way h.cap (home h.cap e) k) ap_p
                  (subst (λ k. way h.cap (home h.cap k) q < way h.cap (home h.cap k) a) fe less))
                (ground (arith, free, off_p))
          | inr (_, old) ↦ t.clear a q f ha hq old less (ground (arith, free, off_p))
        ]
      ];
      distinct = λ a b f g ha hb s u same. elim (origin a f s) [
        | inl (pa, fe) ↦ elim (origin b g u) [
          | inl (pb, _) ↦ pa ∙ sym pb
          | inr (_, old) ↦ pa ∙ sym (only b g hb old (sym same ∙ ap key_of fe))
        ]
        | inr (_, old) ↦ elim (origin b g u) [
          | inl (pb, ge) ↦ only a f ha old (same ∙ ap key_of ge) ∙ sym pb
          | inr (_, old2) ↦ t.distinct a b f g ha hb old old2 same
        ]
      ];
      hashed = λ f (a, ha, s). elim (origin a f s) [
        | inl (_, fe) ↦ subst Hashed (sym fe) x
        | inr (_, old) ↦ t.hashed f (a, ha, old)
      ];
    }

    stored-reads :
        (j : Bytes)
        → view stored j ≡ (if bytes_eq e.key j then some (e.handle, e.expires_at) else view h j)
    stored-reads j = elim (Bool-cases (bytes_eq e.key j)) [
      | inl same ↦
          rw same
            (view-Has stored stored-IsTable e j (p, hp, stored_here) (bytes_eq→eq e.key j same))
      | inr other ↦ rw other (
          view-agree h stored e.key j t stored-IsTable
            (λ f other_key (a, ha, s). elim (whether a p) [
              | inl at_p ↦ absurd (other_key (same_key f (ap h.slots (sym at_p) ∙ s)))
              | inr off_p ↦ (a, ha, ground (arith, s, off_p))
            ])
            (λ f other_key (a, ha, s). elim (origin a f s) [
              | inl (_, fe) ↦ absurd (other_key (ap key_of fe))
              | inr (_, old) ↦ (a, ha, old)
            ])
            (λ same. absurd (ground (arith, other, same, bytes_eq_self e.key))))
    ]

  here_key : (e f : Entry H) (k : Bytes) → e.key ≡ k → some e ≡ some f → f.key ≡ k
  here_key e f k same s = subst (λ o. elim o [ none ↦ Unit {0} | some g ↦ g.key ≡ k ]) s same

  -- Put behind its call of grow: it ends, it keeps the table, it writes the key and nothing else, and
  -- says whether the key was there.
  pub place-Writes :
      (h : HashIndex H) (k : Bytes) (hd : H) (x : ℕ)
      → IsTable h
      → h.count + 1 < h.cap
      → (h' : HashIndex H) × (place h k hd x ≡ returns (h', is_some (view h k)))
        × Writes h k (some (hd, x)) h'
        × (h'.cap ≡ h.cap)
  unfolding place
  place-Writes h k hd x t room = elim (walk_to-cases h t k) [
    | inl (w, r, v, none_has) ↦
        let e = entry_of k hd x in
        let absent = view-absent h t k none_has in
        let hx : Hashed e = record { hash_is = refl; key_len_is = refl } in
        let only =
          λ (q : ℕ) (f : Entry H) (hq : q < h.cap) (s : h.slots q ≡ some f) (same : f.key ≡ k).
            absurd {A = q ≡ w} (none_has f (q, hq, s) same) in
        let same_key = λ (f : Entry H) (s : h.slots w ≡ some f).
          absurd {A = f.key ≡ k} (ground (arith, s, v.free)) in
        let counted : h.count + 1 + one (h.slots w) ≡ h.count + 1 = omega (arith, ap one v.free) in
        (
          record h { slots = put_slot w (some e) h.slots; count = h.count + 1 },
          ground (arith, r, absent),
          record {
            table =
                stored-IsTable h t w e v.inside hx v.taken only same_key (h.count + 1) room counted;
            reads =
                stored-reads h t w e v.inside hx v.taken only same_key (h.count + 1) room counted;
            count_is = rw absent (omega arith);
          },
          refl,
        )
    | inr (p, e0, r, hp, s, same) ↦
        let e : Entry H = record e0 { handle = hd; expires_at = x; key = k } in
        let there = view-Has h t e0 k (p, hp, s) same in
        let hx0 = t.hashed e0 (p, hp, s) in
        let hx : Hashed e = record {
          hash_is = hx0.hash_is ∙ ap fnv64 same;
          key_len_is = hx0.key_len_is ∙ ap (λ b. uint16 (length b)) same;
        } in
        let taken = λ (q : ℕ) (hq : q < h.cap). t.clear p q e0 hp hq s in
        let only =
          λ (q : ℕ) (f : Entry H) (hq : q < h.cap) (sq : h.slots q ≡ some f) (same_q : f.key ≡ k).
            t.distinct q p f e0 hq hp sq s (same_q ∙ sym same) in
        let same_key =
          λ (f : Entry H) (sf : h.slots p ≡ some f). here_key e0 f k same (sym s ∙ sf) in
        let counted : h.count + one (h.slots p) ≡ h.count + 1 = omega (arith, ap one s) in
        (
          record h { slots = put_slot p (some e) h.slots },
          ground (arith, r, there),
          record {
            table = stored-IsTable h t p e hp hx taken only same_key h.count t.spare counted;
            reads = stored-reads h t p e hp hx taken only same_key h.count t.spare counted;
            count_is = rw there refl;
          },
          refl,
        )
  ]
