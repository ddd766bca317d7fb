-- ===== src/Index/Scan/Expire.antt =====
-- DeleteExpired of index.go takes out entries that no call of Get could return any more.
use native.Mathlib.Nat.{mod-lt}
use horreum.Common.{
  ℕ, zero, suc, ◌+◌, ◌%◌, ◌<◌, ◌≤◌, ◌≡◌, inl, inr, refl, sym, ◌∙◌, ap, true, none, some, List, [],
  ◌∷◌, ◌++◌, arith, ◌==◌, ◌||◌, length, Bool-cases, Option-cases, append-nil, append_assoc,
}
use horreum.Bytes.{Bytes, bytes_eq, bytes_eq→eq, bytes_eq_self}
use horreum.Index.Rounds.{returns}
use horreum.Index.{Entry, HashIndex, delete_at}
use horreum.Index.Table.{IsTable, view, view-Has, view-absent, view-agree}
use horreum.Index.Delete.{delete_at-Taken}
use horreum.Index.Refine.{live}
use horreum.Index.Scan.{expired, expire_loop, delete_expired}

module _ {H : Type 0} (now : ℕ) where
  -- What DeleteExpired makes of a table.
  pub record Unseen (h h' : HashIndex H) : Type 0 where
    pub table : IsTable h'
    pub cursor_inside : h'.scan_cursor < h'.cap
    pub same_live : (k : Bytes) → live now (view h' k) ≡ live now (view h k)

  advanced : HashIndex H → HashIndex H
  advanced h = record h { scan_cursor = (h.scan_cursor + 1) % h.cap }

  advanced-Unseen : (h : HashIndex H) → IsTable h → Unseen h (advanced h)
  unfolding advanced view
  advanced-Unseen h t = record {
    table = record {
      roomy = t.roomy;
      spare = t.spare;
      counted = t.counted;
      clear = t.clear;
      distinct = t.distinct;
      hashed = t.hashed;
    };
    cursor_inside = mod-lt (h.scan_cursor + 1) (omega (arith, t.roomy));
    same_live = λ k. refl;
  }

  chained : {h h1 h2 : HashIndex H} → Unseen h h1 → Unseen h1 h2 → Unseen h h2
  chained u v = record {
    table = v.table;
    cursor_inside = v.cursor_inside;
    same_live = λ k. v.same_live k ∙ u.same_live k;
  }

  -- Taking an expired entry out.
  delete_at-Unseen :
      (h : HashIndex H) (p : ℕ) (e : Entry H)
      → IsTable h
      → h.scan_cursor < h.cap
      → p < h.cap
      → h.slots p ≡ some e
      → expired now e ≡ true
      → (h' : HashIndex H) × (delete_at h p ≡ returns h') × Unseen h h' × (h'.count + 1 ≡ h.count)
  delete_at-Unseen h p e t cursor hp s old =
      let (h', run, x) = delete_at-Taken h t p e hp s in
      (
        h',
        run,
        record {
          table = x.table;
          cursor_inside = omega (arith, cursor, x.cap_is, x.cursor_is);
          same_live = λ k. elim (Bool-cases (bytes_eq e.key k)) [
            | inl same ↦
                let ek = bytes_eq→eq e.key k same in
                let gone : view h' k ≡ none =
                  view-absent h' x.table k (λ f in_new fk. (x.only f in_new).0 (fk ∙ sym ek)) in
                let there : view h k ≡ some (e.handle, e.expires_at) =
                  view-Has h t e k (p, hp, s) ek in
                ground (arith, gone, there, old)
            | inr other ↦ ap (live now) (
                view-agree h h' e.key k t x.table (λ f off in_old. x.kept f off in_old)
                  (λ f off in_new. (x.only f in_new).1)
                  (λ same. absurd (ground (arith, other, same, bytes_eq_self e.key))))
          ];
        },
        x.count_is,
      )

  -- What a run of the loop of DeleteExpired ends in.
  Ended : ℕ → HashIndex H → List H → Type 0
  Ended n h freed =
      (h' : HashIndex H) × (hs : List H) × (expire_loop now n h freed ≡ returns (h', freed ++ hs))
      × Unseen h h'
      × (length hs + h'.count ≡ h.count)
      × (length hs ≤ n)

  expire_loop-Ended :
      (n : ℕ) (h : HashIndex H) (freed : List H)
      → IsTable h
      → h.scan_cursor < h.cap
      → Ended n h freed
  unfolding Ended expire_loop advanced
  expire_loop-Ended zero h freed t cursor = (
    h,
    [],
    ground (arith, append-nil freed),
    record { table = t; cursor_inside = cursor; same_live = λ k. refl },
    omega arith,
    omega arith,
  )
  expire_loop-Ended (suc n) h freed t cursor =
      let u = advanced-Unseen h t in
      elim (Option-cases (h.slots h.scan_cursor)) [
        | inl free ↦
            let (h', hs, run, v, count, few) =
              expire_loop-Ended n (advanced h) freed u.table u.cursor_inside in
            (h', hs, ground (arith, free, run), chained u v, count, omega (arith, few))
        | inr (e, here) ↦ elim (Bool-cases (expired now e)) [
          | inr live_still ↦
              let (h', hs, run, v, count, few) =
                expire_loop-Ended n (advanced h) freed u.table u.cursor_inside in
              (
                h',
                hs,
                ground (arith, here, live_still, run),
                chained u v,
                count,
                omega (arith, few),
              )
          | inl old ↦
              let (h1, run1, u1, count1) =
                delete_at-Unseen (advanced h) h.scan_cursor e u.table u.cursor_inside cursor here
                  old in
              let (h', hs, run, v, count, few) =
                expire_loop-Ended n h1 (freed ++ (e.handle ∷ [])) u1.table u1.cursor_inside in
              (
                h',
                e.handle ∷ hs,
                ground (arith, here, old, run1, run, append_assoc freed (e.handle ∷ []) hs),
                chained u (chained u1 v),
                omega (arith, count, count1),
                omega (arith, few),
              )
        ]
      ]

  -- On a table whose scan cursor is inside, DeleteExpired ends after at most `limit` deletions,
  -- in a table whose scan cursor is inside. It returns as many handles as entries are gone, and
  -- no Get at the same time can tell the table from the one before.
  pub delete_expired-Unseen :
      (limit : ℕ) (h : HashIndex H)
      → IsTable h
      → h.scan_cursor < h.cap
      → (h' : HashIndex H) × (hs : List H) × (delete_expired h now limit ≡ returns (h', hs))
        × Unseen h h'
        × (length hs + h'.count ≡ h.count)
        × (length hs ≤ limit)
  unfolding delete_expired Ended
  delete_expired-Unseen limit h t cursor = elim (Bool-cases (h.count == 0 || limit == 0)) [
    | inl idle ↦ (
      h,
      [],
      ground (arith, idle),
      record { table = t; cursor_inside = cursor; same_live = λ k. refl },
      omega arith,
      omega arith,
    )
    | inr busy ↦
        let (h', hs, run, v, count, few) = expire_loop-Ended limit h [] t cursor in
        (h', hs, ground (arith, busy, run), v, count, few)
  ]
