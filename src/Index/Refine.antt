-- ===== src/Index/Refine.antt =====
-- The table of index.go is a map from keys to handles with an expiry.
use horreum.Common.{
  ℕ, ◌≡◌, inl, inr, refl, ◌∙◌, ap, Bool, Option, none, some, List, [], ◌∷◌, arith, leb, ◌==◌, ◌&&◌,
  not, if◌then◌else◌,
}
use horreum.Bytes.{Bytes, bytes_eq}
use horreum.Index.Rounds.{Loop, returns, ◌>>=◌}
use horreum.Index.{HashIndex, put, put_nil, get, delete, new_for_count}
use horreum.Index.Table.{IsTable, view, walk_to-cases, view-Has, view-absent}
use horreum.Index.Store.{is_some}
use horreum.Index.Delete.{handle_of, delete-Writes}
use horreum.Index.Grow.{put-Writes, empty-IsTable}
use horreum.Index.Nil.{put_nil-put}

-- The handle, unless it has expired at `now`.
abbrev pub live : {H : Type 0} → ℕ → Option (H × ℕ) → Option H
live now none = none
live now (some (hd, x)) = if not (x == 0) && leb x now then none else some hd

pub data Call (H : Type 0) : Type 0 where
  puts : Bytes → H → ℕ → Call H
  puts_nil : H → ℕ → Call H
  gets : Bytes → ℕ → Call H
  deletes : Bytes → Call H

pub data Reply (H : Type 0) : Type 0 where
  updated : Bool → Reply H
  handle : Option H → Reply H

module _ {H : Type 0} where
  -- Get ends, and reads the map.
  pub get-view :
      (h : HashIndex H) (k : Bytes) (now : ℕ)
      → IsTable h
      → get h k now ≡ returns (live now (view h k))
  unfolding get
  get-view h k now t = elim (walk_to-cases h t k) [
    | inl (w, r, v, none_has) ↦ ground (arith, r, view-absent h t k none_has)
    | inr (p, e, r, hp, s, same) ↦ ground (arith, r, view-Has h t e k (p, hp, s) same)
  ]

  -- One call on the table, and what it means for a map.
  unfoldable pub call : HashIndex H → Call H → Loop (Reply H × HashIndex H)
  call h (puts k hd x) = put h k hd x >>= λ r. returns (updated r.1, r.0)
  call h (puts_nil hd x) = put_nil h hd x >>= λ r. returns (updated r.1, r.0)
  call h (gets k now) = get h k now >>= λ r. returns (handle r, h)
  call h (deletes k) = delete h k >>= λ r. returns (handle r.1, r.0)

  unfoldable pub step : (Bytes → Option (H × ℕ)) → Call H → Reply H × (Bytes → Option (H × ℕ))
  step m (puts k hd x) = (updated (is_some (m k)), λ j. if bytes_eq k j then some (hd, x) else m j)
  step m (puts_nil hd x) =
      (updated (is_some (m [])), λ j. if bytes_eq [] j then some (hd, x) else m j)
  step m (gets k now) = (handle (live now (m k)), m)
  step m (deletes k) = (handle (handle_of (m k)), λ j. if bytes_eq k j then none else m j)

  unfoldable pub run_calls : HashIndex H → List (Call H) → Loop (List (Reply H))
  run_calls h [] = returns []
  run_calls h (c ∷ cs) = call h c >>= λ r. run_calls r.1 cs >>= λ rs. returns (r.0 ∷ rs)

  unfoldable pub run_steps : (Bytes → Option (H × ℕ)) → List (Call H) → List (Reply H)
  run_steps m [] = []
  run_steps m (c ∷ cs) = let (r, m') = step m c in r ∷ run_steps m' cs

  -- No update has a nil key: where Put gets one, the map does not have the empty key.
  abbrev pub CallFits : (Bytes → Option (H × ℕ)) → Call H → Type 0
  CallFits m (puts k hd x) = Unit
  CallFits m (puts_nil hd x) = m [] ≡ none
  CallFits m (gets k now) = Unit
  CallFits m (deletes k) = Unit

  abbrev pub CallsFit : (Bytes → Option (H × ℕ)) → List (Call H) → Type 0
  CallsFit m [] = Unit
  CallsFit m (c ∷ cs) = CallFits m c × CallsFit (step m c).1 cs

  record Stepped (h : HashIndex H) (m : Bytes → Option (H × ℕ)) (c : Call H) : Type 0 where
    after : HashIndex H
    runs : call h c ≡ returns ((step m c).0, after)
    table : IsTable after
    same : (j : Bytes) → view after j ≡ (step m c).1 j

  call-Stepped :
      (h : HashIndex H) (m : Bytes → Option (H × ℕ)) (c : Call H)
      → IsTable h
      → ((j : Bytes) → view h j ≡ m j)
      → CallFits m c
      → Stepped h m c
  unfolding call step
  call-Stepped h m (puts k hd x) t same fit =
      let (h', run, w) = put-Writes h k hd x t in
      record {
        after = h';
        runs = ground (arith, run, same k);
        table = w.table;
        same = λ j. w.reads j ∙ ap (λ v. if bytes_eq k j then some (hd, x) else v) (same j);
      }
  call-Stepped h m (puts_nil hd x) t same fit =
      let (h', run, w) = put-Writes h [] hd x t in
      record {
        after = h';
        runs = ground (arith, put_nil-put hd x h t (same [] ∙ fit), run, same []);
        table = w.table;
        same = λ j. w.reads j ∙ ap (λ v. if bytes_eq [] j then some (hd, x) else v) (same j);
      }
  call-Stepped h m (gets k now) t same fit = record {
    after = h;
    runs = ground (arith, get-view h k now t, same k);
    table = t;
    same = same;
  }
  call-Stepped h m (deletes k) t same fit =
      let (h', run, w) = delete-Writes h k t in
      record {
        after = h';
        runs = ground (arith, run, same k);
        table = w.table;
        same = λ j. w.reads j ∙ ap (λ v. if bytes_eq k j then none else v) (same j);
      }

  -- On a table of at least four positions, one of them free, which keeps its entries where their
  -- hashes lead, every sequence of calls of Put, Get and Delete ends, and no reply can be told from
  -- those of the map that the table stands for, as long as Put gets a nil key only where the map
  -- does not have the empty key.
  pub index_run_refines :
      (cs : List (Call H)) (h : HashIndex H) (m : Bytes → Option (H × ℕ))
      → IsTable h
      → ((j : Bytes) → view h j ≡ m j)
      → CallsFit m cs
      → run_calls h cs ≡ returns (run_steps m cs)
  unfolding run_calls run_steps
  index_run_refines [] h m t same fits = refl
  index_run_refines (c ∷ cs) h m t same fits =
      let s = call-Stepped h m c t same fits.0 in
      ground (arith, s.runs, index_run_refines cs s.after (step m c).1 s.table s.same fits.1)

  -- NewForCount makes a table that stands for the empty map.
  pub new_for_count-IsTable :
      (n : ℕ)
      → IsTable {H = H} (new_for_count n) × ((j : Bytes) → view {H = H} (new_for_count n) j ≡ none)
  unfolding new_for_count
  new_for_count-IsTable n =
      let t : IsTable {H = H} (new_for_count n) = empty-IsTable _ (ground arith) in
      (t, λ j. view-absent (new_for_count n) t j (λ e (p, hp, s). absurd (ground (arith, s))))
