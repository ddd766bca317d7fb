-- ===== src/Arena/Release.antt =====
-- View and Free of internal/arena/arena.go on a value that is live, and the managers that hold none.
use horreum.Common.{
  ℕ, zero, suc, ◌+◌, ◌-◌, ◌^◌, ◌<◌, ◌≤◌, ◌≡◌, ◌≢◌, inl, inr, refl, sym, ◌∙◌, ap, subst, Bool, true,
  false, some, List, [], ◌∷◌, ◌++◌, arith, length, get_elem?,
}
use horreum.Bytes.{Bytes, uint64}
use horreum.Arena.Allocator.{init, skip}
use horreum.Arena.Allocator
use horreum.Arena.Region.{Handle, Region, new_region, persist_reserved_bytes}
use horreum.Arena.Keeps.{Keeps, Keeps-read, free-Keeps}
use horreum.Arena.Manager.{Manager, new_manager, open_file_manager, view, bytes, free}
use horreum.Arena.Live.{
  in_region, Known, Holds, whether, at_index, changed, Holds-changed, new-Keeps,
}

in_region-append :
    (i : ℕ) (xs ys : List (Handle × Bytes))
    → in_region i (xs ++ ys) ≡ in_region i xs ++ in_region i ys
in_region-append i [] ys = refl
in_region-append i ((h, v) ∷ xs) ys = elim (whether h.region i) [
  | inl (_, t) ↦ rw t (ap (λ l. (h.offset, v) ∷ l) (in_region-append i xs ys))
  | inr (_, f) ↦ rw f (in_region-append i xs ys)
]

Known-out :
    (n : ℕ) (xs ys : List (Handle × Bytes)) (h : Handle) (v : Bytes)
    → Known n (xs ++ ((h, v) ∷ ys))
    → ((h.size ≡ length v) × (h.region < n)) × Known n (xs ++ ys)
Known-out n [] ys h v k = k
Known-out n ((g, x) ∷ xs) ys h v k = let (a, r) = Known-out n xs ys h v k.1 in (a, (k.0, r))

module _ (m : Manager) (xs ys : List (Handle × Bytes)) (h : Handle) (v : Bytes)
    (holds : Holds m (xs ++ ((h, v) ∷ ys))) where
  -- The region of the handle keeps its value.
  kept :
      (r : Region)
      → get_elem? m.regions h.region ≡ some r
      → Keeps r (in_region h.region xs ++ ((h.offset, v) ∷ in_region h.region ys))
  kept r here =
      subst (Keeps r)
        (in_region-append h.region xs ((h, v) ∷ ys) ∙ ap (λ l. in_region h.region xs ++ l) own)
        (holds.keeps h.region r here)
    where
      own : in_region h.region ((h, v) ∷ ys) ≡ (h.offset, v) ∷ in_region h.region ys
      own = ground arith

  known :
      ((h.size ≡ length v) × (h.region < length m.regions)) × Known (length m.regions) (xs ++ ys)
  known = Known-out (length m.regions) xs ys h v holds.known

  -- View of the handle of a value that the manager holds is the value.
  pub view-Holds : view m h ≡ bytes v
  unfolding view
  view-Holds =
      let (r, here) = at_index m.regions h.region known.0.1 in
      let (same, fits, inside) =
        Keeps-read r (in_region h.region xs) (in_region h.region ys) h.offset v (kept r here) in
      ground (arith, here, known.0.0, same, fits, inside)

  -- Free of the handle of a value that the manager holds succeeds, and the manager then holds
  -- all the other values.
  pub free-Holds : (m' : Manager) × (free m h ≡ some m') × Holds m' (xs ++ ys)
  unfolding free
  free-Holds =
      let (r, here) = at_index m.regions h.region known.0.1 in
      let (same, fits, inside) =
        Keeps-read r (in_region h.region xs) (in_region h.region ys) h.offset v (kept r here) in
      let n = uint64 (m.live_objs + (2 ^ 64 - 1)) in
      let r' : Region = record r { alloc = Allocator.free h.offset (length v) r.alloc } in
      (
        changed m h.region r' n,
        ground (arith, here, known.0.0, fits),
        Holds-changed m (xs ++ ((h, v) ∷ ys)) (xs ++ ys) h.region r' n holds known.0.1
            (subst (Keeps r') (sym (in_region-append h.region xs ys)) (
              free-Keeps r (in_region h.region xs) (in_region h.region ys) h.offset v
                (kept r here)))
            (λ j other.
              in_region-append j xs ys
              ∙ ap (λ l. in_region j xs ++ l) (sym (others j other))
              ∙ sym (in_region-append j xs ((h, v) ∷ ys)))
            known.1,
      )
    where
      others : (j : ℕ) → h.region ≢ j → in_region j ((h, v) ∷ ys) ≡ in_region j ys
      others j other = ground (arith, other)

pub reserved_lem : (n : ℕ) → n < 2 ^ 32 → persist_reserved_bytes n ≤ n
unfolding persist_reserved_bytes
reserved_lem n h = ground (arith, h)

pub skipped-Keeps :
    (size : ℕ) (d : Bytes)
    → size < 2 ^ 32
    → length d ≡ size
    → let r = new_region size d in
      Keeps (record r { alloc = skip (persist_reserved_bytes size) r.alloc }) []
unfolding skip new_region init
skipped-Keeps size d h e =
    let k = new-Keeps size d h e in
    record {
      sound = record {
        size_fits = omega (arith, h);
        inside = omega (arith, reserved_lem size h, h);
        lists = λ cls c. tt;
      };
      size_is = omega (arith, h, e);
      has_meta = (_, refl);
      below = tt;
      apart = tt;
      held = tt;
    }

one_region-Holds :
    (r : Region) (size : ℕ) (backed : Bool)
    → size < 2 ^ 32
    → Keeps r []
    → Holds
        (record {
          regions = r ∷ [];
          current_idx = 0;
          size = size;
          file_backed = backed;
          live_objs = 0;
        })
        []
one_region-Holds r size backed h k = record {
  current_inside = omega arith;
  few = omega arith;
  size_fits = h;
  known = tt;
  keeps = λ i q at. first i q at;
}
  where
    first : (i : ℕ) (q : Region) → get_elem? (r ∷ []) i ≡ some q → Keeps q []
    first zero q at = let same : r ≡ q = ground (arith, at) in subst (λ p. Keeps p []) same k
    first (suc i) q at = absurd (ground (arith, at))

-- A new manager and a manager of a file of less than 4 GiB hold no values, and have room for them
-- in their region.
pub manager-Holds :
    (size : ℕ) (d : Bytes)
    → size < 2 ^ 32
    → 1 ≤ size
    → length d ≡ size
    → Holds (new_manager size d) []
      × ((m : Manager) × (open_file_manager size d ≡ some m) × Holds m [])
unfolding new_manager open_file_manager
manager-Holds size d h some_size e = (
  one_region-Holds (new_region size d) size false h (new-Keeps size d h e),
  (_, ground (arith, some_size), one_region-Holds _ size true h (skipped-Keeps size d h e)),
)
