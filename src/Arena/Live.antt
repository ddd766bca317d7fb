-- ===== src/Arena/Live.antt =====
-- The manager of internal/arena/arena.go holds every value that was put and not freed: what Put, Free
-- and View do to the values that are live.
use horreum.Common.{
  ℕ, zero, suc, ◌+◌, ◌*◌, ◌^◌, ◌<◌, ◌≤◌, ◌≡◌, ◌≢◌, ◌⊎◌, inl, inr, refl, sym, ◌∙◌, ap, subst, true,
  false, Option, some, none, List, [], ◌∷◌, ◌++◌, arith, ltb, leb, ◌==◌, if◌then◌else◌, length, set,
  get_elem?, length-set, get_elem?-set_self, get_elem?-set_ne, length-append, Option-cases,
  Bool-cases,
}
use horreum.Bytes.{Bytes, uint32, uint64}
use horreum.Arena.Allocator.{init}
use horreum.Arena.Region.{Handle, Region, new_region}
use horreum.Arena.Keeps.{Keeps, place_value-cases}
use horreum.Arena.Manager.{
  Manager, Stored, stored, size_too_large, arena_full, map_failed, panics, placed, no_room, attempt,
  put_slow, put,
}

-- The values in one region, with their offsets.
abbrev pub in_region : ℕ → List (Handle × Bytes) → List (ℕ × Bytes)
in_region i [] = []
in_region i ((h, v) ∷ live) =
    if h.region == i then (h.offset, v) ∷ in_region i live else in_region i live

-- The handles have the sizes of their values, and name regions below `n`.
abbrev pub Known : ℕ → List (Handle × Bytes) → Type 0
Known n [] = Unit
Known n ((h, v) ∷ live) = ((h.size ≡ length v) × (h.region < n)) × Known n live

-- The values `live` are live in the manager.
pub record Holds (m : Manager) (live : List (Handle × Bytes)) : Type 0 where
  pub current_inside : m.current_idx < length m.regions
  pub few : length m.regions ≤ 256
  pub size_fits : m.size < 2 ^ 32
  pub known : Known (length m.regions) live
  pub keeps : (i : ℕ) (r : Region) → get_elem? m.regions i ≡ some r → Keeps r (in_region i live)

pub whether : (a b : ℕ) → ((a ≡ b) × ((a == b) ≡ true)) ⊎ ((a ≢ b) × ((a == b) ≡ false))
whether a b = ground arith

pub at_index :
    {A : Type 0} (xs : List A) (i : ℕ) → i < length xs → (x : A) × (get_elem? xs i ≡ some x)
at_index [] i h = absurd (omega (arith, h))
at_index (x ∷ xs) zero h = (x, refl)
at_index (x ∷ xs) (suc i) h = at_index xs i (omega (arith, h))

pub inside_index :
    {A : Type 0} (xs : List A) (i : ℕ) (x : A) → get_elem? xs i ≡ some x → i < length xs
inside_index [] i x e = absurd (ground (arith, e))
inside_index (x ∷ xs) zero y e = omega arith
inside_index (x ∷ xs) (suc i) y e = omega (arith, inside_index xs i y e)

at_append :
    {A : Type 0} (xs : List A) (x : A) (i : ℕ) (y : A)
    → get_elem? (xs ++ (x ∷ [])) i ≡ some y
    → (get_elem? xs i ≡ some y) ⊎ ((i ≡ length xs) × (x ≡ y))
at_append [] x zero y e = inr (refl, ground (arith, e))
at_append [] x (suc i) y e = absurd (ground (arith, e))
at_append (z ∷ xs) x zero y e = inl e
at_append (z ∷ xs) x (suc i) y e = elim (at_append xs x i y e) [
  | inl old ↦ inl old
  | inr (at_end, same) ↦ inr (omega (arith, at_end), same)
]

Known-grow : (n n' : ℕ) (live : List (Handle × Bytes)) → n ≤ n' → Known n live → Known n' live
Known-grow n n' [] l k = tt
Known-grow n n' ((h, v) ∷ live) l k = ((k.0.0, omega (arith, k.0.1, l)), Known-grow n n' live l k.1)

in_region-above : (n : ℕ) (live : List (Handle × Bytes)) → Known n live → in_region n live ≡ []
in_region-above n [] k = refl
in_region-above n ((h, v) ∷ live) k = ground (arith, k.0.1, in_region-above n live k.1)

-- The manager with another region at `i`, and its counter of objects.
abbrev pub changed : Manager → ℕ → Region → ℕ → Manager
changed m i r n = record m { regions = set m.regions i r; live_objs = n }

-- A change of one region and of its values.
pub Holds-changed :
    (m : Manager) (live live' : List (Handle × Bytes)) (i : ℕ) (r' : Region) (n : ℕ)
    → Holds m live
    → i < length m.regions
    → Keeps r' (in_region i live')
    → ((j : ℕ) → i ≢ j → in_region j live' ≡ in_region j live)
    → Known (length m.regions) live'
    → Holds (changed m i r' n) live'
Holds-changed m live live' i r' n holds hi kept others known = record {
  current_inside = omega (arith, holds.current_inside, same_length);
  few = omega (arith, holds.few, same_length);
  size_fits = holds.size_fits;
  known = subst (λ k. Known k live') (sym same_length) known;
  keeps = λ j q at. elim (whether i j) [
    | inl (same, _) ↦
        let here : get_elem? (set m.regions i r') i ≡ some q =
          subst (λ k. get_elem? (set m.regions i r') k ≡ some q) (sym same) at in
        let q_is : r' ≡ q = ground (arith, here, get_elem?-set_self m.regions i r' hi) in
        subst (λ k. Keeps q (in_region k live')) same
          (subst (λ p. Keeps p (in_region i live')) q_is kept)
    | inr (other, _) ↦
        subst (Keeps q) (sym (others j other))
          (holds.keeps j q (sym (get_elem?-set_ne m.regions r' other) ∙ at))
  ];
}
  where
    same_length : length (set m.regions i r') ≡ length m.regions
    same_length = length-set m.regions i r'

module _ (m : Manager) (live : List (Handle × Bytes)) (holds : Holds m live) (v : Bytes)
    (short : length v + 7 < 2 ^ 32) where
  -- An attempt of Put finds no room, or the manager it leaves holds the value too.
  attempt-cases :
      (attempt m m.current_idx v (length v) ≡ no_room)
      ⊎ ((h : Handle) × (m' : Manager) × (attempt m m.current_idx v (length v) ≡ placed h m')
          × Holds m' ((h, v) ∷ live))
  unfolding attempt
  attempt-cases =
      let idx = m.current_idx in
      let (r, here) = at_index m.regions idx holds.current_inside in
      elim (place_value-cases v r (in_region idx live) (holds.keeps idx r here) short) [
        | inl full ↦ inl (ground (arith, here, full))
        | inr (off, r', run, kept) ↦
            let h : Handle = record { offset = off; size = length v; meta = 0; region = idx } in
            inr (
              h,
              changed m idx r' (uint64 (m.live_objs + 1)),
              ground (arith, here, run),
              Holds-changed m live ((h, v) ∷ live) idx r' (uint64 (m.live_objs + 1)) holds
                  holds.current_inside (subst (Keeps r') (sym (own h)) kept) (other h)
                  ((refl, holds.current_inside), holds.known),
            )
      ]
    where
      own :
          (h : Handle)
          → in_region h.region ((h, v) ∷ live) ≡ (h.offset, v) ∷ in_region h.region live
      own h = ground arith

      other : (h : Handle) (j : ℕ) → h.region ≢ j → in_region j ((h, v) ∷ live) ≡ in_region j live
      other h j off = ground (arith, off)

-- A fresh region keeps no values.
pub new-Keeps :
    (size : ℕ) (d : Bytes) → size < 2 ^ 32 → length d ≡ size → Keeps (new_region size d) []
unfolding new_region init
new-Keeps size d h e = record {
  sound = record { size_fits = omega (arith, h); inside = omega arith; lists = λ cls c. tt };
  size_is = omega (arith, h, e);
  has_meta = (_, refl);
  below = tt;
  apart = tt;
  held = tt;
}

-- The manager with one more region, which is the current one.
abbrev extended : Manager → Bytes → Manager
extended m d = record m {
  regions = m.regions ++ (new_region m.size d ∷ []);
  current_idx = length m.regions;
}

Holds-extended :
    (m : Manager) (live : List (Handle × Bytes)) (d : Bytes)
    → Holds m live
    → length m.regions < 256
    → length d ≡ m.size
    → Holds (extended m d) live
Holds-extended m live d holds room e = record {
  current_inside = omega (arith, longer);
  few = omega (arith, longer, room);
  size_fits = holds.size_fits;
  known = Known-grow (length m.regions) _ live (omega (arith, longer)) holds.known;
  keeps = λ i r at. elim (at_append m.regions (new_region m.size d) i r at) [
    | inl old ↦ holds.keeps i r old
    | inr (at_end, same) ↦
        subst (λ q. Keeps q (in_region i live)) same
          (subst (Keeps (new_region m.size d))
            (sym (
              ap (λ k. in_region k live) at_end
              ∙ in_region-above (length m.regions) live holds.known))
            (new-Keeps m.size d holds.size_fits e))
  ];
}
  where
    longer : length (m.regions ++ (new_region m.size d ∷ [])) ≡ suc (length m.regions)
    longer = omega (arith, length-append m.regions (new_region m.size d ∷ []))

-- What Put of `v` may leave of a manager that holds `live`.
abbrev pub PutHolds : (ℕ → Option Bytes) → Manager → List (Handle × Bytes) → Bytes → Stored → Type 0
PutHolds map_region m live v (stored h m') = Holds m' ((h, v) ∷ live)
PutHolds map_region m live v size_too_large = 64 * 2 ^ 20 < length v
PutHolds map_region m live v (arena_full m') = Holds m' live
PutHolds map_region m live v map_failed = map_region m.size ≡ none
PutHolds map_region m live v panics = ⊥

module _ (map_region : ℕ → Option Bytes) (m : Manager) (live : List (Handle × Bytes)) (v : Bytes)
    (mapped : (d : Bytes) → map_region m.size ≡ some d → length d ≡ m.size)
    (holds : Holds m live) where
  returns_this :
      (s t : Stored) → s ≡ t → PutHolds map_region m live v t → PutHolds map_region m live v s
  returns_this s t e h = subst (PutHolds map_region m live v) (sym e) h

  put_slow-Holds :
      length v + 7 < 2 ^ 32 → PutHolds map_region m live v (put_slow map_region m v (length v))
  unfolding put_slow
  put_slow-Holds short = elim (attempt-cases m live holds v short) [
    | inr (h, m', run, after) ↦ returns_this _ (stored h m') (ground (arith, run)) after
    | inl full ↦ elim (Bool-cases (leb 256 (length m.regions))) [
      | inl many ↦ returns_this _ (arena_full m) (ground (arith, full, many)) holds
      | inr room ↦ elim (Option-cases (map_region m.size)) [
        | inl failed ↦ returns_this _ map_failed (ground (arith, full, room, failed)) failed
        | inr (d, got) ↦
            let more = Holds-extended m live d holds (ground (arith, room)) (mapped d got) in
            elim (attempt-cases (extended m d) live more v short) [
              | inl again ↦
                  returns_this _ (arena_full (extended m d))
                    (ground (arith, full, room, got, again)) more
              | inr (h, m', run, after) ↦
                  returns_this _ (stored h m') (ground (arith, full, room, got, run)) after
            ]
      ]
    ]
  ]

  -- Put of a value of less than 4 GiB into a manager that holds the values `live` never panics,
  -- if the system maps new regions of the size asked for. If it stores the value, the manager
  -- holds it next to all the values that were live; if the arena is full, the manager still
  -- holds those; else the value is longer than 64 MiB, or no region could be mapped.
  pub put-Holds : length v < 2 ^ 32 → PutHolds map_region m live v (put map_region m v)
  unfolding put
  put-Holds fits = elim (Bool-cases (ltb (64 * 2 ^ 20) (length v))) [
    | inl large ↦
        returns_this _ size_too_large (ground (arith, n_is, large)) (ground (arith, large))
    | inr short ↦
        let small : length v + 7 < 2 ^ 32 = ground (arith, short) in
        elim (attempt-cases m live holds v small) [
          | inl full ↦
              returns_this _ (put_slow map_region m v (length v))
                (ground (arith, n_is, short, full)) (put_slow-Holds small)
          | inr (h, m', run, after) ↦
              returns_this _ (stored h m') (ground (arith, n_is, short, run)) after
        ]
  ]
    where
      n_is : uint32 (length v) ≡ length v
      n_is = omega (arith, fits)
