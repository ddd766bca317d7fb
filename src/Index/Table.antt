-- ===== src/Index/Table.antt =====
-- The tables of index.go that its operations keep, and the map that such a table stands for.
use horreum.Common.{
  ℕ, ◌%◌, ◌<◌, ◌≤◌, ◌≡◌, ◌≢◌, ◌⊎◌, inl, inr, sym, ◌∙◌, ap, subst, true, Option, none, some, arith,
  length,
}
use native.Mathlib.Nat.{mod-lt}
use horreum.Bytes.{Bytes, uint16, bytes_eq→eq, bytes_eq_self}
use horreum.Index.{Entry, HashIndex, vacant, found, endless, walk_to, home, is_entry_of, fnv64}
use horreum.Index.Ring.{way}
use horreum.Index.Probe.{walk-found, walk-ends, Vacancy}
use horreum.Index.Shift.{Held, Clear, Distinct}
use horreum.Index.Close.{occupied, vacancy}

pub way_short : (cap a b : ℕ) → a < cap → b < cap → way cap a b < cap
way_short c a b h k = ground arith

module _ {H : Type 0} where
  abbrev pub key_of : Entry H → Bytes
  key_of e = e.key

  -- The entry stands in the table.
  abbrev pub Has : HashIndex H → Entry H → Type 0
  Has h e = Held (home h.cap) key_of h.cap h.slots e

  -- The entry's hash and key length are those of its key.
  pub record Hashed (e : Entry H) : Type 0 where
    pub hash_is : e.hash ≡ fnv64 e.key
    pub key_len_is : e.key_len ≡ uint16 (length e.key)

  -- A table whose walks all end: a slot is free, no key stands twice, no gap is on the way to an entry.
  pub record IsTable (h : HashIndex H) : Type 0 where
    pub roomy : 4 ≤ h.cap
    pub spare : h.count < h.cap
    pub counted : occupied h.cap h.slots ≡ h.count
    pub clear : Clear (home h.cap) key_of h.cap h.slots
    pub distinct : Distinct (home h.cap) key_of h.cap h.slots
    pub hashed : (e : Entry H) → Has h e → Hashed e

  pub homes : (cap : ℕ) → 4 ≤ cap → (e : Entry H) → home cap e < cap
  homes cap r e = mod-lt e.hash (omega (arith, r))

  is_entry_of_self : (e : Entry H) (k : Bytes) → Hashed e → e.key ≡ k → is_entry_of k e ≡ true
  is_entry_of_self e k x same =
      subst (λ j. is_entry_of j e ≡ true) same
        (ground (arith, x.hash_is, x.key_len_is, bytes_eq_self e.key))

  pub is_entry_of→eq : (e : Entry H) (k : Bytes) → is_entry_of k e ≡ true → e.key ≡ k
  is_entry_of→eq e k t = bytes_eq→eq e.key k (ground (arith, t))

  -- The map: the handle and the expiry of the entry with a key.
  unfoldable pub view : HashIndex H → Bytes → Option (H × ℕ)
  view h key = elim (walk_to h key) [
    | vacant idx ↦ none
    | found idx e ↦ some (e.handle, e.expires_at)
    | endless ↦ none
  ]

  module _ (h : HashIndex H) (t : IsTable h) where
    -- The walk to a key that has an entry ends there.
    pub walk_to-Has :
        (p : ℕ) (e : Entry H) (k : Bytes)
        → p < h.cap
        → h.slots p ≡ some e
        → e.key ≡ k
        → walk_to h k ≡ found p e
    walk_to-Has p e k hp s same =
        let x = t.hashed e (p, hp, s) in
        let start : fnv64 k % h.cap ≡ home h.cap e =
          ap (λ n. n % h.cap) (ap fnv64 (sym same) ∙ sym x.hash_is) in
        let hi : fnv64 k % h.cap < h.cap = mod-lt (fnv64 k) (omega (arith, t.roomy)) in
        walk-found (is_entry_of k) h.cap h.slots h.cap (fnv64 k % h.cap) p e hi hp s
          (is_entry_of_self e k x same)
          (λ q f hq sq passes. t.distinct q p f e hq hp sq s (is_entry_of→eq f k passes ∙ sym same))
          (λ q hq less.
            t.clear p q e hp hq s (subst (λ n. way h.cap n q < way h.cap n p) start less))
          (way_short h.cap (fnv64 k % h.cap) p hi hp)

    pub view-Has :
        (e : Entry H) (k : Bytes) → Has h e → e.key ≡ k → view h k ≡ some (e.handle, e.expires_at)
    unfolding view
    view-Has e k (p, hp, s) same = ground (arith, walk_to-Has p e k hp s same)

    -- How the walk to a key ends: at a free slot, if no entry has it, or at its entry.
    pub walk_to-cases :
        (k : Bytes)
        → ((w : ℕ) × (walk_to h k ≡ vacant w)
            × Vacancy (is_entry_of k) h.cap h.slots (fnv64 k % h.cap) w
            × ((e : Entry H) → Has h e → e.key ≢ k))
          ⊎ ((p : ℕ) × (e : Entry H) × (walk_to h k ≡ found p e)
              × (p < h.cap)
              × (h.slots p ≡ some e)
              × (e.key ≡ k))
    walk_to-cases k =
        let (v, hv, free) = vacancy h.cap h.slots (omega (arith, t.counted, t.spare)) in
        let hi : fnv64 k % h.cap < h.cap = mod-lt (fnv64 k) (omega (arith, t.roomy)) in
        elim (walk-ends (is_entry_of k) h.cap h.slots h.cap (fnv64 k % h.cap) v hi hv free
          (way_short h.cap (fnv64 k % h.cap) v hi hv)) [
            | inl (w, r, x) ↦ inl (
              w,
              r,
              x,
              λ e (p, hp, s) same. absurd (ground (arith, r, walk_to-Has p e k hp s same)),
            )
            | inr (p, e, r, x) ↦ inr (p, e, r, x.inside, x.here, is_entry_of→eq e k x.passes)
          ]

    pub view-absent : (k : Bytes) → ((e : Entry H) → Has h e → e.key ≢ k) → view h k ≡ none
    unfolding view
    view-absent k no_entry = elim (walk_to-cases k) [
      | inl (w, r, _, _) ↦ ground (arith, r)
      | inr (p, e, r, hp, s, same) ↦ absurd (no_entry e (p, hp, s) same)
    ]

  -- Two tables with the same entries but for one key have the same map but for that key.
  pub view-agree :
      (h h' : HashIndex H) (k j : Bytes)
      → IsTable h
      → IsTable h'
      → ((e : Entry H) → e.key ≢ k → Has h e → Has h' e)
      → ((e : Entry H) → e.key ≢ k → Has h' e → Has h e)
      → j ≢ k
      → view h' j ≡ view h j
  view-agree h h' k j t t' kept only other = elim (walk_to-cases h t j) [
    | inl (w, r, x, none_has) ↦
        view-absent h' t' j
          (λ e in_new same. none_has e (only e (λ ek. other (sym same ∙ ek)) in_new) same)
        ∙ sym (view-absent h t j none_has)
    | inr (p, e, r, hp, s, same) ↦
        view-Has h' t' e j (kept e (λ ek. other (sym same ∙ ek)) (p, hp, s)) same
        ∙ sym (view-Has h t e j (p, hp, s) same)
  ]
