-- ===== src/Index/Probe.antt =====
-- The walk of index.go over the positions: where it ends, and what stands on its way.
use horreum.Common.{
  ℕ, zero, suc, ◌<◌, ◌≡◌, ◌≢◌, ◌⊎◌, inl, inr, ◌∙◌, ap, Bool, true, false, Option, none, some, arith,
  Bool-cases, Option-cases,
}
use horreum.Index.{vacant, found, walk}
use horreum.Index.Ring.{way, next, next_is}

-- The way from a position that is not the goal is one step longer than the way from the next one.
pub way-next :
    (cap a b : ℕ)
    → a < cap
    → b < cap
    → a ≢ b
    → (way cap a b ≡ suc (way cap (next cap a) b)) × (next cap a < cap)
way-next cap a b h k n = ground arith

pub way-closer :
    (cap a q b : ℕ)
    → a < cap
    → q < cap
    → b < cap
    → a ≢ b
    → way cap (next cap a) q < way cap (next cap a) b
    → way cap a q < way cap a b
way-closer cap a q b h k l n w = ground arith

pub whether : (a b : ℕ) → (a ≡ b) ⊎ (a ≢ b)
whether a b = ground arith

module _ {E : Type 0} (test : E → Bool) (cap : ℕ) (slots : ℕ → Option E) where
  module _ (n idx : ℕ) where
    walk-none : slots idx ≡ none → walk test cap slots (suc n) idx ≡ vacant idx
    unfolding walk
    walk-none e = ground (arith, e)

    walk-some :
        (e : E) → slots idx ≡ some e → test e ≡ true → walk test cap slots (suc n) idx ≡ found idx e
    unfolding walk
    walk-some e s t = ground (arith, s, t)

    walk-on :
        (e : E)
        → idx < cap
        → slots idx ≡ some e
        → test e ≡ false
        → walk test cap slots (suc n) idx ≡ walk test cap slots n (next cap idx)
    unfolding walk
    walk-on e h s t = ground (arith, s, t, ap (walk test cap slots n) (next_is cap idx h))

  -- The walk meets an entry that passes the test if every slot on the way is taken, and no other entry passes.
  pub walk-found :
      (n idx p : ℕ) (e : E)
      → idx < cap
      → p < cap
      → slots p ≡ some e
      → test e ≡ true
      → ((q : ℕ) (f : E) → q < cap → slots q ≡ some f → test f ≡ true → q ≡ p)
      → ((q : ℕ) → q < cap → way cap idx q < way cap idx p → slots q ≢ none)
      → way cap idx p < n
      → walk test cap slots n idx ≡ found p e
  walk-found zero idx p e hi hp s t only taken w = absurd (omega arith)
  walk-found (suc n) idx p e hi hp s t only taken w = elim (Option-cases (slots idx)) [
    | inl none_here ↦ elim (whether idx p) [
      | inl i ↦ absurd (ground (arith, none_here, s, ap slots i))
      | inr i ↦ absurd (taken idx hi (ground (arith, i)) none_here)
    ]
    | inr (f, here) ↦ elim (Bool-cases (test f)) [
      | inl yes_here ↦
          let i : idx ≡ p = only idx f hi here yes_here in
          ground (arith, walk-some n idx f here yes_here, i, ap slots i, here, s)
      | inr no_here ↦
          let i : idx ≢ p = λ i. absurd (ground (arith, ap slots i, here, s, t, no_here)) in
          let w1 = way-next cap idx p hi hp i in
          walk-on n idx f hi here no_here
          ∙ walk-found n (next cap idx) p e w1.1 hp s t only
              (λ q hq less. taken q hq (way-closer cap idx q p hi hq hp i less))
              (omega (arith, w1.0))
    ]
  ]

  -- The two ways in which a walk ends.
  pub record Vacancy (idx w : ℕ) : Type 0 where
    pub inside : w < cap
    pub free : slots w ≡ none
    pub taken : (q : ℕ) → q < cap → way cap idx q < way cap idx w → slots q ≢ none

  pub record Hit (p : ℕ) (e : E) : Type 0 where
    pub inside : p < cap
    pub here : slots p ≡ some e
    pub passes : test e ≡ true

  pub walk-ends :
      (n idx v : ℕ)
      → idx < cap
      → v < cap
      → slots v ≡ none
      → way cap idx v < n
      → ((w : ℕ) × (walk test cap slots n idx ≡ vacant w) × Vacancy idx w)
        ⊎ ((p : ℕ) × (e : E) × (walk test cap slots n idx ≡ found p e) × Hit p e)
  walk-ends zero idx v hi hv s w = absurd (omega arith)
  walk-ends (suc n) idx v hi hv s w = elim (Option-cases (slots idx)) [
    | inl free ↦ inl (
      idx,
      walk-none n idx free,
      record { inside = hi; free = free; taken = λ q hq less. absurd (ground arith) },
    )
    | inr (e, here) ↦ elim (Bool-cases (test e)) [
      | inl passes ↦ inr (
        idx,
        e,
        walk-some n idx e here passes,
        record { inside = hi; here = here; passes = passes },
      )
      | inr fails ↦
          let i : idx ≢ v = λ i. absurd (ground (arith, ap slots i, here, s)) in
          let w1 = way-next cap idx v hi hv i in
          elim (walk-ends n (next cap idx) v w1.1 hv s (omega (arith, w1.0))) [
            | inl (u, r, x) ↦ inl (
              u,
              walk-on n idx e hi here fails ∙ r,
              record {
                inside = x.inside;
                free = x.free;
                taken = λ q hq less. elim (whether idx q) [
                  | inl same ↦ λ t. absurd (ground (arith, ap slots same, here, t))
                  | inr other ↦
                      let u_other : idx ≢ u =
                        λ same. absurd (ground (arith, ap slots same, here, x.free)) in
                      let u1 = way-next cap idx u hi x.inside u_other in
                      let q1 = way-next cap idx q hi hq other in
                      x.taken q hq (omega (arith, u1.0, q1.0, less))
                ];
              },
            )
            | inr (p, f, r, x) ↦ inr (p, f, walk-on n idx e hi here fails ∙ r, x)
          ]
    ]
  ]
