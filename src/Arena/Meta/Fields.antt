-- ===== src/Arena/Meta/Fields.antt =====
-- The frequency and the other bits of a counter of internal/arena/arena.go do not disturb each other.
use horreum.Common.{
  ℕ, ◌+◌, ◌*◌, ◌/◌, ◌%◌, ◌^◌, ◌<◌, ◌≡◌, ◌≢◌, ◌⊎◌, inl, inr, refl, sym, ◌∙◌, ap, ap₂, subst, false,
  some, leb, ◌==◌, if◌then◌else◌, set, get_elem?, arith, Option-cases, Bool-cases,
  get_elem?-set_self, get_elem?-set_ne,
}
use Prim.Native.Nat.{bit_and, bit_or}
use horreum.Bytes.{uint16}
use horreum.Bytes.Bits.{and_not, bit_and_low, and_not_low, bit_or_low, bit_or_high, and_not_high}
use horreum.Arena.Region.{Handle, Region, meta_len}
use horreum.Arena.Manager.{Manager}
use horreum.Arena.Live.{whether, inside_index}
use horreum.Arena.Meta.{
  meta_at, set_meta, inc_freq, get_freq, set_freq, or_meta_bits, clear_meta_bits,
}

-- Another counter than that of `h`.
abbrev pub OtherCounter : Handle → Handle → Type 0
OtherCounter h g = (h.region ≢ g.region) ⊎ ((h.region ≡ g.region) × (h.offset / 8 ≢ g.offset / 8))

module _ (m : Manager) (h : Handle) (cur : ℕ) (here : meta_at m h ≡ some cur) where
  -- The region and the slice behind the guards.
  behind :
      (r : Region) × (at : ℕ → ℕ) × (get_elem? m.regions h.region ≡ some r)
      × (r.meta ≡ some at)
      × (leb (meta_len r) (h.offset / 8) ≡ false)
      × (at (h.offset / 8) ≡ cur)
  unfolding meta_at
  behind = elim (Option-cases (get_elem? m.regions h.region)) [
    | inl none_there ↦ absurd (ground (arith, here, none_there))
    | inr (r, region) ↦ elim (Option-cases r.meta) [
      | inl nil ↦ absurd (ground (arith, here, region, nil))
      | inr (at, slice) ↦ elim (Bool-cases (leb (meta_len r) (h.offset / 8))) [
        | inl out ↦ absurd (ground (arith, here, region, slice, out))
        | inr inside ↦ (r, at, region, slice, inside, ground (arith, here, region, slice, inside))
      ]
    ]
  ]

  stored_at : (v : ℕ) → meta_at (set_meta m h v) h ≡ some v
  unfolding meta_at set_meta
  stored_at v =
      let (r, at, region, slice, inside, value) = behind in
      let written : Region = record r {
        meta = some (λ i. if i == h.offset / 8 then v else at i);
      } in
      ground (
        arith,
        region,
        slice,
        inside,
        get_elem?-set_self m.regions h.region written (inside_index m.regions h.region r region),
      )

  kept_at : (v : ℕ) (g : Handle) → OtherCounter h g → meta_at (set_meta m h v) g ≡ meta_at m g
  unfolding meta_at set_meta
  kept_at v g other =
      let (r, at, region, slice, inside, value) = behind in
      let written : Region = record r {
        meta = some (λ i. if i == h.offset / 8 then v else at i);
      } in
      elim other [
        | inl apart ↦
            ground (arith, region, slice, inside, get_elem?-set_ne m.regions written apart)
        | inr (same, off) ↦
            let there =
              get_elem?-set_self m.regions h.region written
                (inside_index m.regions h.region r region) in
            let region_g = ap (get_elem? m.regions) (sym same) ∙ region in
            let there_g = ap (get_elem? (set m.regions h.region written)) (sym same) ∙ there in
            ground (arith, region, slice, inside, region_g, there_g, off)
      ]

-- The counter of `h` is now `upper` above `freq`, and every other counter is as before.
pub record Counter (m m' : Manager) (h : Handle) (freq upper : ℕ) : Type 0 where
  pub value : ℕ
  pub there : meta_at m' h ≡ some value
  pub freq_is : value % 4 ≡ freq
  pub upper_is : value / 4 ≡ upper
  pub others : (g : Handle) → OtherCounter h g → meta_at m' g ≡ meta_at m g

module _ (m : Manager) (h : Handle) (cur : ℕ) (here : meta_at m h ≡ some cur) where
  stored-Counter :
      (v freq upper : ℕ) → v % 4 ≡ freq → v / 4 ≡ upper → Counter m (set_meta m h v) h freq upper
  stored-Counter v freq upper low high = record {
    value = v;
    there = stored_at m h cur here v;
    freq_is = low;
    upper_is = high;
    others = kept_at m h cur here v;
  }

  -- A store that is left out if the counter would not change.
  stored_unless-Counter :
      (v freq upper : ℕ)
      → v % 4 ≡ freq
      → v / 4 ≡ upper
      → Counter m (if v == cur then m else set_meta m h v) h freq upper
  stored_unless-Counter v freq upper low high = elim (whether v cur) [
    | inr (_, other) ↦ rw other (stored-Counter v freq upper low high)
    | inl (same, t) ↦ rw t (record {
      value = cur;
      there = here;
      freq_is = omega (arith, low, same);
      upper_is = omega (arith, high, same);
      others = λ g other. refl;
    })
  ]

  next_freq : bit_and (bit_and cur 3 + 1) 3 ≡ (cur + 1) % 4
  next_freq = omega (arith, bit_and_low (bit_and cur 3 + 1), bit_and_low cur)

  inc_freq_word :
      bit_or (and_not cur 3) (bit_and (bit_and cur 3 + 1) 3) ≡ cur / 4 * 4 + (cur + 1) % 4
  inc_freq_word =
      ap₂ bit_or (and_not_low cur) next_freq ∙ bit_or_low (cur / 4) ((cur + 1) % 4) (omega arith)

  set_freq_word : (freq : ℕ) → bit_or (and_not cur 3) (bit_and freq 3) ≡ cur / 4 * 4 + freq % 4
  set_freq_word freq =
      ap₂ bit_or (and_not_low cur) (bit_and_low freq)
      ∙ bit_or_low (cur / 4) (freq % 4) (omega arith)

  -- On a counter of 16 bits, IncFreq counts up modulo 4, SetFreq writes modulo 4, GetFreq reads
  -- modulo 4, and the first two leave the other bits; OrMetaBits and ClearMetaBits of bits above
  -- the frequency leave the frequency, and set or clear the others. No operation changes the
  -- counter at another place.
  pub meta_operations-Counter :
      (freq bits : ℕ)
      → cur < 2 ^ 16
      → bits % 4 ≡ 0
      → Counter m (inc_freq m h).1 h ((cur + 1) % 4) (cur / 4)
        × ((inc_freq m h).0 ≡ (cur + 1) % 4)
        × (get_freq m h ≡ cur % 4)
        × Counter m (set_freq m h freq) h (freq % 4) (cur / 4)
        × Counter m (or_meta_bits m h bits) h (cur % 4) (bit_or (cur / 4) (bits / 4))
        × Counter m (clear_meta_bits m h bits) h (cur % 4) (and_not (cur / 4) (bits / 4))
  unfolding inc_freq get_freq set_freq or_meta_bits clear_meta_bits
  meta_operations-Counter freq bits fits above = (
    by_state (inc_freq m h).1
        (set_meta m h (bit_or (and_not cur 3) (bit_and (bit_and cur 3 + 1) 3))) _ _
        (ground (arith, here))
        (stored-Counter _ _ _ (omega (arith, inc_freq_word)) (omega (arith, inc_freq_word))),
    ground (arith, here, next_freq),
    ground (arith, here, bit_and_low cur),
    by_state (set_freq m h freq) (unless (bit_or (and_not cur 3) (bit_and freq 3))) _ _
        (ground (arith, here))
        (stored_unless-Counter _ _ _ (omega (arith, set_freq_word freq))
          (omega (arith, set_freq_word freq))),
    by_state (or_meta_bits m h bits) (unless (bit_or cur bits)) _ _ (ground (arith, here, word)) (
        stored_unless-Counter _ _ _ (omega (arith, bit_or_high cur bits above))
          (omega (arith, bit_or_high cur bits above))),
    by_state (clear_meta_bits m h bits) (unless (and_not cur bits)) _ _ (ground (arith, here, word))
        (stored_unless-Counter _ _ _ (omega (arith, and_not_high cur bits above))
          (omega (arith, and_not_high cur bits above))),
  )
    where
      word : uint16 cur ≡ cur
      word = omega (arith, fits)

      unless : ℕ → Manager
      unless v = if v == cur then m else set_meta m h v

      by_state : (x y : Manager) (f u : ℕ) → x ≡ y → Counter m y h f u → Counter m x h f u
      by_state x y f u e c = subst (λ z. Counter m z h f u) (sym e) c
