-- ===== src/Index.antt =====
-- internal/index/index.go: the open-addressed table with linear probing, for any type of handles. The
-- arrays buckets and keys are one function from the position: a nil key with its zero Entry is
-- `none`. The capacity is a power of two, so that `& mask` is the remainder by it. A loop without a
-- bound runs on as many rounds as there are positions, and `forever` is a loop that goes on.
pub mod Rounds
pub mod Ring
pub mod Probe
pub mod Shift
pub mod Close
pub mod Table
pub mod Store
pub mod Delete
pub mod Grow
pub mod Nil
pub mod Refine
pub mod Scan
pub mod Restore
pub mod Examples
use horreum.Common.{
  ℕ, zero, suc, ◌+◌, ◌-◌, ◌*◌, ◌/◌, ◌%◌, ◌^◌, Bool, true, false, Option, none, some, List, [], ◌∷◌,
  ◌++◌, ltb, leb, ◌==◌, ◌&&◌, ◌||◌, if◌then◌else◌, not, length, take,
}
use Prim.Native.Nat.{bit_or, bit_xor}
use horreum.Bytes.{Bytes, uint16, uint64, bytes_eq}
use horreum.Index.Rounds.{Loop, returns, forever, ◌>>=◌}

-- Entry, with the key of the same position.
pub record Entry (H : Type 0) : Type 0 where
  pub hash : ℕ
  pub key_len : ℕ
  pub handle : H
  pub expires_at : ℕ
  pub key : Bytes

pub record HashIndex (H : Type 0) : Type 0 where
  pub cap : ℕ
  pub slots : ℕ → Option (Entry H)
  pub count : ℕ
  pub scan_cursor : ℕ

-- fnv64
abbrev pub fnv64_from : ℕ → Bytes → ℕ
fnv64_from hash [] = hash
fnv64_from hash (b ∷ rest) = fnv64_from (uint64 (bit_xor hash b * 1099511628211)) rest

unfoldable pub fnv64 : Bytes → ℕ
fnv64 bytes = fnv64_from 14695981039346656037 bytes

-- nextPowerOfTwo
unfoldable pub next_power_of_two : ℕ → ℕ
next_power_of_two n =
    let m = n - 1 in
    let m1 = bit_or m (m / 2) in
    let m2 = bit_or m1 (m1 / 2 ^ 2) in
    let m3 = bit_or m2 (m2 / 2 ^ 4) in
    let m4 = bit_or m3 (m3 / 2 ^ 8) in
    let m5 = bit_or m4 (m4 / 2 ^ 16) in
    let m6 = bit_or m5 (m5 / 2 ^ 32) in if n == 0 then 1 else uint64 (m6 + 1)

-- How the walk over the positions ends: at an empty one, at an entry that passes the test, or not.
pub data Walk (E : Type 0) : Type 0 where
  vacant : ℕ → Walk E
  found : ℕ → E → Walk E
  endless : Walk E

-- The condition under which deleteAt moves the entry at `curr` to `gap`.
abbrev pub moves : (gap curr desired : ℕ) → Bool
moves gap curr desired =
    (ltb gap curr && (leb desired gap || ltb curr desired))
    || (ltb curr gap && (leb desired gap && ltb curr desired))

module _ {E : Type 0} where
  -- The loop that Put, Get, Delete and Add share, over `n` rounds.
  unfoldable pub walk : (E → Bool) → ℕ → (ℕ → Option E) → ℕ → ℕ → Walk E
  walk test cap slots zero idx = endless
  walk test cap slots (suc n) idx =
      let rest = walk test cap slots n ((idx + 1) % cap) in
      elim (slots idx) [ none ↦ vacant idx | some e ↦ if test e then found idx e else rest ]

  abbrev pub put_slot : ℕ → Option E → (ℕ → Option E) → ℕ → Option E
  put_slot i e slots j = if j == i then e else slots j

  -- The loop of deleteAt, over `n` rounds; `home` is an entry's Hash & mask.
  unfoldable pub shift_back : (E → ℕ) → ℕ → ℕ → (ℕ → Option E) → ℕ → ℕ → Loop (ℕ → Option E)
  shift_back home cap zero slots gap curr = forever
  shift_back home cap (suc n) slots gap curr = elim (slots curr) [
    | none ↦ returns slots
    | some e ↦ elim (moves gap curr (home e)) [
      | true ↦
          shift_back home cap n (put_slot curr none (put_slot gap (some e) slots)) curr
            ((curr + 1) % cap)
      | false ↦ shift_back home cap n slots gap ((curr + 1) % cap)
    ]
  ]

module _ {H : Type 0} where
  abbrev pub home : ℕ → Entry H → ℕ
  home cap e = e.hash % cap

  -- The three comparisons with a key and its hash.
  abbrev pub is_entry_of : Bytes → Entry H → Bool
  is_entry_of key e =
      e.hash == fnv64 key && (e.key_len == uint16 (length key) && bytes_eq e.key key)

  abbrev pub walk_to : HashIndex H → Bytes → Walk (Entry H)
  walk_to h key = walk (is_entry_of key) h.cap h.slots h.cap (fnv64 key % h.cap)

  abbrev pub entry_of : Bytes → H → ℕ → Entry H
  entry_of key hd expires_at = record {
    hash = fnv64 key;
    key_len = uint16 (length key);
    handle = hd;
    expires_at = expires_at;
    key = key;
  }

  abbrev pub empty_table : ℕ → HashIndex H
  empty_table cap = record { cap = cap; slots = λ i. none; count = 0; scan_cursor = 0 }

  -- New, NewForCount
  unfoldable pub new : ℕ → HashIndex H
  new initial_buckets = empty_table (next_power_of_two initial_buckets)

  unfoldable pub new_for_count : ℕ → HashIndex H
  new_for_count n =
      let cap = next_power_of_two (n * 2) in empty_table (if ltb cap 8 then 8 else cap)

  -- Put of a key that is not nil, behind its call of grow.
  unfoldable pub place : HashIndex H → Bytes → H → ℕ → Loop (HashIndex H × Bool)
  place h key hd expires_at = elim (walk_to h key) [
    | vacant idx ↦ returns (
      record h {
        slots = put_slot idx (some (entry_of key hd expires_at)) h.slots;
        count = h.count + 1;
      },
      false,
    )
    | found idx e ↦ returns (
      record h {
        slots =
            put_slot idx (some (record e { handle = hd; expires_at = expires_at; key = key }))
              h.slots;
      },
      true,
    )
    | endless ↦ forever
  ]

  -- The loop of grow over the old positions, with `put_one` for its calls of Put.
  unfoldable pub put_all :
      (HashIndex H → Bytes → H → ℕ → Loop (HashIndex H × Bool))
      → (ℕ → Option (Entry H))
      → ℕ
      → ℕ
      → HashIndex H
      → Loop (HashIndex H)
  put_all put_one old zero i h = returns h
  put_all put_one old (suc n) i h = elim (old i) [
    | none ↦ put_all put_one old n (suc i) h
    | some e ↦ put_one h e.key e.handle e.expires_at >>= λ r. put_all put_one old n (suc i) r.0
  ]

  -- Put, whose calls of grow nest `depth` deep.
  unfoldable pub put_nested : ℕ → HashIndex H → Bytes → H → ℕ → Loop (HashIndex H × Bool)
  put_nested zero h key hd expires_at = place h key hd expires_at
  put_nested (suc depth) h key hd expires_at = elim (leb (h.cap * 3) (h.count * 4)) [
    | false ↦ place h key hd expires_at
    | true ↦ put_all (put_nested depth) h.slots h.cap 0 (empty_table (h.cap * 2)) >>= λ h'.
        place h' key hd expires_at
  ]

  -- Put of a key that is not nil. The table that grow fills is at most half full, so the Puts there
  -- never grow.
  unfoldable pub put : HashIndex H → Bytes → H → ℕ → Loop (HashIndex H × Bool)
  put h key hd expires_at = put_nested 2 h key hd expires_at

  -- Put of a nil key, behind its call of grow and with it. A nil key goes in as a copy, the empty key,
  -- but an update stores the nil itself, and the position then counts as empty.
  unfoldable pub place_nil : HashIndex H → H → ℕ → Loop (HashIndex H × Bool)
  place_nil h hd expires_at = elim (walk_to h []) [
    | vacant idx ↦ returns (
      record h {
        slots = put_slot idx (some (entry_of [] hd expires_at)) h.slots;
        count = h.count + 1;
      },
      false,
    )
    | found idx e ↦ returns (record h { slots = put_slot idx none h.slots }, true)
    | endless ↦ forever
  ]

  unfoldable pub put_nil : HashIndex H → H → ℕ → Loop (HashIndex H × Bool)
  put_nil h hd expires_at = elim (leb (h.cap * 3) (h.count * 4)) [
    | false ↦ place_nil h hd expires_at
    | true ↦ put_all (put_nested 1) h.slots h.cap 0 (empty_table (h.cap * 2)) >>= λ h'.
        place_nil h' hd expires_at
  ]

  -- Get
  unfoldable pub get : HashIndex H → Bytes → ℕ → Loop (Option H)
  get h key now = elim (walk_to h key) [
    | vacant idx ↦ returns none
    | found idx e ↦
        returns (if not (e.expires_at == 0) && leb e.expires_at now then none else some e.handle)
    | endless ↦ forever
  ]

  -- deleteAt
  unfoldable pub delete_at : HashIndex H → ℕ → Loop (HashIndex H)
  delete_at h i =
      shift_back (home h.cap) h.cap h.cap (put_slot i none h.slots) i ((i + 1) % h.cap) >>= λ slots.
      returns (record h { slots = slots; count = h.count - 1 })

  -- Delete
  unfoldable pub delete : HashIndex H → Bytes → Loop (HashIndex H × Option H)
  delete h key = elim (walk_to h key) [
    | vacant idx ↦ returns (h, none)
    | found idx e ↦ delete_at h idx >>= λ h'. returns (h', some e.handle)
    | endless ↦ forever
  ]

  -- Add of a key that is not nil, which decodeCheckpoint never makes.
  unfoldable pub add : HashIndex H → Bytes → H → ℕ → Loop (HashIndex H × Bool)
  add h key hd expires_at = elim (walk_to h key) [
    | vacant idx ↦ returns (
      record h {
        slots = put_slot idx (some (entry_of key hd expires_at)) h.slots;
        count = h.count + 1;
      },
      true,
    )
    | found idx e ↦ returns (h, false)
    | endless ↦ forever
  ]
