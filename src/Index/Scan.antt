-- ===== src/Index/Scan.antt =====
-- The operations of index.go that go over the positions: Snapshot, DeleteExpired, ScanPrefix and
-- DeletePrefix.
pub mod Prefix
pub mod Expire
use horreum.Common.{
  ℕ, zero, suc, ◌+◌, ◌-◌, ◌%◌, Bool, true, false, Option, none, some, List, [], ◌∷◌, ◌++◌, ltb, leb,
  ◌==◌, ◌&&◌, ◌||◌, not, if◌then◌else◌, length, take,
}
use horreum.Bytes.{Bytes, bytes_eq}
use horreum.Index.Rounds.{Loop, returns, forever, ◌>>=◌}
use horreum.Index.{Entry, HashIndex, delete_at}

-- bytes.HasPrefix, and the test of the empty prefix before it.
unfoldable pub has_prefix : Bytes → Bytes → Bool
has_prefix key prefix =
    length prefix == 0
    || (leb (length prefix) (length key) && bytes_eq (take (length prefix) key) prefix)

module _ {H : Type 0} where
  -- The loop of Snapshot.
  unfoldable pub collect : (ℕ → Option (Entry H)) → ℕ → ℕ → List (Entry H)
  collect slots zero i = []
  collect slots (suc n) i =
      let rest = collect slots n (suc i) in elim (slots i) [ none ↦ rest | some e ↦ e ∷ rest ]

  -- Snapshot; nil is the empty list.
  unfoldable pub snapshot : HashIndex H → List (Entry H)
  snapshot h = if h.count == 0 || h.cap == 0 then [] else collect h.slots h.cap 0

  abbrev pub expired : ℕ → Entry H → Bool
  expired now e = not (e.expires_at == 0) && leb e.expires_at now

  -- The loop of DeleteExpired, over the rounds left.
  unfoldable pub expire_loop : ℕ → ℕ → HashIndex H → List H → Loop (HashIndex H × List H)
  expire_loop now zero h freed = returns (h, freed)
  expire_loop now (suc n) h freed =
      let idx = h.scan_cursor in
      let h1 = record h { scan_cursor = (idx + 1) % h.cap } in
      elim (h.slots idx) [
        | none ↦ expire_loop now n h1 freed
        | some e ↦ elim (expired now e) [
          | true ↦ delete_at h1 idx >>= λ h2. expire_loop now n h2 (freed ++ (e.handle ∷ []))
          | false ↦ expire_loop now n h1 freed
        ]
      ]

  -- DeleteExpired
  unfoldable pub delete_expired : HashIndex H → ℕ → ℕ → Loop (HashIndex H × List H)
  delete_expired h now limit =
      if h.count == 0 || limit == 0 then returns (h, []) else expire_loop now limit h []

  -- The loop of ScanPrefix over the `n` positions left, with the number of keys still wanted.
  unfoldable pub scan_loop : HashIndex H → Bytes → ℕ → ℕ → ℕ → ℕ → List Bytes × ℕ
  scan_loop h prefix now zero idx wanted = ([], 0)
  scan_loop h prefix now (suc n) idx wanted =
      let rest = scan_loop h prefix now n (suc idx) wanted in
      let rest_less = scan_loop h prefix now n (suc idx) (wanted - 1) in
      let next = if leb h.cap (idx + 1) then 0 else idx + 1 in
      elim (h.slots idx) [
        | none ↦ rest
        | some e ↦
            if not (expired now e) && has_prefix e.key prefix
            then (if leb wanted 1 then (e.key ∷ [], next) else (e.key ∷ rest_less.0, rest_less.1))
            else rest
      ]

  -- ScanPrefix
  unfoldable pub scan_prefix : HashIndex H → Bytes → ℕ → ℕ → ℕ → List Bytes × ℕ
  scan_prefix h prefix cursor limit now =
      if h.count == 0 || limit == 0
      then ([], 0)
      else if leb h.cap cursor
      then ([], 0)
      else scan_loop h prefix now (h.cap - cursor) cursor limit

  -- The loop of DeletePrefix, over `n` rounds; a round either moves on or takes an entry out.
  unfoldable pub prefix_loop : Bytes → ℕ → HashIndex H → ℕ → List H → Loop (HashIndex H × List H)
  prefix_loop prefix zero h idx freed = forever
  prefix_loop prefix (suc n) h idx freed =
      if leb h.cap idx then returns (h, freed) else elim (h.slots idx) [
        | none ↦ prefix_loop prefix n h (suc idx) freed
        | some e ↦ elim (has_prefix e.key prefix) [
          | true ↦ delete_at h idx >>= λ h1. prefix_loop prefix n h1 idx (freed ++ (e.handle ∷ []))
          | false ↦ prefix_loop prefix n h (suc idx) freed
        ]
      ]

  -- DeletePrefix
  unfoldable pub delete_prefix : HashIndex H → Bytes → Loop (HashIndex H × List H)
  delete_prefix h prefix =
      if h.count == 0 then returns (h, []) else prefix_loop prefix (h.cap + h.count + 1) h 0 []
