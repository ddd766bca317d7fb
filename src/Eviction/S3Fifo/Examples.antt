-- ===== src/Eviction/S3Fifo/Examples.antt =====
-- The theorems on the policy at a concrete state.
use horreum.Common.{
  ℕ, ◌*◌, ◌≡◌, ◌≤◌, [], ◌∷◌, arith, refl, ap, length, if◌then◌else◌, true, false, some, replicate,
}
use horreum.Arena.Region.{Handle}
use horreum.Arena.Manager.{Manager}
use horreum.Arena.Meta.{get_freq, meta_at}
use horreum.Eviction.Queue.{RingBuffer}
use horreum.Eviction.Queue.Fifo.{IsRing, items, handles}
use horreum.Eviction.Ghost.{look, probe_from, empty_index}
use horreum.Eviction.S3Fifo.{Eviction, add}
use horreum.Eviction.S3Fifo.Admission.{InS, InM, add-room, add-full}

abbrev block : ℕ → Handle
block i = record { offset = i * 8; size = 8; meta = 0; region = 0 }

abbrev manager : Manager
manager = record {
  regions =
      record {
        memory = replicate 64 0;
        alloc = record { offset = 64; size = 64; fl = λ cls. [] };
        meta = some (λ i. 1);
      }
      ∷ [];
  current_idx = 0;
  size = 64;
  file_backed = false;
  live_objs = 4;
}

-- A queue of two places with `n` handles.
abbrev queue : ℕ → RingBuffer Handle
queue n = record {
  cap = 2;
  head = 0;
  tail = n;
  data_at = λ i. record { h = block i; alive = true };
}

abbrev policy : ℕ → Eviction
policy n = record { mgr = manager; sq = queue n; mq = queue 1; gh = empty_index 4 }

queue-IsRing : (n : ℕ) → n ≤ 2 → IsRing (queue n)
queue-IsRing n h = record {
  ordered = omega arith;
  within = omega (arith, h);
  unwrapped = omega (arith, h);
}

counter_of_one : meta_at manager (block 5) ≡ some 1
unfolding meta_at
counter_of_one = refl

add-room_example :
    ((add length (7 ∷ []) (block 5) (policy 1)).1 ≡ [])
    × (if look (empty_index 4) 1
        then InM (policy 1) (add length (7 ∷ []) (block 5) (policy 1)).0 (block 5) 1
        else InS (policy 1) (add length (7 ∷ []) (block 5) (policy 1)).0 (block 5) 1)
unfolding handles
add-room_example =
    add-room length (7 ∷ []) (block 5) (policy 1) (queue-IsRing 1 (omega arith))
      (queue-IsRing 1 (omega arith)) (omega arith) (omega arith) 1 counter_of_one (omega arith)
      (omega arith) (omega arith)

unknown : look (empty_index 4) 1 ≡ false
unfolding look probe_from
unknown = refl

two_items : items (queue 2) ≡ block 0 ∷ block 1 ∷ []
unfolding handles
two_items = refl

cold_head : get_freq manager (block 0) ≡ 1
unfolding get_freq meta_at
cold_head = refl

add-full_example :
    let (e, evicted) = add length (7 ∷ []) (block 5) (policy 2) in
    (evicted ≡ block 0 ∷ [])
    × (items e.sq ≡ block 1 ∷ [])
    × (e.mq ≡ queue 1)
    × (e.mgr ≡ manager)
    × (look e.gh 1 ≡ true)
add-full_example =
    add-full length (7 ∷ []) (block 5) (policy 2) (queue-IsRing 2 (omega arith))
      (queue-IsRing 1 (omega arith)) (omega arith) (omega arith) (block 0) (block 1 ∷ []) unknown
      two_items full (omega (arith, cold_head)) (omega arith)
  where
    full : 2 ≤ length (items (queue 2))
    full = omega (arith, ap length two_items)
