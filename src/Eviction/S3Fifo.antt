-- ===== src/Eviction/S3Fifo.antt =====
-- internal/eviction/s3fifo.go: the policy over the two queues, the ghost table and the counters of the
-- arena's manager. The fingerprint of a key is SHA-256's and a parameter; the mutex is left out.
pub mod Tag
pub mod Admission
pub mod Examples
use horreum.Common.{
  ℕ, ◌+◌, ◌-◌, ◌*◌, ◌/◌, Bool, true, false, Option, none, some, List, [], ◌∷◌, ◌++◌, leb, ◌==◌,
  ◌&&◌, if◌then◌else◌,
}
use Prim.Native.Nat.{bit_and}
use horreum.Bytes.{Bytes, uint64}
use horreum.Arena.Region.{Handle}
use horreum.Arena.Manager.{Manager}
use horreum.Arena.Meta.{
  get_freq, set_freq, inc_freq, get_meta, or_meta_bits, clear_meta_bits, queue_tag_mask,
  queue_tag_s, queue_tag_m,
}
use horreum.Eviction.Queue.{RingBuffer, push, pop, scan_from_head}
use horreum.Eviction.Queue
use horreum.Eviction.Ghost.{GhostIndex, grown_from_one, new_ghost_index, look, insert}
use horreum.Index.Rounds.{Loop, returns, ◌>>=◌}
use horreum.Eviction.Ghost

pub record Eviction : Type 0 where
  pub mgr : Manager
  pub sq : RingBuffer Handle
  pub mq : RingBuffer Handle
  pub gh : GhostIndex

abbrev no_handle : Handle
no_handle = record { offset = 0; size = 0; meta = 0; region = 0 }

-- NewRingBuffer
abbrev empty_queue : ℕ → RingBuffer Handle
empty_queue cap = record {
  cap = cap;
  head = 0;
  tail = 0;
  data_at = λ i. record { h = no_handle; alive = false };
}

unfoldable pub new_ring_buffer : ℕ → Loop (RingBuffer Handle)
new_ring_buffer capacity =
    grown_from_one (if capacity == 0 then 1 else capacity) >>= λ c. returns (empty_queue c)

-- New; `none` is its panic.
unfoldable pub new : Manager → ℕ → Loop (Option Eviction)
new mgr capacity =
    let s = uint64 (capacity * 10) / 100 in
    let s_cap = if s == 0 then 1 else s in
    let m = capacity - s_cap in
    let m_cap = if m == 0 then 1 else m in
    let made : Loop (Option Eviction) = new_ring_buffer s_cap >>= λ sq.
    new_ring_buffer m_cap >>= λ mq. new_ghost_index m_cap >>= λ gh.
    returns (some (record { mgr = mgr; sq = sq; mq = mq; gh = gh })) in
    if capacity == 0 then returns none else made

-- The comparison of handles.
abbrev pub same_handle : Handle → Handle → Bool
same_handle g h =
    g.offset == h.offset && (g.size == h.size && (g.meta == h.meta && g.region == h.region))

-- ResetFreq of the ring buffer, which only changes the manager.
unfoldable pub reset_freq : RingBuffer Handle → Manager → Handle → Manager
reset_freq rb mgr h = if scan_from_head same_handle rb h then set_freq mgr h 0 else mgr

-- SetFreq(h, 0) and OrMetaBits(h, tag)
abbrev pub tagged : Handle → ℕ → Manager → Manager
tagged h tag mgr = or_meta_bits (set_freq mgr h 0) h tag

-- evictM
unfoldable pub evict_m : Eviction → Eviction × List Handle
evict_m e =
    let (tail, mq) = pop e.mq in
    elim tail [
      | none ↦ (e, [])
      | some h ↦
          let freq = get_freq e.mgr h in
          if leb 1 freq
          then (record e { mgr = set_freq e.mgr h (freq - 1); mq = (push h mq).0 }, [])
          else (record e { mgr = clear_meta_bits e.mgr h queue_tag_mask; mq = mq }, h ∷ [])
    ]

-- The promotion in evictS of a handle that S has given up.
unfoldable pub promote : Handle → Eviction → Eviction × List Handle
promote h e =
    let r = push h e.mq in
    let f = evict_m e in
    let again = push h f.0.mq in
    if r.1
    then (record e { mgr = tagged h queue_tag_m e.mgr; mq = r.0 }, [])
    else if again.1
    then (record f.0 { mgr = tagged h queue_tag_m f.0.mgr; mq = again.0 }, f.1)
    else (record f.0 { mgr = set_freq f.0.mgr h 0 }, f.1 ++ (h ∷ []))

module _ (fingerprint_of : Bytes → ℕ) where
  -- evictS
  unfoldable pub evict_s : Bytes → Eviction → Eviction × List Handle
  evict_s key e =
      let (tail, sq) = pop e.sq in
      elim tail [
        | none ↦ (e, [])
        | some h ↦
            if leb 2 (get_freq e.mgr h)
            then promote h (record e { mgr = clear_meta_bits e.mgr h queue_tag_mask; sq = sq })
            else (record e { sq = sq; gh = (insert e.gh (fingerprint_of key)).0 }, h ∷ [])
      ]

  -- Add
  unfoldable pub add : Bytes → Handle → Eviction → Eviction × List Handle
  add key h e =
      let in_m = push h e.mq in
      let in_s = push h e.sq in
      if look e.gh (fingerprint_of key)
      then (if in_m.1
          then (record e { mgr = tagged h queue_tag_m e.mgr; mq = in_m.0 }, [])
          else evict_m e)
      else (if in_s.1
          then (record e { mgr = tagged h queue_tag_s e.mgr; sq = in_s.0 }, [])
          else evict_s key e)

  -- Delete
  unfoldable pub delete : Bytes → Handle → Eviction → Eviction
  delete key h e =
      let in_s = Queue.remove same_handle e.sq h in
      let in_m = Queue.remove same_handle e.mq h in
      let cleared = clear_meta_bits e.mgr h queue_tag_mask in
      if in_s.1
      then record e { mgr = cleared; sq = in_s.0; gh = (Ghost.remove e.gh (fingerprint_of key)).0 }
      else if in_m.1
      then record e { mgr = cleared; mq = in_m.0 }
      else e

-- Touch, with touchQueue
unfoldable pub touch : Handle → Eviction → Eviction
touch h e =
    let tag = bit_and (get_meta e.mgr h) queue_tag_mask in
    let touched = record e { mgr = (inc_freq e.mgr h).1 } in
    if tag == queue_tag_s
    then (if scan_from_head same_handle e.sq h then touched else e)
    else if tag == queue_tag_m
    then (if scan_from_head same_handle e.mq h then touched else e)
    else e

-- Remove
unfoldable pub remove : Handle → Eviction → Eviction
remove h e =
    let in_s = Queue.remove same_handle e.sq h in
    let in_m = Queue.remove same_handle e.mq h in
    let cleared = clear_meta_bits e.mgr h queue_tag_mask in
    if in_s.1
    then record e { mgr = cleared; sq = in_s.0 }
    else if in_m.1
    then record e { mgr = cleared; mq = in_m.0 }
    else e

-- Stats
unfoldable pub stats : Eviction → ℕ × ℕ × ℕ
stats e = (Queue.size e.sq, Queue.size e.mq, (Ghost.stats e.gh).0)
