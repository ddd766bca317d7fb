-- ===== src/Eviction/S3Fifo/Admission.antt =====
-- Add of s3fifo.go: where the handle of a new key goes.
use horreum.Common.{
  ℕ, ◌+◌, ◌/◌, ◌^◌, ◌<◌, ◌≤◌, ◌≡◌, refl, sym, ◌∙◌, ap, subst, Bool, Bool-cases, inl, inr, true,
  false, some, List, [], ◌∷◌, ◌++◌, arith, length, if◌then◌else◌,
}
use horreum.Bytes.{Bytes}
use horreum.Arena.Region.{Handle}
use horreum.Arena.Meta.{get_freq, meta_at, queue_tag_s, queue_tag_m}
use horreum.Arena.Meta.Fields.{Counter}
use horreum.Eviction.S3Fifo.Tag.{tagged-Counter}
use Prim.Native.Nat.{bit_or}
use horreum.Eviction.Queue.{push, pop}
use horreum.Eviction.Queue.Fifo.{IsRing, items, front, behind, push-items, pop-items}
use horreum.Eviction.Ghost.{look, insert}
use horreum.Eviction.Ghost.Membership.{look-insert}
use horreum.Eviction.S3Fifo.{Eviction, tagged, evict_s, add}

-- What Add makes of the policy, when the handle goes into the S queue or into the M queue: `cur` is
-- the handle's counter before, whose bits above the frequency get the tag of the queue.
pub record InS (e e' : Eviction) (h : Handle) (cur : ℕ) : Type 0 where
  pub sq_is : items e'.sq ≡ items e.sq ++ (h ∷ [])
  pub sq_ring : IsRing e'.sq
  pub mq_is : e'.mq ≡ e.mq
  pub gh_is : e'.gh ≡ e.gh
  pub counter : Counter e.mgr e'.mgr h 0 (bit_or (cur / 4) 1)

pub record InM (e e' : Eviction) (h : Handle) (cur : ℕ) : Type 0 where
  pub mq_is : items e'.mq ≡ items e.mq ++ (h ∷ [])
  pub mq_ring : IsRing e'.mq
  pub sq_is : e'.sq ≡ e.sq
  pub gh_is : e'.gh ≡ e.gh
  pub counter : Counter e.mgr e'.mgr h 0 (bit_or (cur / 4) 2)

module _ (fingerprint_of : Bytes → ℕ) (key : Bytes) (h : Handle) (e : Eviction) (s : IsRing e.sq)
    (m : IsRing e.mq) (s_few : e.sq.tail + 1 < 2 ^ 64) (m_few : e.mq.tail + 1 < 2 ^ 64) where
  -- Add with room in both queues, whose counters do not wrap, evicts nothing: the handle of a
  -- key that the ghost table knows goes to the back of M, any other to the back of S. The handle's
  -- counter, which is there and has 16 bits, gets the frequency 0, and the bit that tags the queue
  -- next to the bits that were set above the frequency; no other counter changes, and neither do
  -- the other queue and the ghost table.
  pub add-room :
      (cur : ℕ)
      → meta_at e.mgr h ≡ some cur
      → cur < 2 ^ 16
      → length (items e.sq) < e.sq.cap
      → length (items e.mq) < e.mq.cap
      → ((add fingerprint_of key h e).1 ≡ [])
        × (if look e.gh (fingerprint_of key)
            then InM e (add fingerprint_of key h e).0 h cur
            else InS e (add fingerprint_of key h e).0 h cur)
  unfolding add
  add-room cur here wide s_room m_room = elim (Bool-cases (look e.gh (fingerprint_of key))) [
    | inl known ↦
        let (queue, pushed, ring) = push-items e.mq m h m_few in
        let fits : (push h e.mq).1 ≡ true = pushed ∙ ground (arith, m_room) in
        let e' : Eviction = record e { mgr = tagged h queue_tag_m e.mgr; mq = (push h e.mq).0 } in
        placed true (add fingerprint_of key h e) (e', []) known (ground (arith, known, fits))
          (
            refl,
            record {
              mq_is = queue ∙ ground (arith, m_room);
              mq_ring = ring;
              sq_is = refl;
              gh_is = refl;
              counter = tagged-Counter e.mgr h queue_tag_m cur here wide refl;
            },
          )
    | inr fresh ↦
        let (queue, pushed, ring) = push-items e.sq s h s_few in
        let fits : (push h e.sq).1 ≡ true = pushed ∙ ground (arith, s_room) in
        let e' : Eviction = record e { mgr = tagged h queue_tag_s e.mgr; sq = (push h e.sq).0 } in
        placed false (add fingerprint_of key h e) (e', []) fresh (ground (arith, fresh, fits))
          (
            refl,
            record {
              sq_is = queue ∙ ground (arith, s_room);
              sq_ring = ring;
              mq_is = refl;
              gh_is = refl;
              counter = tagged-Counter e.mgr h queue_tag_s cur here wide refl;
            },
          )
  ]
    where
      Placed : Bool → Eviction × List Handle → Type 0
      Placed known r = (r.1 ≡ []) × (if known then InM e r.0 h cur else InS e r.0 h cur)

      placed :
          (b : Bool) (r r' : Eviction × List Handle)
          → look e.gh (fingerprint_of key) ≡ b
          → r ≡ r'
          → Placed b r'
          → Placed (look e.gh (fingerprint_of key)) r
      placed b r r' known run p = subst (λ c. Placed c r) (sym known) (subst (Placed b) (sym run) p)

  -- Add of a key that the ghost table does not know, with S full and a handle of frequency 0 or
  -- 1 at its head: the head is evicted, but the new handle enters no queue, and the ghost table
  -- learns the fingerprint of the new key.
  pub add-full :
      (cold : Handle) (others : List Handle)
      → look e.gh (fingerprint_of key) ≡ false
      → items e.sq ≡ cold ∷ others
      → e.sq.cap ≤ length (items e.sq)
      → get_freq e.mgr cold < 2
      → 1 ≤ e.gh.cap
      → let (e', evicted) = add fingerprint_of key h e in
        (evicted ≡ cold ∷ [])
        × (items e'.sq ≡ others)
        × (e'.mq ≡ e.mq)
        × (e'.mgr ≡ e.mgr)
        × (look e'.gh (fingerprint_of key) ≡ true)
  unfolding add evict_s
  add-full cold others fresh queue full freq some_gh =
      let (head_is, rest_is, _, _) = pop-items e.sq s in
      let refused : (push h e.sq).1 ≡ false =
        (push-items e.sq s h s_few).1 ∙ ground (arith, full) in
      let head : (pop e.sq).0 ≡ some cold = head_is ∙ ap front queue in
      let e' : Eviction = record e {
        sq = (pop e.sq).1;
        gh = (insert e.gh (fingerprint_of key)).0;
      } in
      subst Full (sym (run refused head))
        (refl, rest_is ∙ ap behind queue, refl, refl, look-insert e.gh (fingerprint_of key) some_gh)
    where
      Full : Eviction × List Handle → Type 0
      Full r =
          (r.1 ≡ cold ∷ [])
          × (items r.0.sq ≡ others)
          × (r.0.mq ≡ e.mq)
          × (r.0.mgr ≡ e.mgr)
          × (look r.0.gh (fingerprint_of key) ≡ true)

      run :
          (push h e.sq).1 ≡ false
          → (pop e.sq).0 ≡ some cold
          → add fingerprint_of key h e
            ≡ (record e { sq = (pop e.sq).1; gh = (insert e.gh (fingerprint_of key)).0 }, cold ∷ [])
      run refused head = ground (arith, fresh, refused, head, freq)
