-- ===== src/Eviction/Queue/Examples.antt =====
-- The theorems on the ring buffer at a concrete buffer, which has wrapped around.
use horreum.Common.{ℕ, ◌+◌, ◌≡◌, ◌++◌, [], ◌∷◌, arith, length, ltb, if◌then◌else◌, true}
use horreum.Eviction.Queue.{RingBuffer, push, pop, peek}
use horreum.Eviction.Queue.Fifo.{IsRing, items, front, behind, push-items, pop-items}

abbrev wrapped : RingBuffer ℕ
wrapped = record { cap = 4; head = 3; tail = 5; data_at = λ i. record { h = i + 10; alive = true } }

wrapped-IsRing : IsRing wrapped
wrapped-IsRing = record { ordered = omega arith; within = omega arith; unwrapped = omega arith }

push-items_example :
    (items (push 20 wrapped).0
      ≡ (if ltb (length (items wrapped)) 4 then items wrapped ++ (20 ∷ []) else items wrapped))
    × ((push 20 wrapped).1 ≡ ltb (length (items wrapped)) 4)
    × IsRing (push 20 wrapped).0
push-items_example = push-items wrapped wrapped-IsRing 20 (omega arith)

pop-items_example :
    ((pop wrapped).0 ≡ front (items wrapped))
    × (items (pop wrapped).1 ≡ behind (items wrapped))
    × (peek wrapped ≡ front (items wrapped))
    × IsRing (pop wrapped).1
pop-items_example = pop-items wrapped wrapped-IsRing
