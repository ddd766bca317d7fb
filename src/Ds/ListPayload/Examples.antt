-- ===== src/Ds/ListPayload/Examples.antt =====
-- The theorems on list payloads at concrete ones.
use horreum.Common.{ℕ, ◌≡◌, ◌<◌, ◌↔◌, arith, none, List, [], ◌∷◌, length}
use horreum.Bytes.{Bytes}
use horreum.Ds.Deque
use horreum.Ds.ListPayload.{r_push, call}
use horreum.Ds.ListPayload.Layout.{encode, r_push-panics}
use horreum.Ds.ListPayload.Refine.{list_run_refines}

abbrev a : Bytes
a = 97 ∷ []

abbrev b : Bytes
b = 98 ∷ 98 ∷ []

abbrev calls : List Deque.Call
calls =
    Deque.Call.l_push b
    ∷ Deque.Call.r_pop
    ∷ Deque.Call.l_pop
    ∷ Deque.Call.r_push a
    ∷ Deque.Call.l_len
    ∷ []

list_run_refines_example :
    Deque.run call (encode (a ∷ [])) calls ≡ Deque.run Deque.step (a ∷ []) calls
list_run_refines_example =
    list_run_refines calls (a ∷ []) (omega arith, tt)
      (omega arith, (tt, (tt, (omega arith, (tt, tt))))) (omega arith)

r_push-panics_example : (r_push [] a ≡ none) ↔ (length {A = ℕ} [] < 4)
r_push-panics_example = r_push-panics [] a
