-- ===== src/Ds/ListPayload/Refine.antt =====
-- The operations of list.go, called one after another on a key's payload, behave as a deque.
use mathlib.Core.Option
use horreum.Common.{
  ◌⊎◌, inl, inr, ℕ, ◌+◌, ◌^◌, ◌≤◌, ◌<◌, ◌≡◌, refl, ap, Option, none, some, List, [], ◌∷◌, ◌++◌,
  arith, length, length-append, subst,
}
use horreum.Bytes.{Bytes}
use horreum.Ds.ListPayload.Back.{r_pop-encode}
use horreum.Ds.Deque
use horreum.Ds.Deque.{Call, CallFits, CallsFit}
use horreum.Ds.ListPayload.{call, r_push, l_pop, r_pop, l_len}
use horreum.Ds.ListPayload.Layout.{
  encode, Fits, l_push-encode, r_push-encode, l_pop-encode, l_len-encode,
}

pop_back_snoc : (xs : List Bytes) (x : Bytes) → Deque.pop_back (xs ++ x ∷ []) ≡ some (xs, x)
pop_back_snoc [] x = refl
pop_back_snoc (y ∷ ys) x = ap (Deque.with_front y) (pop_back_snoc ys x)

-- A list is empty or has a last element.
last_or_nil :
    (zs : List Bytes) → (zs ≡ []) ⊎ ((xs : List Bytes) × (x : Bytes) × (zs ≡ xs ++ x ∷ []))
last_or_nil [] = inl refl
last_or_nil (z ∷ zs) = elim (last_or_nil zs) [
  | inl e ↦ inr ([], z, ap (λ l. z ∷ l) e)
  | inr (xs, x, e) ↦ inr (z ∷ xs, x, ap (λ l. z ∷ l) e)
]

Fits-append : (xs : List Bytes) (x : Bytes) → Fits (xs ++ x ∷ []) → Fits xs × (length x < 2 ^ 32)
Fits-append [] x h = (tt, h.0)
Fits-append (y ∷ ys) x h = let (rest, last) = Fits-append ys x h.1 in ((h.0, rest), last)

Fits-snoc : (xs : List Bytes) (x : Bytes) → Fits xs → length x < 2 ^ 32 → Fits (xs ++ x ∷ [])
Fits-snoc [] x h hx = (hx, tt)
Fits-snoc (y ∷ ys) x h hx = (h.0, Fits-snoc ys x h.1 hx)

-- What the representation asks of a list.
abbrev Bounded : List Bytes → Type 0
Bounded xs = Fits xs × (length xs < 2 ^ 32)

-- The reply of a queue, and its elements as a payload.
abbrev encoded : Deque.Reply × Option (List Bytes) → Deque.Reply × Option Bytes
encoded (r, after) = (r, Option.map encode after)

-- One call on the payload of a list is that call on the list.
pub call-encode :
    (xs : List Bytes) (c : Call) → Bounded xs → call (encode xs) c ≡ encoded (Deque.step xs c)
unfolding call Deque.step
call-encode xs (Call.l_push e) b = ap (λ raw. (Deque.stored, some raw)) (l_push-encode xs e b.1)
call-encode [] (Call.r_push e) b = unfold r_push in ground arith
call-encode (x ∷ xs) (Call.r_push e) b = rw (r_push-encode x xs e b.1)
call-encode [] Call.l_pop b = unfold l_pop in ground arith
call-encode (x ∷ xs) Call.l_pop b = rw (l_pop-encode x xs b.1 b.0.0)
call-encode xs Call.r_pop b = elim (last_or_nil xs) [
  | inl e ↦ rw e (unfold r_pop in ground arith)
  | inr (ys, y, e) ↦
      let (fits, last) = Fits-append ys y (subst Fits e b.0) in
      let short : length ys + 1 < 2 ^ 32 =
        omega (arith, b.1, ap length e, length-append ys (y ∷ [])) in
      rw (e, r_pop-encode ys y short fits last, pop_back_snoc ys y)
]
call-encode [] Call.l_len b = unfold l_len in ground arith
call-encode (x ∷ xs) Call.l_len b = rw (l_len-encode x xs b.1)

-- A call adds one element at most, and keeps the widths.
abbrev Grown : ℕ → Option (List Bytes) → Type 0
Grown n none = Unit
Grown n (some ys) = Fits ys × (length ys ≤ n + 1)

step-Grown :
    (xs : List Bytes) (c : Call) → Fits xs → CallFits c → Grown (length xs) (Deque.step xs c).1
unfolding Deque.step
step-Grown xs (Call.l_push e) h k = ((k, h), omega arith)
step-Grown [] (Call.r_push e) h k = tt
step-Grown (x ∷ xs) (Call.r_push e) h k =
    (Fits-snoc (x ∷ xs) e h k, omega (arith, length-append (x ∷ xs) (e ∷ [])))
step-Grown [] Call.l_pop h k = (tt, omega arith)
step-Grown (x ∷ xs) Call.l_pop h k = (h.1, omega arith)
step-Grown xs Call.r_pop h k = elim (last_or_nil xs) [
  | inl e ↦ rw e (tt, omega arith)
  | inr (ys, y, e) ↦
      rw (e, pop_back_snoc ys y)
        ((Fits-append ys y (subst Fits e h)).0, omega (arith, length-append ys (y ∷ [])))
]
step-Grown xs Call.l_len h k = (h, omega arith)

-- No sequence of calls on a key's payload can be told from those calls on a deque: starting from
-- the payload of `xs` the replies agree, a panic of RPUSH included, while no 4-byte field overflows.
pub list_run_refines :
    (cs : List Call) (xs : List Bytes)
    → Fits xs
    → CallsFit cs
    → length xs + length cs < 2 ^ 32
    → Deque.run call (encode xs) cs ≡ Deque.run Deque.step xs cs
unfolding Deque.run
list_run_refines [] xs h k b = refl
list_run_refines (c ∷ cs) xs h k b = rw (call-encode xs c (h, omega arith)) (
    split (Deque.step xs c) (step-Grown xs c h k.0)
      (λ ys fits short. list_run_refines cs ys fits k.1 (omega arith)))
  where
    split :
        (out : Deque.Reply × Option (List Bytes))
        → Grown (length xs) out.1
        → ((ys : List Bytes)
            → Fits ys
            → length ys ≤ length xs + 1
            → Deque.run call (encode ys) cs ≡ Deque.run Deque.step ys cs)
        → (let (r, after) = encoded out in
            r ∷ Deque.resume call after (λ raw. Deque.run call raw cs))
          ≡ (let (r, after) = out in
              r ∷ Deque.resume Deque.step after (λ ys. Deque.run Deque.step ys cs))
    split (r, none) g ih = refl
    split (r, some ys) g ih = ap (λ l. r ∷ l) (ih ys g.0 g.1)
