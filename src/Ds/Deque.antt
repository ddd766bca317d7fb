-- ===== src/Ds/Deque.antt =====
-- What a client of a list key may expect: a double-ended queue of elements.
use horreum.Common.{ℕ, ◌^◌, ◌<◌, Option, none, some, List, [], ◌∷◌, ◌++◌, length}
use horreum.Bytes.{Bytes}

pub data Call : Type 0 where
  l_push : Bytes → Call
  r_push : Bytes → Call
  l_pop : Call
  r_pop : Call
  l_len : Call

-- `panicked` ends the run: the goroutine that serves the key is gone.
pub data Reply : Type 0 where
  stored : Reply
  element : Option Bytes → Reply
  size : ℕ → Reply
  panicked : Reply

-- The elements before the last one, and the last one.
abbrev pub with_front : Bytes → Option (List Bytes × Bytes) → Option (List Bytes × Bytes)
with_front x none = some ([], x)
with_front x (some (ys, y)) = some (x ∷ ys, y)

abbrev pub pop_back : List Bytes → Option (List Bytes × Bytes)
pop_back [] = none
pop_back (x ∷ xs) = with_front x (pop_back xs)

abbrev pub popped_back : Option (List Bytes × Bytes) → Reply × Option (List Bytes)
popped_back none = (element none, some [])
popped_back (some (ys, y)) = (element (some y), some ys)

-- One call: the reply, and the elements after it unless it panics.
unfoldable pub step : List Bytes → Call → Reply × Option (List Bytes)
step xs (l_push e) = (stored, some (e ∷ xs))
step [] (r_push e) = (panicked, none)
step (x ∷ xs) (r_push e) = (stored, some ((x ∷ xs) ++ e ∷ []))
step [] l_pop = (element none, some [])
step (x ∷ xs) l_pop = (element (some x), some xs)
step xs r_pop = popped_back (pop_back xs)
step xs l_len = (size (length xs), some xs)

-- Every element that a call brings fits its 4-byte length.
abbrev pub CallFits : Call → Type 0
CallFits (l_push e) = length e < 2 ^ 32
CallFits (r_push e) = length e < 2 ^ 32
CallFits _ = Unit

abbrev pub CallsFit : List Call → Type 0
CallsFit [] = Unit
CallsFit (c ∷ cs) = CallFits c × CallsFit cs

-- A sequence of calls, up to the first panic, for any way to make one call on a state.
module _ {S : Type 0} (one : S → Call → Reply × Option S) where
  abbrev pub resume : Option S → (S → List Reply) → List Reply
  resume none f = []
  resume (some s) f = f s

  unfoldable pub run : S → List Call → List Reply
  run s [] = []
  run s (c ∷ cs) = let (r, after) = one s c in r ∷ resume after (λ s'. run s' cs)
