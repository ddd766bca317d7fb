-- ===== src/Ds/SetPayload/Examples.antt =====
-- The theorems on set payloads at concrete ones.
use horreum.Common.{
  ℕ, ◌≡◌, arith, refl, Bool, false, List, [], ◌∷◌, length, replicate, length-replicate,
}
use horreum.Bytes.{Bytes, bytes_eq}
use horreum.Ds.SetPayload.{s_members, s_add, s_is_member}
use horreum.Ds.SetPayload.Layout.{encode}
use horreum.Ds.SetPayload.Refine.{
  set_run_refines, s_members-encode, Call, add, rem, test, Tracks, run, call, step,
}
use horreum.Ds.SetPayload.Truncation.{s_add-too_long}

abbrev a : Bytes
a = 97 ∷ []

abbrev b : Bytes
b = 98 ∷ 98 ∷ []

abbrev calls : List Call
calls = add b ∷ rem a ∷ test a ∷ add b ∷ []

abbrev only_a : Bytes → Bool
only_a j = bytes_eq a j

Tracks-a : Tracks only_a (a ∷ [])
Tracks-a = record { tests = λ j. ground arith; distinct = (refl, tt); fits = (omega arith, tt) }

set_run_refines_example : run call (encode (a ∷ [])) calls ≡ run step only_a calls
set_run_refines_example =
    set_run_refines calls (a ∷ []) only_a Tracks-a (omega arith, (omega arith, tt)) (omega arith)

s_members-encode_example : s_members (encode (a ∷ b ∷ [])) ≡ a ∷ b ∷ []
s_members-encode_example =
    s_members-encode (a ∷ b ∷ []) (omega arith, (omega arith, tt)) (omega arith)

long_member : Bytes
long_member = replicate 65536 97

length-long_member : length long_member ≡ 65536
unfolding long_member
length-long_member = length-replicate {A = ℕ} 65536 97

s_add-too_long_example : s_is_member (s_add [] long_member).0 long_member ≡ false
s_add-too_long_example = s_add-too_long long_member (omega (arith, length-long_member))
