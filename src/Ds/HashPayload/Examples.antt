-- ===== src/Ds/HashPayload/Examples.antt =====
-- The theorems on hash payloads at concrete ones.
use horreum.Common.{
  ◌≡◌, arith, refl, inl, Option, none, some, List, [], ◌∷◌, ◌++◌, true, if◌then◌else◌,
}
use horreum.Bytes.{Bytes, bytes_eq, put_uint32, put_uint16, get_uint16, get_uint32, byte}
use horreum.Ds.HashPayload.{h_get_all, h_get, h_del, find_field}
use horreum.Ds.HashPayload.Layout.{encode, items}
use horreum.Ds.HashPayload.Delete.{h_del-keeps_value}
use horreum.Ds.HashPayload.Refine.{
  hash_run_refines, h_get_all-encode, Call, Tracks, run, call, step,
}

abbrev a : Bytes
a = 97 ∷ []

abbrev b : Bytes
b = 98 ∷ 98 ∷ []

abbrev calls : List Call
calls =
    Call.h_set b []
    ∷ Call.h_set a a
    ∷ Call.h_get a
    ∷ Call.h_del b
    ∷ Call.h_get b
    ∷ Call.h_get a
    ∷ []

abbrev a_to_b : Bytes → Option Bytes
a_to_b j = if bytes_eq a j then some b else none

Tracks-a_to_b : Tracks a_to_b ((a, b) ∷ [])
Tracks-a_to_b = record {
  gets = λ j. refl;
  distinct = (refl, tt);
  fits = (omega arith, omega arith, tt);
}

hash_run_refines_example : run call (encode ((a, b) ∷ [])) calls ≡ run step a_to_b calls
unfolding step bytes_eq
hash_run_refines_example =
    hash_run_refines calls ((a, b) ∷ []) a_to_b Tracks-a_to_b
      ((omega arith, omega arith), ((omega arith, omega arith), (tt, (inl refl, (tt, (tt, tt))))))
      (omega arith)

h_get_all-encode_example : h_get_all (encode ((a, b) ∷ [])) ≡ (a, b) ∷ []
h_get_all-encode_example =
    h_get_all-encode ((a, b) ∷ []) (omega arith, omega arith, tt) (omega arith)

h_del-keeps_value_example :
    h_del (encode ((a, b) ∷ (b, a) ∷ [])) a
    ≡ (put_uint32 1 ++ ([] ++ (b ++ items ((b, a) ∷ []))), true)
h_del-keeps_value_example =
    h_del-keeps_value [] a b ((b, a) ∷ [])
      (omega arith, omega arith, (omega arith, omega arith, tt)) tt (omega arith) (omega arith)

-- After HDel of the first of two fields, HGet does not find the second.
lost_field : h_get (h_del (encode ((a, b) ∷ (b, a) ∷ [])) a).0 b ≡ none
unfolding h_get h_del find_field get_uint16 get_uint32 put_uint16 put_uint32 byte bytes_eq
lost_field = refl
