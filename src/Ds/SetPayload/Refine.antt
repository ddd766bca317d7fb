-- ===== src/Ds/SetPayload/Refine.antt =====
-- The operations of set.go, called one after another on a key's payload, behave as a set of byte
-- strings: the state of the specification is the test of membership, without order or layout.
use horreum.Common.{
  append-nil, ap₂, ◌+◌, ◌^◌, ◌<◌, ◌≤◌, ◌≡◌, inl, inr, refl, ap, Bool, false, ◌||◌, ◌&&◌, not, List,
  [], ◌∷◌, ◌++◌, arith, length, length-append, if◌then◌else◌, Bool-cases,
}
use horreum.Bytes.{put_uint16_wrap, Bytes, bytes_eq, bytes_eq→eq, bytes_eq_self}
use horreum.Ds.SetPayload.{s_add, s_rem, s_is_member, s_members}
use horreum.Ds.SetPayload.Layout.{encode, Fits}
use horreum.Ds.SetPayload.Lookup.{
  contains, remove, find_in, s_add-cons, s_rem-cons, s_is_member-cons, s_members-cons,
}

pub data Call : Type 0 where
  add rem test : Bytes → Call

-- One call on the payload, with the flag that it returns.
pub call : Bytes → Call → Bool × Bytes
call raw (add m) = let (raw', added) = s_add raw m in (added, raw')
call raw (rem m) = let (raw', removed) = s_rem raw m in (removed, raw')
call raw (test m) = (s_is_member raw m, raw)

-- One call on a set.
pub step : (Bytes → Bool) → Call → Bool × (Bytes → Bool)
step p (add m) = (not (p m), λ j. bytes_eq m j || p j)
step p (rem m) = (p m, λ j. not (bytes_eq m j) && p j)
step p (test m) = (p m, p)

pub run : {S : Type 0} → (S → Call → Bool × S) → S → List Call → List Bool
run one s [] = []
run one s (c ∷ cs) = let (r, s') = one s c in r ∷ run one s' cs

abbrev pub Distinct : List Bytes → Type 0
Distinct [] = Unit
Distinct (x ∷ xs) = (contains x xs ≡ false) × Distinct xs

abbrev pub CallsFit : List Call → Type 0
CallsFit [] = Unit
CallsFit (add m ∷ cs) = (length m < 2 ^ 16) × CallsFit cs
CallsFit (rem m ∷ cs) = CallsFit cs
CallsFit (test m ∷ cs) = CallsFit cs

contains_snoc :
    (j : Bytes) (xs : List Bytes) (m : Bytes)
    → contains j (xs ++ m ∷ []) ≡ (bytes_eq m j || contains j xs)
contains_snoc j [] m = refl
contains_snoc j (x ∷ xs) m = ground (arith, contains_snoc j xs m)

contains-remove :
    (j m : Bytes) (xs : List Bytes)
    → Distinct xs
    → contains j (remove m xs) ≡ (not (bytes_eq m j) && contains j xs)
contains-remove j m [] d = ground arith
contains-remove j m (x ∷ xs) d = ground (
  arith,
  contains-remove j m xs d.1,
  d.0,
  bytes_eq→eq x m,
  bytes_eq→eq m j,
  bytes_eq→eq x j,
  bytes_eq_self j,
)

Distinct-snoc :
    (xs : List Bytes) (m : Bytes) → Distinct xs → contains m xs ≡ false → Distinct (xs ++ m ∷ [])
Distinct-snoc [] m d h = (refl, tt)
Distinct-snoc (x ∷ xs) m d h = (
  ground (arith, contains_snoc x xs m, d.0, h, bytes_eq→eq m x, bytes_eq_self m),
  Distinct-snoc xs m d.1 (ground (arith, h)),
)

Distinct-remove : (m : Bytes) (xs : List Bytes) → Distinct xs → Distinct (remove m xs)
Distinct-remove m [] d = tt
Distinct-remove m (x ∷ xs) d = elim (Bool-cases (bytes_eq x m)) [
  | inl e ↦ rw e d.1
  | inr e ↦ rw e (ground (arith, contains-remove x m xs d.1, d.0), Distinct-remove m xs d.1)
]

Fits-snoc : (xs : List Bytes) (m : Bytes) → Fits xs → length m < 2 ^ 16 → Fits (xs ++ m ∷ [])
Fits-snoc [] m h k = (k, tt)
Fits-snoc (x ∷ xs) m h k = (h.0, Fits-snoc xs m h.1 k)

Fits-remove :
    (m : Bytes) (xs : List Bytes)
    → Fits xs
    → Fits (remove m xs) × (length (remove m xs) ≤ length xs)
Fits-remove m [] h = (tt, omega arith)
Fits-remove m (x ∷ xs) h = elim (Bool-cases (bytes_eq x m)) [
  | inl e ↦ rw e (h.1, omega arith)
  | inr e ↦ rw e ((h.0, (Fits-remove m xs h.1).0), omega (arith, (Fits-remove m xs h.1).1))
]

-- The same call on the list of members.
list_step : List Bytes → Call → Bool × List Bytes
list_step xs (add m) = (not (contains m xs), if contains m xs then xs else xs ++ m ∷ [])
list_step xs (rem m) = (contains m xs, remove m xs)
list_step xs (test m) = (contains m xs, xs)

call-encode :
    (xs : List Bytes) (c : Call)
    → Fits xs
    → length xs < 2 ^ 32
    → call (encode xs) c ≡ (let (r, ys) = list_step xs c in (r, encode ys))
unfolding call list_step
call-encode [] (add m) h b = unfold s_add in rw (put_uint16_wrap (length m), append-nil m)
call-encode [] (rem m) h b = unfold s_rem in refl
call-encode [] (test m) h b = unfold s_is_member in refl
call-encode (x ∷ xs) (add m) h b = rw (s_add-cons m x xs h b) (ground arith)
call-encode (x ∷ xs) (rem m) h b = elim (find_in m (x ∷ xs)) [
  | inl f ↦ rw (s_rem-cons m x xs h b) (ground (arith, f.test))
  | inr f ↦ rw (s_rem-cons m x xs h b) (ground (arith, f.test, f.rest))
]
call-encode (x ∷ xs) (test m) h b = rw (s_is_member-cons m x xs h b)

-- A list of members stands for a set.
pub record Tracks (p : Bytes → Bool) (xs : List Bytes) : Type 0 where
  pub tests : (j : Bytes) → contains j xs ≡ p j
  pub distinct : Distinct xs
  pub fits : Fits xs

abbrev CallFits : Call → Type 0
CallFits (add m) = length m < 2 ^ 16
CallFits _ = Unit

record Stepped (p : Bytes → Bool) (xs : List Bytes) (c : Call) : Type 0 where
  reply : (list_step xs c).0 ≡ (step p c).0
  tracks : Tracks (step p c).1 (list_step xs c).1
  grows : length (list_step xs c).1 ≤ length xs + 1

step-Stepped :
    (p : Bytes → Bool) (xs : List Bytes) (c : Call) → Tracks p xs → CallFits c → Stepped p xs c
unfolding step list_step
step-Stepped p xs (add m) t k = elim (Bool-cases (contains m xs)) [
  | inl e ↦ record {
    reply = ap not (t.tests m);
    tracks = rw e (record {
      tests = λ j. ground (arith, t.tests j, t.tests m, e, bytes_eq→eq m j);
      distinct = t.distinct;
      fits = t.fits;
    });
    grows = rw e (omega arith);
  }
  | inr e ↦ record {
    reply = ap not (t.tests m);
    tracks = rw e (record {
      tests = λ j. ground (arith, t.tests j, contains_snoc j xs m);
      distinct = Distinct-snoc xs m t.distinct e;
      fits = Fits-snoc xs m t.fits k;
    });
    grows = rw e (omega (arith, length-append xs (m ∷ [])));
  }
]
step-Stepped p xs (rem m) t k = record {
  reply = t.tests m;
  tracks = record {
    tests = λ j. ground (arith, t.tests j, contains-remove j m xs t.distinct);
    distinct = Distinct-remove m xs t.distinct;
    fits = (Fits-remove m xs t.fits).0;
  };
  grows = omega (arith, (Fits-remove m xs t.fits).1);
}
step-Stepped p xs (test m) t k = record { reply = t.tests m; tracks = t; grows = omega arith }

CallsFit-head : (c : Call) (cs : List Call) → CallsFit (c ∷ cs) → CallFits c × CallsFit cs
CallsFit-head (add m) cs h = h
CallsFit-head (rem m) cs h = (tt, h)
CallsFit-head (test m) cs h = (tt, h)

-- No sequence of calls on a key's payload can be told from those calls on a set: from the payload
-- of distinct members that `p` tests, every flag agrees, while no width and no count overflows.
pub set_run_refines :
    (cs : List Call) (xs : List Bytes) (p : Bytes → Bool)
    → Tracks p xs
    → CallsFit cs
    → length xs + length cs < 2 ^ 32
    → run call (encode xs) cs ≡ run step p cs
unfolding run
set_run_refines [] xs p t k b = refl
set_run_refines (c ∷ cs) xs p t k b =
    let (kc, ks) = CallsFit-head c cs k in
    let s = step-Stepped p xs c t kc in
    rw (call-encode xs c t.fits (omega arith)) (
      ap₂ ◌∷◌ s.reply
        (set_run_refines cs (list_step xs c).1 (step p c).1 s.tracks ks (omega (arith, s.grows))))

-- SMembers lists the members that the payload stands for, each once and in the order of insertion.
pub s_members-encode : (xs : List Bytes) → Fits xs → length xs < 2 ^ 32 → s_members (encode xs) ≡ xs
s_members-encode [] h b = unfold s_members in refl
s_members-encode (x ∷ xs) h b = s_members-cons x x xs h b
