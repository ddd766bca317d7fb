-- ===== src/Ds/HashPayload/Refine.antt =====
-- The operations of hash.go, called one after another on a key's payload, against a finite map: the
-- state of the specification is the lookup function, without order or layout.
use horreum.Common.{
  ◌+◌, ◌^◌, ◌<◌, ◌≤◌, ◌≡◌, ◌⊎◌, inl, inr, refl, sym, ◌∙◌, subst, ap, ap₂, Bool, true, false, Option,
  none, some, List, [], ◌∷◌, arith, length, if◌then◌else◌, Bool-cases, append-nil,
}
use horreum.Bytes.{Bytes, bytes_eq, bytes_eq→eq, bytes_eq_self, put_uint16_wrap, put_uint32_wrap}
use horreum.Ds.HashPayload
use horreum.Ds.HashPayload.{h_get_all}
use horreum.Ds.HashPayload.Layout.{Entry, encode, Fits}
use horreum.Ds.HashPayload.Lookup.{get, set, remove}
use horreum.Ds.HashPayload.Change.{
  is_none, h_set-cons, h_get-cons, h_del-cons, h_get_all-cons, Hollow,
}

pub data Call : Type 0 where
  h_set : Bytes → Bytes → Call
  h_get h_del : Bytes → Call

-- `fresh` is HSet's flag, `value` the result of HGet, `deleted` HDel's flag.
pub data Reply : Type 0 where
  fresh deleted : Bool → Reply
  value : Option Bytes → Reply

-- One call on the payload.
pub call : Bytes → Call → Reply × Bytes
call raw (Call.h_set k v) = let (raw', new) = HashPayload.h_set raw k v in (fresh new, raw')
call raw (Call.h_get k) = (value (HashPayload.h_get raw k), raw)
call raw (Call.h_del k) = let (raw', done) = HashPayload.h_del raw k in (deleted done, raw')

-- One call on a map.
unfoldable pub step : (Bytes → Option Bytes) → Call → Reply × (Bytes → Option Bytes)
step p (Call.h_set k v) = (fresh (is_none (p k)), λ j. if bytes_eq k j then some v else p j)
step p (Call.h_get k) = (value (p k), p)
step p (Call.h_del k) =
    (deleted (if is_none (p k) then false else true), λ j. if bytes_eq k j then none else p j)

pub run : {S : Type 0} → (S → Call → Reply × S) → S → List Call → List Reply
run one s [] = []
run one s (c ∷ cs) = let (r, s') = one s c in r ∷ run one s' cs

abbrev pub Distinct : List Entry → Type 0
Distinct [] = Unit
Distinct ((f, v) ∷ es) = (get f es ≡ none) × Distinct es

-- The map has no other field.
abbrev pub Alone : (Bytes → Option Bytes) → Bytes → Type 0
Alone p k = (j : Bytes) → bytes_eq k j ≡ false → p j ≡ none

-- The field and the value that HSet brings fit their widths, and a field that HDel meets in the map
-- has an empty value or is the only one.
abbrev pub CallFits : (Bytes → Option Bytes) → Call → Type 0
CallFits p (Call.h_set k v) = (length k < 2 ^ 16) × (length v < 2 ^ 32)
CallFits p (Call.h_get k) = Unit
CallFits p (Call.h_del k) = Hollow (p k) ⊎ Alone p k

abbrev pub CallsFit : (Bytes → Option Bytes) → List Call → Type 0
CallsFit p [] = Unit
CallsFit p (c ∷ cs) = CallFits p c × CallsFit (step p c).1 cs

get-set :
    (j k v : Bytes) (es : List Entry)
    → get j (set k v es) ≡ (if bytes_eq k j then some v else get j es)
get-set j k v [] = refl
get-set j k v ((f, u) ∷ es) =
    ground
      (arith, get-set j k v es, bytes_eq→eq f k, bytes_eq→eq k j, bytes_eq→eq f j, bytes_eq_self j)

get-remove :
    (j k : Bytes) (es : List Entry)
    → Distinct es
    → get j (remove k es) ≡ (if bytes_eq k j then none else get j es)
get-remove j k [] d = ground arith
get-remove j k ((f, u) ∷ es) d = ground (
  arith,
  get-remove j k es d.1,
  d.0,
  bytes_eq→eq f k,
  bytes_eq→eq k j,
  bytes_eq→eq f j,
  bytes_eq_self j,
)

Distinct-set : (k v : Bytes) (es : List Entry) → Distinct es → Distinct (set k v es)
Distinct-set k v [] d = (refl, tt)
Distinct-set k v ((f, u) ∷ es) d = elim (Bool-cases (bytes_eq f k)) [
  | inl e ↦ rw e d
  | inr e ↦ rw e (
    ground (arith, get-set f k v es, d.0, bytes_eq→eq k f, bytes_eq_self k),
    Distinct-set k v es d.1,
  )
]

Distinct-remove : (k : Bytes) (es : List Entry) → Distinct es → Distinct (remove k es)
Distinct-remove k [] d = tt
Distinct-remove k ((f, u) ∷ es) d = elim (Bool-cases (bytes_eq f k)) [
  | inl e ↦ rw e d.1
  | inr e ↦ rw e (ground (arith, get-remove f k es d.1, d.0), Distinct-remove k es d.1)
]

Fits-set :
    (k v : Bytes) (es : List Entry)
    → Fits es
    → length k < 2 ^ 16
    → length v < 2 ^ 32
    → Fits (set k v es) × (length (set k v es) ≤ length es + 1)
Fits-set k v [] h hk hv = ((hk, hv, tt), omega arith)
Fits-set k v ((f, u) ∷ es) h hk hv = elim (Bool-cases (bytes_eq f k)) [
  | inl e ↦ rw e ((h.0, hv, h.2), omega arith)
  | inr e ↦ let (fits, short) = Fits-set k v es h.2 hk hv in rw e ((h.0, h.1, fits), omega arith)
]

Fits-remove :
    (k : Bytes) (es : List Entry)
    → Fits es
    → Fits (remove k es) × (length (remove k es) ≤ length es)
Fits-remove k [] h = (tt, omega arith)
Fits-remove k ((f, u) ∷ es) h = elim (Bool-cases (bytes_eq f k)) [
  | inl e ↦ rw e (h.2, omega arith)
  | inr e ↦ let (fits, short) = Fits-remove k es h.2 in rw e ((h.0, h.1, fits), omega arith)
]

-- The same call on the list of entries.
list_step : List Entry → Call → Reply × List Entry
list_step es (Call.h_set k v) = (fresh (is_none (get k es)), set k v es)
list_step es (Call.h_get k) = (value (get k es), es)
list_step es (Call.h_del k) = (deleted (if is_none (get k es) then false else true), remove k es)

only_entry :
    (k : Bytes) (e : Entry) (es : List Entry)
    → Distinct (e ∷ es)
    → Hollow (get k (e ∷ es)) ⊎ Alone (λ j. get j (e ∷ es)) k
    → Hollow (get k (e ∷ es)) ⊎ (length es ≡ 0)
only_entry k e es d (inl hollow) = inl hollow
only_entry k (f, u) [] d (inr alone) = inr refl
only_entry k (f, u) ((g, w) ∷ es) d (inr alone) =
    absurd (ground (arith, d.0, bytes_eq→eq k f kf, bytes_eq→eq k g kg, bytes_eq_self k))
  where
    kf : bytes_eq k f ≡ true
    kf = ground (arith, alone f, bytes_eq_self f)

    kg : bytes_eq k g ≡ true
    kg = ground (arith, alone g, bytes_eq_self g)

call-encode :
    (es : List Entry) (c : Call)
    → Fits es
    → length es < 2 ^ 32
    → Distinct es
    → CallFits (λ j. get j es) c
    → call (encode es) c ≡ (let (r, fs) = list_step es c in (r, encode fs))
unfolding call list_step
call-encode [] (Call.h_set k v) h b d q =
    unfold HashPayload.h_set in
    rw (put_uint16_wrap (length k), put_uint32_wrap (length v), append-nil v)
call-encode [] (Call.h_get k) h b d q = unfold HashPayload.h_get in refl
call-encode [] (Call.h_del k) h b d q = unfold HashPayload.h_del in refl
call-encode (e ∷ es) (Call.h_set k v) h b d q = rw (h_set-cons k e es h b v)
call-encode (e ∷ es) (Call.h_get k) h b d q = rw (h_get-cons k e es h b)
call-encode (e ∷ es) (Call.h_del k) h b d q = rw (h_del-cons k e es h b (only_entry k e es d q))

-- A list of entries stands for a map.
pub record Tracks (p : Bytes → Option Bytes) (es : List Entry) : Type 0 where
  pub gets : (j : Bytes) → get j es ≡ p j
  pub distinct : Distinct es
  pub fits : Fits es

record Stepped (p : Bytes → Option Bytes) (es : List Entry) (c : Call) : Type 0 where
  reply : (list_step es c).0 ≡ (step p c).0
  tracks : Tracks (step p c).1 (list_step es c).1
  grows : length (list_step es c).1 ≤ length es + 1

step-Stepped :
    (p : Bytes → Option Bytes) (es : List Entry) (c : Call)
    → Tracks p es
    → CallFits p c
    → Stepped p es c
unfolding step list_step
step-Stepped p es (Call.h_set k v) t fit =
    let (fits, short) = Fits-set k v es t.fits fit.0 fit.1 in
    record {
      reply = ap (λ o. fresh (is_none o)) (t.gets k);
      tracks = record {
        gets = λ j. ground (arith, get-set j k v es, t.gets j);
        distinct = Distinct-set k v es t.distinct;
        fits = fits;
      };
      grows = short;
    }
step-Stepped p es (Call.h_get k) t fit = record {
  reply = ap value (t.gets k);
  tracks = t;
  grows = omega arith;
}
step-Stepped p es (Call.h_del k) t fit = record {
  reply = ap (λ o. deleted (if is_none o then false else true)) (t.gets k);
  tracks = record {
    gets = λ j. ground (arith, get-remove j k es t.distinct, t.gets j);
    distinct = Distinct-remove k es t.distinct;
    fits = (Fits-remove k es t.fits).0;
  };
  grows = omega (arith, (Fits-remove k es t.fits).1);
}

-- No sequence of HSet, HGet and HDel on a key's payload can be told from those calls on a map, as
-- long as no HDel meets a field whose value is not empty among other fields: from the payload of
-- entries with distinct fields that `p` looks up, every flag and every value agrees, while no width
-- and no count overflows.
pub hash_run_refines :
    (cs : List Call) (es : List Entry) (p : Bytes → Option Bytes)
    → Tracks p es
    → CallsFit p cs
    → length es + length cs < 2 ^ 32
    → run call (encode es) cs ≡ run step p cs
unfolding run
hash_run_refines [] es p t k b = refl
hash_run_refines (c ∷ cs) es p t k b =
    let s = step-Stepped p es c t k.0 in
    rw (call-encode es c t.fits (omega arith) t.distinct (CallFits-same c k.0)) (
      ap₂ ◌∷◌ s.reply
        (hash_run_refines cs (list_step es c).1 (step p c).1 s.tracks k.1 (omega (arith, s.grows))))
  where
    CallFits-same : (c : Call) → CallFits p c → CallFits (λ j. get j es) c
    CallFits-same (Call.h_set x y) q = q
    CallFits-same (Call.h_get x) q = tt
    CallFits-same (Call.h_del x) (inl q) = inl (subst Hollow (sym (t.gets x)) q)
    CallFits-same (Call.h_del x) (inr q) = inr (λ j other. t.gets j ∙ q j other)

-- HGetAll lists the entries that the payload stands for, in the order of insertion.
pub h_get_all-encode : (es : List Entry) → Fits es → length es < 2 ^ 32 → h_get_all (encode es) ≡ es
h_get_all-encode [] h b = unfold h_get_all in refl
h_get_all-encode (e ∷ es) h b = h_get_all-cons e.0 e es h b
