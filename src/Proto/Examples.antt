-- ===== src/Proto/Examples.antt =====
-- The theorems on the protocol at concrete streams.
use horreum.Common.{
  ℕ, ◌≡◌, ◌+◌, arith, refl, ap, true, false, none, some, List, [], ◌∷◌, ◌++◌, length,
}
use horreum.Bytes.{Bytes, slice, byte, get_uint16, get_uint32}
use horreum.Proto.{Frame, op_get, op_set, op_of, bad_magic}
use horreum.Proto.Encode.{encode_request}
use horreum.Proto.Parse.{Parser, parse_in, parsed, feed, feed_fresh, feed_pending, drain, drain_all}
use horreum.Proto.Frames.{parse_in-encode_request}
use horreum.Proto.Decode.{decode, decode_fuel, before}
use horreum.Proto.Feed.{overwrites, Faithful, feed-Faithful}
use horreum.Proto.Chunks.{
  encode_all, decode-encode_all, feed_all, feed_all-eq-decode, concat, Quiet,
}
use horreum.Proto.Parse.{parse}
use horreum.Proto.Single.{parse-encode_all}
use horreum.Proto.Overwrite.{feed-overwritten}

-- A growth of `append`.
abbrev doubled : ℕ → ℕ → ℕ
doubled old need = need + need

abbrev empty : Parser
empty = record { pending = []; capacity = 0 }

-- GET of the key "k", and SET of "k" to "v".
abbrev get_k : Frame
get_k = record { op = op_get; key = 107 ∷ []; value = []; flags = 0 }

abbrev set_k : Frame
set_k = record { op = op_set; key = 107 ∷ []; value = 118 ∷ []; flags = 0 }

abbrev get_bytes : Bytes
get_bytes = 0x48 ∷ 0x48 ∷ 1 ∷ 0 ∷ 1 ∷ 0 ∷ 0 ∷ 0 ∷ 0 ∷ 0 ∷ 107 ∷ []

-- Eleven bytes of a SET with a longer value.
abbrev partial_set : Bytes
partial_set = 0x48 ∷ 0x48 ∷ 2 ∷ 0 ∷ 1 ∷ 0 ∷ 9 ∷ 0 ∷ 0 ∷ 0 ∷ 120 ∷ []

-- The stream of get_k in two chunks.
abbrev chunks : List Bytes
chunks = (0x48 ∷ 0x48 ∷ 1 ∷ 0 ∷ []) ∷ (1 ∷ 0 ∷ 0 ∷ 0 ∷ 0 ∷ 0 ∷ 107 ∷ []) ∷ []

parse_in-encode_request_example :
    parse_in (encode_request [] op_set (107 ∷ []) (118 ∷ []) ++ (1 ∷ [])) ≡ parsed set_k
parse_in-encode_request_example =
    parse_in-encode_request op_set (107 ∷ []) (118 ∷ []) (1 ∷ []) (omega arith) (omega arith)

get_parsed : parse_in get_bytes ≡ parsed get_k
unfolding parse_in get_uint16 get_uint32 byte op_of
get_parsed = refl

decode-encode_all_example :
    decode (encode_all (get_k ∷ set_k ∷ []) ++ partial_set)
    ≡ before (get_k ∷ set_k ∷ []) (decode partial_set)
decode-encode_all_example =
    decode-encode_all (get_k ∷ set_k ∷ []) partial_set
      (omega arith, omega arith, (omega arith, omega arith, tt))

-- The parser with the header of get_k held.
abbrev holding : Parser
holding = record { pending = 0x48 ∷ 0x48 ∷ 1 ∷ 0 ∷ []; capacity = 4 }

quiet_holding : overwrites doubled holding (1 ∷ 0 ∷ 0 ∷ 0 ∷ 0 ∷ 0 ∷ 107 ∷ []) ≡ false
unfolding overwrites drain parse_in get_uint16 get_uint32 byte op_of
quiet_holding = refl

-- Eleven bytes held in an array of 64 and one more byte: nothing is returned, nothing overwritten.
abbrev warm : Parser
warm = record { pending = partial_set; capacity = 64 }

quiet_warm : overwrites doubled warm (121 ∷ []) ≡ false
unfolding overwrites drain parse_in get_uint16 get_uint32 byte op_of
quiet_warm = refl

feed-Faithful_example :
    Faithful
      (decode (holding.pending ++ (1 ∷ 0 ∷ 0 ∷ 0 ∷ 0 ∷ 0 ∷ 107 ∷ [])))
      (feed doubled holding (1 ∷ 0 ∷ 0 ∷ 0 ∷ 0 ∷ 0 ∷ 107 ∷ []))
feed-Faithful_example =
    feed-Faithful doubled holding (1 ∷ 0 ∷ 0 ∷ 0 ∷ 0 ∷ 0 ∷ 107 ∷ []) quiet_holding

Quiet-chunks : Quiet doubled empty chunks
unfolding overwrites feed feed_fresh feed_pending drain parse_in get_uint16 get_uint32 byte op_of
Quiet-chunks = (refl, (refl, tt))

nothing_held : decode [] ≡ record { frames = []; stop = none; left = [] }
unfolding decode_fuel parse_in
nothing_held = refl

feed_all-eq-decode_example :
    ((feed_all doubled empty chunks).frames ≡ (decode ([] ++ concat chunks)).frames)
    × ((feed_all doubled empty chunks).error ≡ (decode ([] ++ concat chunks)).stop)
feed_all-eq-decode_example = feed_all-eq-decode doubled empty chunks Quiet-chunks nothing_held

get_without_error : (decode get_bytes).stop ≡ none
unfolding decode_fuel parse_in get_uint16 get_uint32 byte op_of
get_without_error = refl

abbrev zeros : Bytes
zeros = 0 ∷ 0 ∷ 0 ∷ 0 ∷ 0 ∷ 0 ∷ 0 ∷ 0 ∷ 0 ∷ 0 ∷ []

zeros_error : (decode zeros).stop ≡ some bad_magic
unfolding decode_fuel parse_in get_uint16 get_uint32 byte op_of
zeros_error = refl

-- The header of get_k held, and its key with the next frame's eleven bytes behind it, in 32 bytes.
abbrev held_header : Parser
held_header = record { pending = 0x48 ∷ 0x48 ∷ 1 ∷ 0 ∷ 1 ∷ 0 ∷ 0 ∷ 0 ∷ 0 ∷ 0 ∷ []; capacity = 32 }

overwriting : overwrites doubled held_header (107 ∷ partial_set) ≡ true
unfolding overwrites drain parse_in get_uint16 get_uint32 byte op_of
overwriting = refl

drained :
    drain_all (held_header.pending ++ (107 ∷ partial_set))
    ≡ record { frames = (0, get_k) ∷ []; stop = none; left = partial_set }
unfolding drain parse_in get_uint16 get_uint32 byte op_of
drained = refl

feed-overwritten_example :
    (g : Frame) × (gs : List Frame) × ((feed doubled held_header (107 ∷ partial_set)).frames
      ≡ g ∷ gs)
    × (g.key
        ≡ slice
            (drain_all (held_header.pending ++ (107 ∷ partial_set))).left
            10
            (10 + length get_k.key))
    × (g.op ≡ get_k.op)
feed-overwritten_example =
    feed-overwritten doubled held_header (107 ∷ partial_set) get_k [] overwriting
      (ap (λ d. d.stop) drained) (ap (λ d. d.frames) drained) (rw drained (omega arith))

abbrev holds_two : Parser
holds_two = record { pending = encode_all (get_k ∷ set_k ∷ []) ++ partial_set; capacity = 64 }

parse-encode_all_example :
    ((parse holds_two).0 ≡ parsed get_k)
    × ((parse holds_two).1.pending ≡ encode_all (set_k ∷ []) ++ partial_set)
parse-encode_all_example =
    parse-encode_all holds_two get_k (set_k ∷ []) partial_set refl
      (omega arith, omega arith, (omega arith, omega arith, tt))
