-- ===== src/Proto/Single.antt =====
-- Parse of proto.go, one frame at a time.
use horreum.Common.{◌≡◌, sym, ◌∙◌, ap, List, [], ◌∷◌, ◌++◌, arith, drop, append_assoc}
use horreum.Bytes.{Bytes}
use horreum.Bytes.Window.{drop-append}
use horreum.Proto.{Frame}
use horreum.Proto.Encode.{encode_response}
use horreum.Proto.Parse.{consumed, Parser, parsed, parse_in, parse}
use horreum.Proto.Frames.{parse_in-encode_response}
use horreum.Proto.Chunks.{encode_all, Fit, length-encode_response}

-- Parse on a parser that holds encoded frames and anything behind them returns the first frame and
-- holds the others and what is behind them.
pub parse-encode_all :
    (p : Parser) (f : Frame) (fs : List Frame) (rest : Bytes)
    → p.pending ≡ encode_all (f ∷ fs) ++ rest
    → Fit (f ∷ fs)
    → ((parse p).0 ≡ parsed f) × ((parse p).1.pending ≡ encode_all fs ++ rest)
unfolding parse
parse-encode_all p f fs rest e h = ground (arith, here, cut)
  where
    bytes : Bytes
    bytes = encode_response [] f.op f.flags f.key f.value

    split : p.pending ≡ bytes ++ (encode_all fs ++ rest)
    split = e ∙ append_assoc bytes (encode_all fs) rest

    here : parse_in p.pending ≡ parsed f
    here =
        ap parse_in split
        ∙ parse_in-encode_response f.op f.key f.value (encode_all fs ++ rest) f.flags h.0 h.1

    cut : drop (consumed f) p.pending ≡ encode_all fs ++ rest
    cut =
        ap (λ l. drop (consumed f) l) split
        ∙ ap (λ n. drop n (bytes ++ (encode_all fs ++ rest)))
            (sym (length-encode_response f.op f.flags f.key f.value))
        ∙ drop-append bytes (encode_all fs ++ rest)
