-- ===== src/Proto/Frames.antt =====
-- A frame that an encoder has written is parsed back, whatever follows it.
use horreum.Common.{
  ℕ, ◌+◌, ◌^◌, ◌<◌, ◌≤◌, ◌≡◌, refl, ◌∙◌, ap, some, [], ◌++◌, arith, length, drop, append_assoc,
  length-append,
}
use horreum.Bytes.{byte, Bytes, put_uint16, put_uint32, get_uint16, get_uint32}
use horreum.Bytes.Window.{At, At-slice, At-skip, At-length}
use horreum.Proto.{OpCode, code, op_of, op_of-code, magic, max_frame_size}
use horreum.Proto.Encode.{header, encode_request, encode_response}
use horreum.Proto.Parse.{parsed, parse_in}

module _ (op flags : ℕ) (key value rest : Bytes) (hk : length key < 2 ^ 16)
    (hv : length value < 2 ^ 32) where
  abbrev work : Bytes
  work = header op flags (length key) (length value) (key ++ (value ++ rest))

  record Header : Type 0 where
    magic_word : get_uint16 work ≡ magic
    op_byte : byte (drop 2 work) ≡ op
    flags_byte : byte (drop 3 work) ≡ flags
    key_len : get_uint16 (drop 4 work) ≡ length key
    val_len : get_uint32 (drop 6 work) ≡ length value
    body : At work 10 (key ++ (value ++ rest))

  header_lem : Header
  unfolding byte put_uint16 put_uint32 get_uint16 get_uint32
  header_lem = record {
    magic_word = refl;
    op_byte = refl;
    flags_byte = refl;
    key_len = omega arith;
    val_len = omega arith;
    body = record { inside = omega arith; here = refl };
  }

  parse_in-header :
      (o : OpCode)
      → op_of op ≡ some o
      → 10 + length key + length value ≤ max_frame_size
      → parse_in work ≡ parsed (record { op = o; key = key; value = value; flags = flags })
  unfolding parse_in
  parse_in-header o e fits = ground (
    arith,
    header_lem,
    e,
    At-slice key (value ++ rest) header_lem.body,
    At-slice value rest (At-skip key (value ++ rest) header_lem.body),
    At-length header_lem.body,
    length-append key (value ++ rest),
    length-append value rest,
  )

module _ (op : OpCode) (key value rest : Bytes) where
  private_bound : 10 + length key + length value ≤ max_frame_size → length value < 2 ^ 32
  private_bound h = omega arith

  -- A response, and with status 0 a request, is parsed to the frame that was written, if the key's
  -- length fits its field and the frame the limit.
  pub parse_in-encode_response :
      (status : ℕ)
      → length key < 2 ^ 16
      → 10 + length key + length value ≤ max_frame_size
      → parse_in (encode_response [] op status key value ++ rest)
        ≡ parsed (record { op = op; key = key; value = value; flags = status })
  unfolding encode_response
  parse_in-encode_response status hk fits =
      ap parse_in regroup
      ∙ parse_in-header (code op) status key value rest hk (private_bound fits) op (op_of-code op)
          fits
    where
      regroup :
          header (code op) status (length key) (length value) (key ++ value) ++ rest
          ≡ header (code op) status (length key) (length value) (key ++ (value ++ rest))
      regroup = simp append_assoc

  -- An encoded request in front of any bytes is parsed as the request with flags 0, if the key's
  -- length fits 16 bits and the frame the limit.
  pub parse_in-encode_request :
      length key < 2 ^ 16
      → 10 + length key + length value ≤ max_frame_size
      → parse_in (encode_request [] op key value ++ rest)
        ≡ parsed (record { op = op; key = key; value = value; flags = 0 })
  parse_in-encode_request hk fits =
      unfold encode_request encode_response in parse_in-encode_response 0 hk fits
