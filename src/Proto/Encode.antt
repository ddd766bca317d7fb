-- ===== src/Proto/Encode.antt =====
-- The encoders of proto.go. Each appends a frame to `dst`; the growth of its array is not modelled.
use horreum.Common.{ℕ, ◌+◌, ◌∷◌, ◌++◌, length}
use horreum.Bytes.{Bytes, uint16, uint32, put_uint16, put_uint32, put_uint64}
use horreum.Proto.{OpCode, code, magic, op_set_ex, op_cas, op_incr, op_scan, op_del_prefix}

-- The ten header bytes that every encoder writes.
abbrev pub header : ℕ → ℕ → ℕ → ℕ → Bytes → Bytes
header op flags key_len val_len body =
    put_uint16 magic
    ++ (op ∷ flags ∷ (put_uint16 (uint16 key_len) ++ (put_uint32 (uint32 val_len) ++ body)))

-- EncodeRequest
unfoldable pub encode_request : Bytes → OpCode → Bytes → Bytes → Bytes
encode_request dst op key value =
    dst ++ header (code op) 0 (length key) (length value) (key ++ value)

-- EncodeSetEx
unfoldable pub encode_set_ex : Bytes → Bytes → Bytes → ℕ → Bytes
encode_set_ex dst key value ttl_seconds =
    let val_len = 4 + length value in
    dst ++ header (code op_set_ex) 0 (length key) val_len (key ++ (put_uint32 ttl_seconds ++ value))

-- EncodeCAS
unfoldable pub encode_cas : Bytes → Bytes → Bytes → Bytes → Bytes
encode_cas dst key expected_value new_value =
    let val_len = 4 + length expected_value + length new_value in
    dst
    ++ header (code op_cas) 0 (length key) val_len
        (key ++ (put_uint32 (uint32 (length expected_value)) ++ (expected_value ++ new_value)))

-- EncodeIncr; the delta by its 64-bit pattern, uint64(delta).
unfoldable pub encode_incr : Bytes → Bytes → ℕ → Bytes
encode_incr dst key delta =
    let val_len : ℕ = 8 in
    dst ++ header (code op_incr) 0 (length key) val_len (key ++ put_uint64 delta)

-- EncodeScan
unfoldable pub encode_scan : Bytes → Bytes → ℕ → ℕ → Bytes
encode_scan dst prefix cursor count =
    let val_len : ℕ = 12 in
    dst
    ++ header (code op_scan) 0 (length prefix) val_len
        (prefix ++ (put_uint64 cursor ++ put_uint32 count))

-- EncodeDelPrefix
unfoldable pub encode_del_prefix : Bytes → Bytes → Bytes
encode_del_prefix dst prefix = dst ++ header (code op_del_prefix) 0 (length prefix) 0 prefix

-- EncodeResponse
unfoldable pub encode_response : Bytes → OpCode → ℕ → Bytes → Bytes → Bytes
encode_response dst op status key value =
    dst ++ header (code op) status (length key) (length value) (key ++ value)
