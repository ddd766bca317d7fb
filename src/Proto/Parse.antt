-- ===== src/Proto/Parse.antt =====
-- The parser of proto.go: one frame at the head of a buffer, and Feed over a sequence of buffers.
-- A frame's key and value are views into the buffer that it was parsed from.
use horreum.Common.{
  ℕ, zero, suc, ◌+◌, ◌-◌, ◌/◌, Option, none, some, List, [], ◌∷◌, ◌++◌, map, ltb, leb, ◌==◌,
  if◌then◌else◌, length, drop, not,
}
use horreum.Bytes.{Bytes, byte, get_uint16, get_uint32, slice}
use horreum.Proto.{
  Frame, OpCode, op_of, ProtoError, bad_magic, unknown_op, frame_too_large, magic, header_size,
  max_frame_size,
}

pub data Parsed : Type 0 where
  short : Parsed
  failed : ProtoError → Parsed
  parsed : Frame → Parsed

parsed_op : Option OpCode → ℕ → Bytes → Bytes → Parsed
parsed_op none flags key value = failed unknown_op
parsed_op (some op) flags key value =
    parsed (record { op = op; key = key; value = value; flags = flags })

-- parseIn, and the tests of Parse.
unfoldable pub parse_in : Bytes → Parsed
unfolding parsed_op
parse_in work =
    let op = byte (drop 2 work) in
    let flags = byte (drop 3 work) in
    let key_len = get_uint16 (drop 4 work) in
    let val_len = get_uint32 (drop 6 work) in
    let total = header_size + key_len + val_len in
    if ltb (length work) header_size
    then short
    else if not (get_uint16 work == magic)
    then failed bad_magic
    else if ltb max_frame_size total
    then failed frame_too_large
    else if ltb (length work) total
    then short
    else parsed_op (op_of op) flags (slice work header_size (header_size + key_len))
        (slice work (header_size + key_len) total)

-- The parser's buffer: its bytes, and the capacity from their start.
pub record Parser : Type 0 where
  pub pending : Bytes
  pub capacity : ℕ

-- The bytes of a frame: what the loops of Feed cut off.
abbrev pub consumed : Frame → ℕ
consumed f = header_size + length f.key + length f.value

-- What one of the loops of Feed leaves: each frame with its offset in the buffer, the error that
-- ended the loop if it was not a short buffer, and the bytes not consumed.
pub record Drained : Type 0 where
  pub frames : List (ℕ × Frame)
  pub stop : Option ProtoError
  pub left : Bytes

abbrev pub drained_cons : ℕ → Frame → Drained → Drained
drained_cons off f d = record { frames = (off, f) ∷ d.frames; stop = d.stop; left = d.left }

-- The loops of Feed, on fuel.
unfoldable pub drain : ℕ → ℕ → Bytes → Drained
drain zero off work = record { frames = []; stop = none; left = work }
drain (suc n) off work = elim (parse_in work) [
  | short ↦ record { frames = []; stop = none; left = work }
  | failed e ↦ record { frames = []; stop = some e; left = work }
  | parsed f ↦ drained_cons off f (drain n (off + consumed f) (drop (consumed f) work))
]

-- Enough fuel for any buffer: each round consumes a header at least.
abbrev pub drain_all : Bytes → Drained
drain_all work = drain (length work + 1) 0 work

-- What a frame's views show once the array behind them is `arr`.
abbrev pub view_in : Bytes → ℕ × Frame → Frame
view_in arr (off, f) =
    let k_off = off + header_size in
    let v_off = k_off + length f.key in
    record f { key = slice arr k_off v_off; value = slice arr v_off (v_off + length f.value) }

abbrev pub frame_of : ℕ × Frame → Frame
frame_of (off, f) = f

-- What Feed returns, with the parser after it.
pub record Fed : Type 0 where
  pub frames : List Frame
  pub error : Option ProtoError
  pub parser : Parser

-- `grow old need` is the capacity that `append` chooses for `need` bytes in place of `old`.
module _ (grow : ℕ → ℕ → ℕ) where
  -- append(p[:k], bytes...) of `need` bytes in all
  abbrev pub append_capacity : ℕ → ℕ → ℕ
  append_capacity old need = if leb need old then old else grow old need

  -- Feed with nothing pending: the frames are views into the caller's buffer.
  unfoldable pub feed_fresh : Parser → Bytes → Fed
  feed_fresh p buf =
      let d = drain_all buf in
      elim d.stop [
        | some e ↦ record {
          frames = map frame_of d.frames;
          error = some e;
          parser = record p { pending = [] };
        }
        | none ↦ record {
          frames = map frame_of d.frames;
          error = none;
          parser =
              if ltb 0 (length d.left)
              then record {
                pending = d.left;
                capacity = append_capacity p.capacity (length d.left);
              }
              else p;
        }
      ]

  -- Feed with bytes pending: the frames are views into the parser's own array, and the bytes left
  -- over are moved to its front if they are fewer than half of its capacity.
  unfoldable pub feed_pending : Parser → Bytes → Fed
  feed_pending p buf =
      let work = p.pending ++ buf in
      let cap = append_capacity p.capacity (length work) in
      let d = drain_all work in
      let slid = d.left ++ drop (length d.left) work in
      elim d.stop [
        | some e ↦ record {
          frames = map frame_of d.frames;
          error = some e;
          parser = record { pending = []; capacity = cap };
        }
        | none ↦
            if length d.left == 0
            then record {
              frames = map frame_of d.frames;
              error = none;
              parser = record { pending = []; capacity = cap };
            }
            else if ltb (length d.left) (cap / 2)
            then record {
              frames = map (view_in slid) d.frames;
              error = none;
              parser = record { pending = d.left; capacity = cap };
            }
            else record {
              frames = map frame_of d.frames;
              error = none;
              parser = record { pending = d.left; capacity = cap - (length work - length d.left) };
            }
      ]

  -- Feed
  unfoldable pub feed : Parser → Bytes → Fed
  unfolding feed_fresh feed_pending
  feed p buf = if length p.pending == 0 then feed_fresh p buf else feed_pending p buf

-- Parse: one frame from the head of the pending bytes, which then begin behind it.
unfoldable pub parse : Parser → Parsed × Parser
parse p =
    let r = parse_in p.pending in
    (
      r,
      elim r [
        | short ↦ p
        | failed e ↦ p
        | parsed f ↦ record {
          pending = drop (consumed f) p.pending;
          capacity = p.capacity - consumed f;
        }
      ],
    )

-- Reset
unfoldable pub reset : Parser → Parser
reset p = record p { pending = [] }
