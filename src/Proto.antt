-- ===== src/Proto.antt =====
-- internal/proto/proto.go: the binary frames, their encoders, and the streaming parser.
pub mod Encode
pub mod Parse
pub mod Frames
pub mod Stream
pub mod Decode
pub mod Feed
pub mod Chunks
pub mod Overwrite
pub mod Single
pub mod Examples
use horreum.Common.{
  ℕ, ◌≡◌, refl, ◌+◌, ◌*◌, ◌^◌, ◌%◌, Bool, true, false, ◌&&◌, not, Option, none, some, ◌==◌,
  if◌then◌else◌,
}
use horreum.Bytes.{Bytes}

-- OpCode, with the constants of the package as its constructors.
pub data OpCode : Type 0 where
  op_get op_set op_del op_set_ex op_cas op_incr op_scan op_del_prefix : OpCode
  op_h_set op_h_get op_h_del op_h_get_all : OpCode
  op_l_push op_l_pop op_r_push op_r_pop op_l_len : OpCode
  op_s_add op_s_rem op_s_is_member op_s_members : OpCode

-- The opCode constants.
abbrev pub code : OpCode → ℕ
code op_get = 1
code op_set = 2
code op_del = 3
code op_set_ex = 4
code op_cas = 5
code op_incr = 6
code op_scan = 7
code op_del_prefix = 8
code op_h_set = 9
code op_h_get = 10
code op_h_del = 11
code op_h_get_all = 12
code op_l_push = 13
code op_l_pop = 14
code op_r_push = 15
code op_r_pop = 16
code op_l_len = 17
code op_s_add = 18
code op_s_rem = 19
code op_s_is_member = 20
code op_s_members = 21

-- The switch of the parsers on the type byte; `none` is its default.
unfoldable pub op_of : ℕ → Option OpCode
op_of b =
    if b == 1
    then some op_get
    else if b == 2
    then some op_set
    else if b == 3
    then some op_del
    else if b == 4
    then some op_set_ex
    else if b == 5
    then some op_cas
    else if b == 6
    then some op_incr
    else if b == 7
    then some op_scan
    else if b == 8
    then some op_del_prefix
    else if b == 9
    then some op_h_set
    else if b == 10
    then some op_h_get
    else if b == 11
    then some op_h_del
    else if b == 12
    then some op_h_get_all
    else if b == 13
    then some op_l_push
    else if b == 14
    then some op_l_pop
    else if b == 15
    then some op_r_push
    else if b == 16
    then some op_r_pop
    else if b == 17
    then some op_l_len
    else if b == 18
    then some op_s_add
    else if b == 19
    then some op_s_rem
    else if b == 20
    then some op_s_is_member
    else if b == 21
    then some op_s_members
    else none

pub op_of-code : (op : OpCode) → op_of (code op) ≡ some op
unfolding op_of
op_of-code op_get = refl
op_of-code _ = refl

abbrev pub magic : ℕ
magic = 0x4848

abbrev pub header_size : ℕ
header_size = 10

abbrev pub max_frame_size : ℕ
max_frame_size = 64 * 2 ^ 20

-- The errors of the parser; io.ErrShortBuffer is the `short` of a parse.
pub data ProtoError : Type 0 where
  bad_magic unknown_op frame_too_large : ProtoError

pub record Frame : Type 0 where
  pub op : OpCode
  pub key : Bytes
  pub value : Bytes
  pub flags : ℕ

-- IsResponse and IsError; flags & 0x1 is the remainder by 2.
unfoldable pub is_response : Frame → Bool
is_response f = f.flags % 2 == 1

unfoldable pub is_error : Frame → Bool
is_error f = (f.flags % 2 == 1) && not (f.flags == 0)
