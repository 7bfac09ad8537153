-- ===== src/Tests/Wire.antt =====
-- The wire formats on concrete bytes.
pub mod Fields
pub mod Requests
pub mod Notices
pub mod Objects
use moqxr.Common.{
  ℕ, ◌+◌, ◌-◌, ◌^◌, ◌≤◌, ◌<◌, ◌≡◌, inr, refl, none, some, List, [], ◌∷◌, ◌++◌, arith, length, drop,
  All, length-append,
}
use moqxr.Common.Bytes.{IsByte, u64_mod}
use moqxr.Draft.{draft14, draft16, draft17, draft23}
use moqxr.Wire.Varint.{append_varint, decode_varint_impl, encode_varint}
use moqxr.Wire.Varint.RoundTrip.{decode-append_varint}
use moqxr.Wire.Vi64.{append_vi64, vi64_bytes, vi64_prefix, decode_vi64_impl}
use moqxr.Wire.Vi64.RoundTrip.{decode-append_vi64}
use moqxr.Wire.Moqint.{push_moqint, decode_moqint_impl, moqint_limit, append_moqint}
use moqxr.Wire.Moqint.RoundTrip.{
  decode-push_moqint, decode_moqint_takes, moqint_bytes, moqint_bytes_size,
}
use moqxr.Wire.Control.{
  default_max_control_message_size, finish_message, parse_control_length_message,
  next_control_message, append_control_length, size_by_type, size_by_uint16, framing, uint16_length,
  subscribe_namespace,
}
use moqxr.Wire.Control.Splitting.{header, parse-finish_message, next-finish_message}
use moqxr.Wire.Control.Sizes.{head17, next_control_message_bounds, next_control_message_wraps}

-- 64-bit literals of RFC 9000, section A.1.
encode_varint_test : encode_varint 15293 ≡ 0x7b ∷ 0xbd ∷ []
unfolding encode_varint append_varint
encode_varint_test = refl

append_vi64_test :
    append_vi64 [] (2 ^ 64 - 1) ≡ 0xff ∷ 0xff ∷ 0xff ∷ 0xff ∷ 0xff ∷ 0xff ∷ 0xff ∷ 0xff ∷ 0xff ∷ []
unfolding append_vi64 vi64_bytes
append_vi64_test = refl

decode_vi64_short_test : decode_vi64_impl (0xc1 ∷ 2 ∷ []) 0 ≡ none
unfolding decode_vi64_impl vi64_prefix
decode_vi64_short_test = refl

abbrev goaway : List ℕ
goaway = 5 ∷ 6 ∷ 7 ∷ []

finish_message_test : finish_message draft16 0x10 goaway ≡ 0x10 ∷ 0 ∷ 3 ∷ 5 ∷ 6 ∷ 7 ∷ []
unfolding finish_message push_moqint append_moqint append_control_length append_varint
finish_message_test = refl

decode-push_moqint_example :
    decode_moqint_impl (push_moqint (9 ∷ []) draft17 (2 ^ 63) ++ 1 ∷ []) 1 draft17
    ≡ some (2 ^ 63, length (push_moqint (9 ∷ []) draft17 (2 ^ 63)))
decode-push_moqint_example = decode-push_moqint draft17 (9 ∷ []) (1 ∷ []) (2 ^ 63) (omega arith)

read_test : decode_moqint_impl (0x7b ∷ 0xbd ∷ 1 ∷ []) 0 draft16 ≡ some (15293, 2)
unfolding decode_moqint_impl decode_varint_impl
read_test = refl

read_bytes : All IsByte (0x7b ∷ 0xbd ∷ 1 ∷ [])
read_bytes = (omega arith, (omega arith, (omega arith, tt)))

parse-finish_message_example :
    let encodable : 0x10 < moqint_limit draft23 = omega arith in
    let short : length goaway ≤ default_max_control_message_size = omega arith in
    (parse_control_length_message (finish_message draft23 0x10 goaway) draft23 0x10
      ≡ some (length (header draft23 0x10 goaway encodable short), 3))
    × (drop
          (length (header draft23 0x10 goaway encodable short))
          (finish_message draft23 0x10 goaway)
        ≡ goaway)
parse-finish_message_example = parse-finish_message draft23 0x10 goaway (omega arith) (omega arith)

framing_test : framing 0x10 ≡ uint16_length
unfolding framing
framing_test = refl

next-finish_message_example :
    next_control_message (finish_message draft14 0x10 goaway ++ 1 ∷ 2 ∷ []) draft14
    ≡ some (length (finish_message draft14 0x10 goaway))
next-finish_message_example =
    next-finish_message draft14 0x10 goaway (omega arith) (omega arith) (1 ∷ 2 ∷ [])
      (inr framing_test)

cut_test : next_control_message (0x10 ∷ 0 ∷ 1 ∷ 7 ∷ 9 ∷ []) draft16 ≡ some 4
unfolding next_control_message decode_moqint_impl decode_varint_impl framing size_by_type
    size_by_uint16
cut_test = refl

cut_bytes : All IsByte (0x10 ∷ 0 ∷ 1 ∷ 7 ∷ 9 ∷ [])
cut_bytes = (omega arith, (omega arith, (omega arith, (omega arith, (omega arith, tt)))))

next_control_message_bounds_example : (0 < 4) × (4 ≤ 5)
next_control_message_bounds_example =
    next_control_message_bounds draft16 (0x10 ∷ 0 ∷ 1 ∷ 7 ∷ 9 ∷ []) 4 refl (omega arith) cut_bytes
      cut_test

namespace_test : framing 0x11 ≡ subscribe_namespace
unfolding framing
namespace_test = refl

head_test : 2 ≤ length (head17 0x11 (2 ^ 64 - 1))
head_test = omega (
  arith,
  length-append (moqint_bytes draft17 0x11) (moqint_bytes draft17 (2 ^ 64 - 1)),
  moqint_bytes_size draft17 0x11,
  moqint_bytes_size draft17 (2 ^ 64 - 1),
)

next_control_message_wraps_example :
    (next_control_message (head17 0x11 (2 ^ 64 - 1) ++ []) draft17
      ≡ some (length (head17 0x11 (2 ^ 64 - 1)) + (2 ^ 64 - 1) - u64_mod))
    × (length (head17 0x11 (2 ^ 64 - 1)) + (2 ^ 64 - 1) - u64_mod
        < length (head17 0x11 (2 ^ 64 - 1)))
next_control_message_wraps_example =
    next_control_message_wraps 0x11 (2 ^ 64 - 1) [] (inr namespace_test) (omega arith) (omega arith)
      (omega (arith, head_test))
