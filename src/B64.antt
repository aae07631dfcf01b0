-- ===== src/B64.antt =====
-- Base64 (src/HCFS/b64encode.c). A `char` is its byte; the output buffers are the lists of what is
-- written to them, without the final 0 that `b64encode_str` adds.
pub mod Decode
pub mod RoundTrip
pub mod Bounds
mod Tests
use Prim.Native.Char.{code}
use Prim.Native.String.{String}
use hcfs.Base.{
  ℕ, ◌+◌, ◌-◌, ◌*◌, ◌/◌, ◌%◌, zero, suc, List, [], ◌∷◌, ◌++◌, Bool, true, false, ◌&&◌, Option, none,
  some, Result, ok, err, enomem, ◌==◌, leb, if◌then◌else◌, length, get_or,
}
use hcfs.Base.Int.{ℤ, pos, ◌-ℤ◌}

abbrev codes : String → List ℕ
codes String.[] = []
codes (String.◌∷◌ c s) = code c ∷ codes s

unfoldable pub base64_codes : ℕ → ℕ
base64_codes i =
    get_or (codes "ABCDEFGHIJKLMNOPQRSTUVWXYZabcdefghijklmnopqrstuvwxyz0123456789+/") i 0

-- One round of the loop: `tmp` has 24 bits, its four groups of six are `(tmp & mask) >> shift`.
unfoldable pub join_bytes : (b0 b1 b2 : ℕ) → ℕ
join_bytes b0 b1 b2 = b0 * 65536 + b1 * 256 + b2

abbrev pub group_at : ℕ → ℕ → ℕ
group_at tmp shift = tmp / shift % 64

-- The last groups are filled with 0 bytes, and the characters that would only stand for these are
-- replaced by `=`.
unfoldable pub encode_groups : List ℕ → List ℕ
unfolding join_bytes base64_codes
encode_groups [] = []
encode_groups (b0 ∷ []) =
    let tmp = join_bytes b0 0 0 in
    base64_codes (group_at tmp 262144) ∷ base64_codes (group_at tmp 4096) ∷ b'=' ∷ b'=' ∷ []
encode_groups (b0 ∷ b1 ∷ []) =
    let tmp = join_bytes b0 b1 0 in
    base64_codes (group_at tmp 262144)
    ∷ base64_codes (group_at tmp 4096)
    ∷ base64_codes (group_at tmp 64)
    ∷ b'='
    ∷ []
encode_groups (b0 ∷ b1 ∷ b2 ∷ bs) =
    let tmp = join_bytes b0 b1 b2 in
    base64_codes (group_at tmp 262144)
    ∷ base64_codes (group_at tmp 4096)
    ∷ base64_codes (group_at tmp 64)
    ∷ base64_codes (group_at tmp 1)
    ∷ encode_groups bs

-- The string and `*outlen`; `has_memory` says whether `malloc` returns memory.
unfoldable pub b64encode_str : (has_memory : Bool) → List ℕ → Result (List ℕ × ℕ)
unfolding encode_groups
b64encode_str false input = err enomem
b64encode_str true input = ok (encode_groups input, length (encode_groups input))

-- `none` is the result -1, for a character that is not allowed; 64 is for one to skip.
unfoldable pub decode_table : ℕ → Option ℕ
decode_table c =
    if leb b'A' c && leb c b'Z'
    then some (c - b'A')
    else if leb b'a' c && leb c b'z'
    then some (c - b'a' + 26)
    else if leb b'0' c && leb c b'9'
    then some (c - b'0' + 52)
    else if c == b'+'
    then some 62
    else if c == b'/'
    then some 63
    else if c == 10
    then some 64
    else if c == 13
    then some 64
    else if c == 9
    then some 64
    else if c == b' '
    then some 64
    else if c == b'='
    then some 64
    else if c == 0
    then some 64
    else none

-- The local variables: `buf`, `group_count` and what has been written.
pub record Decoder : Type 0 where
  pub buf0 : ℕ
  pub buf1 : ℕ
  pub buf2 : ℕ
  pub buf3 : ℕ
  pub group_count : ℕ
  pub output : List ℕ

abbrev pub start : Decoder
start = record { buf0 = 0; buf1 = 0; buf2 = 0; buf3 = 0; group_count = 0; output = [] }

-- The bytes of a group; `buf[1] & 0x30` shifted by 4 is the upper two of six bits.
abbrev pub byte_0 : Decoder → ℕ
byte_0 d = (d.buf0 * 4 + d.buf1 / 16 % 4) % 256

abbrev pub byte_1 : Decoder → ℕ
byte_1 d = (d.buf1 * 16 + d.buf2 / 4) % 256

abbrev pub byte_2 : Decoder → ℕ
byte_2 d = (d.buf2 * 64 + d.buf3) % 256

abbrev pub store : ℕ → ℕ → Decoder → Decoder
store zero v d = record d { buf0 = v; group_count = 1 }
store (suc zero) v d = record d { buf1 = v; group_count = 2 }
store (suc (suc zero)) v d = record d { buf2 = v; group_count = 3 }
store (suc (suc (suc n))) v d = record d { buf3 = v; group_count = n + 4 }

-- A full group is written.
abbrev pub flush : Decoder → Decoder
flush d =
    if d.group_count == 4
    then record d { group_count = 0; output = d.output ++ (byte_0 d ∷ byte_1 d ∷ byte_2 d ∷ []) }
    else d

unfoldable pub take_char : ℕ → Decoder → Decoder
take_char v d = if v == 64 then d else flush (store d.group_count v d)

-- The results -1 and -2, with which the bytes that were stored before are still in the buffer.
pub data Failure : Type 0 where
  illegal_character impossible_format : Failure

pub data Decoding : Type 0 where
  decoded : (output : List ℕ) (outlen : ℤ) → Decoding
  failed : Failure → (output : List ℕ) → Decoding

abbrev pub outlen_of : List ℕ → ℤ
outlen_of output = pos (length output) -ℤ pos 1

-- What is left in the last group.
unfoldable pub finish : ℕ → Decoder → Decoding
finish zero d = decoded d.output (outlen_of d.output)
finish (suc zero) d = failed impossible_format d.output
finish (suc (suc zero)) d =
    let out = d.output ++ (byte_0 d ∷ (d.buf1 * 16) % 256 ∷ []) in decoded out (outlen_of out)
finish (suc (suc (suc zero))) d =
    let out = d.output ++ (byte_0 d ∷ byte_1 d ∷ (d.buf2 * 64) % 256 ∷ []) in
    decoded out (outlen_of out)
finish (suc (suc (suc (suc n)))) d = failed impossible_format d.output

unfoldable pub decode_loop : List ℕ → Decoder → Decoding
unfolding take_char finish decode_table
decode_loop [] d = finish d.group_count d
decode_loop (c ∷ cs) d = elim (decode_table c) [
  | none ↦ failed illegal_character d.output
  | some v ↦ decode_loop cs (take_char v d)
]

unfoldable pub b64decode_str : List ℕ → Decoding
unfolding decode_loop
b64decode_str input = decode_loop input start
