-- ===== src/B64/Tests.antt =====
-- Base64 on concrete inputs.
use hcfs.Base.{ℕ, ◌+◌, ◌*◌, ◌/◌, ◌≤◌, ◌≡◌, refl, true, List, [], ◌∷◌, ◌++◌, ok, length, arith}
use hcfs.B64.{b64encode_str, b64decode_str, decoded, failed, impossible_format}
use hcfs.B64.RoundTrip.{AreBytes, surplus, returned_length, b64decode_str-b64encode_str}
use hcfs.B64.Bounds.{written, b64decode_str-written}

abbrev bytes : List ℕ
bytes = 72 ∷ 255 ∷ 0 ∷ 17 ∷ []

bytes-AreBytes : AreBytes bytes
bytes-AreBytes = (omega arith, (omega arith, (omega arith, (omega arith, tt))))

encoded_bytes :
    b64encode_str true bytes ≡ ok (b'S' ∷ b'P' ∷ b'8' ∷ b'A' ∷ b'E' ∷ b'Q' ∷ b'=' ∷ b'=' ∷ [], 8)
unfolding b64encode_str
encoded_bytes = refl

lone_digit :
    b64decode_str (b'S' ∷ b'P' ∷ b'8' ∷ b'A' ∷ b'E' ∷ [])
    ≡ failed impossible_format (b'H' ∷ 255 ∷ 0 ∷ [])
unfolding b64decode_str
lone_digit = refl

b64decode_str-b64encode_str_example :
    (text : List ℕ) × (b64encode_str true bytes ≡ ok (text, 4 * ((length bytes + 2) / 3)))
    × (b64decode_str text ≡ decoded (bytes ++ surplus bytes) (returned_length (length bytes)))
b64decode_str-b64encode_str_example = b64decode_str-b64encode_str bytes bytes-AreBytes

-- An illegal character behind a group that was stored.
abbrev broken : List ℕ
broken = b'S' ∷ b'P' ∷ b' ' ∷ b'8' ∷ b'A' ∷ b'!' ∷ b'Q' ∷ []

b64decode_str-written_example : 4 * written (b64decode_str broken) ≤ 3 * length broken + 3
b64decode_str-written_example = b64decode_str-written broken
