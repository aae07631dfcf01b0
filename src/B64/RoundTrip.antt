-- ===== src/B64/RoundTrip.antt =====
-- Decoding what was encoded.
use hcfs.Base.{
  ℕ, ◌+◌, ◌*◌, ◌/◌, ◌%◌, ◌<◌, suc, ◌≡◌, refl, List, [], ◌∷◌, ◌++◌, ok, ◌==◌, if◌then◌else◌, arith,
  ◌∙◌, ap, length, length-append, Bool, true, false,
}
use hcfs.Base.Int.{ℤ, pos, ◌-ℤ◌, pos_sub_one}
use mathlib.Core.List.{append-nil, append_assoc}
use hcfs.B64.{
  join_bytes, group_at, encode_groups, b64encode_str, Decoder, decode_table, take_char, finish,
  decode_loop, b64decode_str, Decoding, decoded, outlen_of,
}
use hcfs.B64.Bounds.{length-encode_groups}
use hcfs.B64.Decode.{between, decode_two, decode_three, decode_four}

abbrev pub AreBytes : List ℕ → Type 0
AreBytes [] = Unit
AreBytes (b ∷ bs) = (b < 256) × AreBytes bs

-- The decoder writes a byte 0 more where the last group is not full.
abbrev pub surplus : List ℕ → List ℕ
surplus [] = []
surplus (b0 ∷ []) = 0 ∷ []
surplus (b0 ∷ b1 ∷ []) = 0 ∷ []
surplus (b0 ∷ b1 ∷ b2 ∷ bs) = surplus bs

skip_pad : (cs : List ℕ) (d : Decoder) → decode_loop (b'=' ∷ cs) d ≡ decode_loop cs d
unfolding decode_loop take_char decode_table
skip_pad cs d = refl

abbrev decoded_as : List ℕ → Decoding
decoded_as out = decoded out (outlen_of out)

module _ (b0 b1 b2 : ℕ) (lt0 : b0 < 256) (lt1 : b1 < 256) (lt2 : b2 < 256) where
  abbrev tmp : ℕ
  tmp = b0 * 65536 + b1 * 256 + b2

  first_byte : (group_at tmp 262144 * 4 + group_at tmp 4096 / 16 % 4) % 256 ≡ b0
  first_byte = omega arith

  second_byte : (group_at tmp 4096 * 16 + group_at tmp 64 / 4) % 256 ≡ b1
  second_byte = omega arith

  third_byte : (group_at tmp 64 * 64 + group_at tmp 1) % 256 ≡ b2
  third_byte = omega arith

  group_bytes :
      ((group_at tmp 262144 * 4 + group_at tmp 4096 / 16 % 4) % 256)
        ∷ ((group_at tmp 4096 * 16 + group_at tmp 64 / 4) % 256)
        ∷ ((group_at tmp 64 * 64 + group_at tmp 1) % 256)
        ∷ []
      ≡ b0 ∷ b1 ∷ b2 ∷ []
  group_bytes = rw (first_byte, second_byte, third_byte)

group_small : (t s : ℕ) → group_at t s < 64
group_small t s = omega arith

end_two :
    (v0 v1 w2 w3 : ℕ) (out : List ℕ)
    → decode_loop (b'=' ∷ b'=' ∷ []) (record (between v0 v1 w2 w3 out) { group_count = 2 })
      ≡ decoded_as (out ++ (((v0 * 4 + v1 / 16 % 4) % 256) ∷ ((v1 * 16) % 256) ∷ []))
unfolding decode_loop take_char decode_table finish
end_two v0 v1 w2 w3 out = refl

end_three :
    (v0 v1 v2 w3 : ℕ) (out : List ℕ)
    → decode_loop (b'=' ∷ []) (record (between v0 v1 v2 w3 out) { group_count = 3 })
      ≡ decoded_as (
          out
          ++ (((v0 * 4 + v1 / 16 % 4) % 256) ∷ ((v1 * 16 + v2 / 4) % 256) ∷ ((v2 * 64) % 256) ∷ []))
unfolding decode_loop take_char decode_table finish
end_three v0 v1 v2 w3 out = refl

two_bytes :
    (b0 : ℕ)
    → b0 < 256
    → ((group_at (b0 * 65536 + 0 * 256 + 0) 262144 * 4
            + group_at (b0 * 65536 + 0 * 256 + 0) 4096 / 16 % 4)
          % 256)
        ∷ ((group_at (b0 * 65536 + 0 * 256 + 0) 4096 * 16) % 256)
        ∷ []
      ≡ b0 ∷ 0 ∷ []
two_bytes b0 lt = ground arith

three_bytes :
    (b0 b1 : ℕ)
    → b0 < 256
    → b1 < 256
    → ((group_at (b0 * 65536 + b1 * 256 + 0) 262144 * 4
            + group_at (b0 * 65536 + b1 * 256 + 0) 4096 / 16 % 4)
          % 256)
        ∷ ((group_at (b0 * 65536 + b1 * 256 + 0) 4096 * 16
              + group_at (b0 * 65536 + b1 * 256 + 0) 64 / 4)
            % 256)
        ∷ ((group_at (b0 * 65536 + b1 * 256 + 0) 64 * 64) % 256)
        ∷ []
      ≡ b0 ∷ b1 ∷ 0 ∷ []
three_bytes b0 b1 lt0 lt1 = ground arith

decode_loop-encode_groups :
    (bs out : List ℕ) (w0 w1 w2 w3 : ℕ)
    → AreBytes bs
    → decode_loop (encode_groups bs) (between w0 w1 w2 w3 out)
      ≡ decoded_as (out ++ (bs ++ surplus bs))
unfolding encode_groups join_bytes
decode_loop-encode_groups [] out w0 w1 w2 w3 h = unfold decode_loop finish in rw append-nil
decode_loop-encode_groups (b0 ∷ []) out w0 w1 w2 w3 (lt0, _) =
    decode_two _ _ 0 0 (group_small _ 262144) (group_small _ 4096) (b'=' ∷ b'=' ∷ []) out w0 w1 w2
      w3
    ∙ end_two _ _ w2 w3 out
    ∙ ap (λ l. decoded_as (out ++ l)) (two_bytes b0 lt0)
decode_loop-encode_groups (b0 ∷ b1 ∷ []) out w0 w1 w2 w3 (lt0, (lt1, _)) =
    decode_three _ _ _ 0 (group_small _ 262144) (group_small _ 4096) (b'=' ∷ []) out w0 w1 w2 w3
      (group_small _ 64)
    ∙ end_three _ _ _ w3 out
    ∙ ap (λ l. decoded_as (out ++ l)) (three_bytes b0 b1 lt0 lt1)
decode_loop-encode_groups (b0 ∷ b1 ∷ b2 ∷ bs) out w0 w1 w2 w3 (lt0, (lt1, (lt2, h))) =
    decode_four _ _ _ _ (group_small _ 262144) (group_small _ 4096) (encode_groups bs) out w0 w1 w2
      w3 (group_small _ 64) (group_small _ 1)
    ∙ decode_loop-encode_groups bs _ _ _ _ _ h
    ∙ ap decoded_as (
        append_assoc out _ _
        ∙ ap (λ l. out ++ (l ++ (bs ++ surplus bs))) (group_bytes b0 b1 b2 lt0 lt1 lt2))

-- The length that the decoder returns for what stands for `n` bytes.
abbrev pub returned_length : ℕ → ℤ
returned_length n = if n % 3 == 0 then pos n -ℤ pos 1 else pos n

length-surplus : (bs : List ℕ) → length (surplus bs) ≡ (if length bs % 3 == 0 then 0 else 1)
length-surplus [] = refl
length-surplus (b0 ∷ []) = refl
length-surplus (b0 ∷ b1 ∷ []) = refl
length-surplus (b0 ∷ b1 ∷ b2 ∷ bs) = length-surplus bs ∙ three_more (length bs)
  where
    three_more :
        (n : ℕ)
        → ◌≡◌ {A = ℕ} (if n % 3 == 0 then 0 else 1) (if suc (suc (suc n)) % 3 == 0 then 0 else 1)
    three_more n = ground arith

pred_of_sum :
    (n m k : ℕ) (b : Bool)
    → k ≡ n + m
    → m ≡ (if b then 0 else 1)
    → pos k -ℤ pos 1 ≡ (if b then pos n -ℤ pos 1 else pos n)
pred_of_sum n m k true e h = ap (λ i. pos i -ℤ pos 1) (omega arith)
pred_of_sum n m k false e h = pos_sub_one k n (omega arith)

outlen-surplus : (bs : List ℕ) → outlen_of (bs ++ surplus bs) ≡ returned_length (length bs)
outlen-surplus bs =
    pred_of_sum (length bs) (length (surplus bs)) _ (length bs % 3 == 0)
      (length-append bs (surplus bs)) (length-surplus bs)

-- Encoding a string of `n` bytes gives a text of four characters for each three bytes, the last
-- group filled up. Decoding that text succeeds: the decoder writes these
-- bytes, and one byte 0 more where their number is no multiple of 3. The length that it returns is
-- the number of bytes, but one less where that is a multiple of 3.
pub b64decode_str-b64encode_str :
    (bs : List ℕ)
    → AreBytes bs
    → (text : List ℕ) × (b64encode_str true bs ≡ ok (text, 4 * ((length bs + 2) / 3)))
      × (b64decode_str text ≡ decoded (bs ++ surplus bs) (returned_length (length bs)))
unfolding b64encode_str b64decode_str
b64decode_str-b64encode_str bs h = (
  encode_groups bs,
  ap (λ n. ok (encode_groups bs, n)) (length-encode_groups bs),
  decode_loop-encode_groups bs [] 0 0 0 0 h
      ∙ ap (λ n. decoded (bs ++ surplus bs) n) (outlen-surplus bs),
)
