-- ===== src/B64/Bounds.antt =====
-- How much the decoder and the encoder write.
use hcfs.Base.{
  ℕ, ◌+◌, ◌*◌, ◌/◌, ◌%◌, ◌≤◌, ◌<◌, zero, suc, ◌≡◌, refl, List, [], ◌∷◌, inl, inr, ◌==◌, arith,
  length, length-append, Option-cases, Bool-cases, ap, ==_iff,
}
use hcfs.B64.{
  decode_table, Decoder, byte_0, byte_1, start, store, flush, take_char, finish, decode_loop,
  b64decode_str, Decoding, decoded, failed, encode_groups,
}

-- Each group of three bytes, the last one filled up, becomes four characters.
pub length-encode_groups : (bs : List ℕ) → length (encode_groups bs) ≡ 4 * ((length bs + 2) / 3)
unfolding encode_groups
length-encode_groups [] = refl
length-encode_groups (b0 ∷ []) = refl
length-encode_groups (b0 ∷ b1 ∷ []) = refl
length-encode_groups (b0 ∷ b1 ∷ b2 ∷ bs) = omega (arith, length-encode_groups bs)

-- What the decoder has written and holds, against the `n` characters it has read.
record Within (n : ℕ) (d : Decoder) : Type 0 where
  few : d.group_count < 4
  paid : 4 * length d.output + 3 * d.group_count ≤ 3 * n

store-group_count : (g v : ℕ) (d : Decoder) → (store g v d).group_count ≡ g + 1
store-group_count zero v d = refl
store-group_count (suc zero) v d = refl
store-group_count (suc (suc zero)) v d = refl
store-group_count (suc (suc (suc n))) v d = omega arith

store-output : (g v : ℕ) (d : Decoder) → (store g v d).output ≡ d.output
store-output zero v d = refl
store-output (suc zero) v d = refl
store-output (suc (suc zero)) v d = refl
store-output (suc (suc (suc n))) v d = refl

flush-Within :
    (n : ℕ) (d : Decoder)
    → d.group_count ≤ 4
    → 4 * length d.output + 3 * d.group_count ≤ 3 * n
    → Within n (flush d)
flush-Within n d few paid = elim (Bool-cases (d.group_count == 4)) [
  | inl e ↦ rw e (record {
    few = omega arith;
    paid = more n d.group_count _ _ (length-append d.output _) ((==_iff d.group_count 4).0 e) paid;
  })
  | inr e ↦ rw e (record { few = ground arith; paid = paid })
]
  where
    more : (n g l k : ℕ) → k ≡ l + 3 → g ≡ 4 → 4 * l + 3 * g ≤ 3 * n → 4 * k + 3 * 0 ≤ 3 * n
    more n g l k e four paid = omega arith

take_char-Within : (n v : ℕ) (d : Decoder) → Within n d → Within (n + 1) (take_char v d)
unfolding take_char
take_char-Within n v d w = elim (Bool-cases (v == 64)) [
  | inl e ↦ rw e (record { few = w.few; paid = omega (arith, w.paid) })
  | inr e ↦ rw e (
      flush-Within (n + 1) (store d.group_count v d)
        (omega (arith, w.few, store-group_count d.group_count v d))
        (one_more n d.group_count _ _ _ (store-group_count d.group_count v d)
          (ap length (store-output d.group_count v d)) w.paid))
]
  where
    one_more :
        (n g l g' l' : ℕ)
        → g' ≡ g + 1
        → l' ≡ l
        → 4 * l + 3 * g ≤ 3 * n
        → 4 * l' + 3 * g' ≤ 3 * (n + 1)
    one_more n g l g' l' e e' h = omega arith

-- The number of bytes stored, whatever the result.
abbrev pub written : Decoding → ℕ
written (decoded out n) = length out
written (failed f out) = length out

finish-written :
    (g n : ℕ) (d : Decoder) → g ≡ d.group_count → Within n d → 4 * written (finish g d) ≤ 3 * n + 3
unfolding finish
finish-written zero n d e w = omega (arith, w.paid)
finish-written (suc zero) n d e w = omega (arith, w.paid)
finish-written (suc (suc zero)) n d e w =
    omega (arith, w.paid, length-append d.output (byte_0 d ∷ (d.buf1 * 16) % 256 ∷ []))
finish-written (suc (suc (suc zero))) n d e w =
    omega (arith, w.paid, length-append d.output (byte_0 d ∷ byte_1 d ∷ (d.buf2 * 64) % 256 ∷ []))
finish-written (suc (suc (suc (suc g)))) n d e w = omega (arith, w.paid)

decode_loop-written :
    (cs : List ℕ) (n : ℕ) (d : Decoder)
    → Within n d
    → 4 * written (decode_loop cs d) ≤ 3 * (n + length cs) + 3
unfolding decode_loop
decode_loop-written [] n d w = omega (arith, finish-written d.group_count n d refl w)
decode_loop-written (c ∷ cs) n d w = elim (Option-cases (decode_table c)) [
  | inl e ↦ rw (decode_loop, e) (omega (arith, w.paid))
  | inr (v, e) ↦
      rw (decode_loop, e)
        (omega (arith, decode_loop-written cs (n + 1) (take_char v d) (take_char-Within n v d w)))
]

-- Whatever the input, and whether the decoder refuses it or not, it has stored at most three bytes for
-- each four characters of it, and three more.
pub b64decode_str-written :
    (input : List ℕ) → 4 * written (b64decode_str input) ≤ 3 * length input + 3
unfolding b64decode_str
b64decode_str-written input =
    omega
      (arith, decode_loop-written input 0 start (record { few = omega arith; paid = omega arith }))
