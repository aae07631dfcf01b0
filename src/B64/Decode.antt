-- ===== src/B64/Decode.antt =====
-- Decoding what stands for digits: one character, and a group of four.
use hcfs.Base.{
  ℕ, ◌+◌, ◌*◌, ◌/◌, ◌%◌, ◌<◌, zero, suc, ◌≡◌, refl, Bool, true, false, List, [], ◌∷◌, ◌++◌, Option,
  none, some, ◌==◌, arith, ==_iff, ◌∙◌, ap, if◌then◌else◌, Bool-cases, inl, inr, sym, subst,
}
use hcfs.B64.{base64_codes, decode_table, Decoder, store, flush, take_char, decode_loop}

decodes_to : ℕ → Option ℕ → Bool
decodes_to v none = false
decodes_to v (some w) = w == v

decodes_to-some : (v : ℕ) (o : Option ℕ) → decodes_to v o ≡ true → o ≡ some v
unfolding decodes_to
decodes_to-some v none h = cc
decodes_to-some v (some w) h = ap some ((==_iff w v).0 h)

-- Whether the table decodes the first `count` codes.
table_fits : (count : ℕ) → Bool
table_fits zero = true
table_fits (suc k) = if decodes_to k (decode_table (base64_codes k)) then table_fits k else false

split_test : (b c : Bool) → (if b then c else false) ≡ true → (b ≡ true) × (c ≡ true)
split_test b c h = (ground arith, ground arith)

table_fits_each :
    (count i : ℕ)
    → i < count
    → table_fits count ≡ true
    → decodes_to i (decode_table (base64_codes i)) ≡ true
unfolding table_fits
table_fits_each zero i lt fits = absurd (omega arith)
table_fits_each (suc k) i lt fits = elim (Bool-cases (i == k)) [
  | inl last ↦
      subst (λ v. decodes_to v (decode_table (base64_codes v)) ≡ true) (sym ((==_iff i k).0 last))
        (split_test _ _ fits).0
  | inr before ↦ table_fits_each k i (ground arith) (split_test _ _ fits).1
]

all_codes_fit : table_fits 64 ≡ true
unfolding table_fits decodes_to decode_table base64_codes
all_codes_fit = refl

pub decode_table-base64_codes : (i : ℕ) → i < 64 → decode_table (base64_codes i) ≡ some i
decode_table-base64_codes i lt = decodes_to-some i _ (table_fits_each 64 i lt all_codes_fit)

pub decode_digit :
    (v : ℕ) (cs : List ℕ) (d : Decoder)
    → v < 64
    → decode_loop (base64_codes v ∷ cs) d ≡ decode_loop cs (flush (store d.group_count v d))
unfolding decode_loop take_char
decode_digit v cs d lt = rw (decode_loop, decode_table-base64_codes v lt) (rw not_64)
  where
    not_64 : (v == 64) ≡ false
    not_64 = ground arith

-- A decoder at the start of a group.
abbrev pub between : (w0 w1 w2 w3 : ℕ) → List ℕ → Decoder
between w0 w1 w2 w3 out = record {
  buf0 = w0;
  buf1 = w1;
  buf2 = w2;
  buf3 = w3;
  group_count = 0;
  output = out;
}

module _ (v0 v1 v2 v3 : ℕ) (lt0 : v0 < 64) (lt1 : v1 < 64) (cs out : List ℕ) (w0 w1 w2 w3 : ℕ) where
  pub decode_two :
      decode_loop (base64_codes v0 ∷ base64_codes v1 ∷ cs) (between w0 w1 w2 w3 out)
      ≡ decode_loop cs (record (between v0 v1 w2 w3 out) { group_count = 2 })
  decode_two = decode_digit v0 _ _ lt0 ∙ decode_digit v1 _ _ lt1

  pub decode_three :
      v2 < 64
      → decode_loop
          (base64_codes v0 ∷ base64_codes v1 ∷ base64_codes v2 ∷ cs)
          (between w0 w1 w2 w3 out)
        ≡ decode_loop cs (record (between v0 v1 v2 w3 out) { group_count = 3 })
  decode_three lt2 = decode_digit v0 _ _ lt0 ∙ decode_digit v1 _ _ lt1 ∙ decode_digit v2 _ _ lt2

  pub decode_four :
      v2 < 64
      → v3 < 64
      → decode_loop
          (base64_codes v0 ∷ base64_codes v1 ∷ base64_codes v2 ∷ base64_codes v3 ∷ cs)
          (between w0 w1 w2 w3 out)
        ≡ decode_loop cs (
            between v0 v1 v2 v3 (
              out
              ++ (((v0 * 4 + v1 / 16 % 4) % 256)
                  ∷ ((v1 * 16 + v2 / 4) % 256)
                  ∷ ((v2 * 64 + v3) % 256)
                  ∷ [])))
  decode_four lt2 lt3 =
      decode_digit v0 _ _ lt0
      ∙ decode_digit v1 _ _ lt1
      ∙ decode_digit v2 _ _ lt2
      ∙ decode_digit v3 _ _ lt3
