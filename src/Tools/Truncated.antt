-- ===== src/Tools/Truncated.antt =====
-- The length of what is left of an output (crates/attractor-tools/src/truncation.rs).
use pascals_discrete_attract.Base.{
  ℕ, ◌+◌, ◌-◌, ◌≤◌, ◌<◌, Text, true, false, [], ◌∷◌, ◌++◌, ◌≡◌, refl, arith, inl, inr, Bool-cases,
  length, take, drop, leb, length-append, length-drop, length-take,
}
use pascals_discrete_attract.Tools.{
  TruncationMode, head_tail, tail, utf8_width, byte_length, marker, head_chars, cut,
  truncate_output,
}

utf8_width-bound : (c : ℕ) → 1 ≤ utf8_width c
unfolding utf8_width
utf8_width-bound c = ground arith

length-bytes : (s : Text) → length s ≤ byte_length s
unfolding byte_length
length-bytes [] = omega arith
length-bytes (c ∷ s) = omega (arith, utf8_width-bound c, length-bytes s)

head_chars-bound : (n : ℕ) → head_chars n ≤ n
unfolding head_chars
head_chars-bound n = omega arith

length-cut :
    (output : Text) (n : ℕ) (mode : TruncationMode)
    → n < length output
    → length (cut output n mode) ≡ n + length (marker mode (length output - n))
unfolding cut
length-cut output n head_tail h = omega (
  arith,
  h,
  head_chars-bound n,
  length-append (take (head_chars n) output)
      (marker head_tail (length output - n) ++ drop (length output - (n - head_chars n)) output),
  length-append (marker head_tail (length output - n))
      (drop (length output - (n - head_chars n)) output),
  length-take (head_chars n) output (omega (arith, h, head_chars-bound n)),
  length-drop (length output - (n - head_chars n)) output,
)
length-cut output n tail h = omega (
  arith,
  h,
  length-append (marker tail (length output - n)) (drop (length output - n) output),
  length-drop (length output - n) output,
)

-- An output of at most the limit of characters is left as it is. Of a longer one as many characters
-- as the limit are kept, and the marker comes on top of them.
pub truncate_output_lem :
    (output : Text) (n : ℕ) (mode : TruncationMode)
    → (length output ≤ n → truncate_output output n mode ≡ output)
      × (n < length output
          → length (truncate_output output n mode) ≡ n + length (marker mode (length output - n)))
unfolding truncate_output
truncate_output_lem output n mode = (
  λ h. elim (Bool-cases (leb (byte_length output) n)) [
    | inl p ↦ rw p refl
    | inr p ↦ rw (p, short h) refl
  ],
  λ h. rw (long_bytes h, long h) (length-cut output n mode h),
)
  where
    short : length output ≤ n → leb (length output) n ≡ true
    short h = ground (arith, h)

    long : n < length output → leb (length output) n ≡ false
    long h = ground (arith, h)

    long_bytes : n < length output → leb (byte_length output) n ≡ false
    long_bytes h = ground (arith, h, length-bytes output)
