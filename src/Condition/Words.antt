-- ===== src/Condition/Words.antt =====
-- Texts without white space, quotes or `&`: what trimming, splitting and unquoting leave of them.
use pascals_discrete_attract.Base.{
  ℕ, ◌+◌, Text, Bool, true, false, not, ◌&&◌, [], ◌∷◌, ◌++◌, ◌≡◌, refl, ap, ◌∙◌, sym, arith, all,
  eqb, trim, trim_start, trim_end, is_whitespace, is_empty, length, take, drop, add_char, some,
  none, append-nil, append_assoc, length-append,
}
use pascals_discrete_attract.Condition.{
  is_quote, split_and, strip_quotes, scan, Operator, equal, not_equal,
}

-- A character that stands for itself everywhere in a condition.
unfoldable pub plain : ℕ → Bool
unfolding is_quote
plain c = not (is_whitespace c) && not (is_quote c) && not (eqb c b'&')

-- No operator begins at it either.
unfoldable pub key_plain : ℕ → Bool
key_plain c = plain c && not (eqb c b'=') && not (eqb c b'!')

abbrev pub blank : Text → Bool
blank s = all is_whitespace s

pub all-append : (p : ℕ → Bool) (s t : Text) → all p (s ++ t) ≡ (all p s && all p t)
all-append p [] t = refl
all-append p (c ∷ s) t = ground (arith, all-append p s t)

pub trim_start-blank : (s t : Text) → blank s ≡ true → trim_start (s ++ t) ≡ trim_start t
unfolding trim_start
trim_start-blank [] t h = refl
trim_start-blank (c ∷ s) t h = ground (arith, trim_start-blank s t)

pub trim_start-plain :
    (s t : Text) → is_empty s ≡ false → all plain s ≡ true → trim_start (s ++ t) ≡ s ++ t
unfolding trim_start plain
trim_start-plain [] t e h = cc
trim_start-plain (c ∷ s) t e h = ground arith

trim_end-blank : (s : Text) → blank s ≡ true → trim_end s ≡ []
unfolding trim_end
trim_end-blank [] h = refl
trim_end-blank (c ∷ s) h = ground (arith, trim_end-blank s)

-- Behind a plain text only white space is cut.
pub trim_end-plain : (s t : Text) → all plain s ≡ true → blank t ≡ true → trim_end (s ++ t) ≡ s
unfolding trim_end plain
trim_end-plain [] t h k = trim_end-blank t k
trim_end-plain (c ∷ s) t h k = ground (arith, trim_end-plain s t)

-- What ends in a text that stays whole stays whole.
pub trim_end-append :
    (s t : Text) → is_empty t ≡ false → trim_end t ≡ t → trim_end (s ++ t) ≡ s ++ t
unfolding trim_end
trim_end-append [] t e h = h
trim_end-append (c ∷ s) [] e h = cc
trim_end-append (c ∷ []) (d ∷ t) e h = rw h refl
trim_end-append (c ∷ b ∷ s) (d ∷ t) e h = rw (trim_end-append (b ∷ s) (d ∷ t) e h) refl

pub trim-padded :
    (before s after : Text)
    → blank before ≡ true
    → is_empty s ≡ false
    → all plain s ≡ true
    → blank after ≡ true
    → trim (before ++ (s ++ after)) ≡ s
unfolding trim
trim-padded before s after hb e h ha =
    rw (trim_start-blank before (s ++ after) hb, trim_start-plain s after e h)
      (trim_end-plain s after h ha)

-- No separator in a text with no `&`.
abbrev pub no_and : ℕ → Bool
no_and c = not (eqb c b'&')

pub split_and-whole : (s : Text) → all no_and s ≡ true → split_and s ≡ s ∷ []
unfolding split_and add_char
split_and-whole [] h = refl
split_and-whole (c ∷ []) h = refl
split_and-whole (c ∷ d ∷ s) h = ground (arith, split_and-whole (d ∷ s))

pub split_and-first :
    (s t : Text) → all no_and s ≡ true → split_and (s ++ (b'&' ∷ b'&' ∷ t)) ≡ s ∷ split_and t
unfolding split_and add_char
split_and-first [] t h = refl
split_and-first (c ∷ []) t h = ground (arith, split_and-first [] t)
split_and-first (c ∷ d ∷ s) t h = ground (arith, split_and-first (d ∷ s) t)

pub plain-no_and : (s : Text) → all plain s ≡ true → all no_and s ≡ true
unfolding plain
plain-no_and [] h = refl
plain-no_and (c ∷ s) h = ground (arith, plain-no_and s)

pub key_plain-plain : (s : Text) → all key_plain s ≡ true → all plain s ≡ true
unfolding key_plain
key_plain-plain [] h = refl
key_plain-plain (c ∷ s) h = ground (arith, key_plain-plain s)

pub strip_quotes-plain : (s : Text) → all plain s ≡ true → strip_quotes s ≡ s
unfolding strip_quotes plain
strip_quotes-plain [] h = refl
strip_quotes-plain (c ∷ []) h = refl
strip_quotes-plain (c ∷ d ∷ s) h = ground arith

-- The operators as they are written.
abbrev pub symbol : Operator → Text
symbol equal = b'=' ∷ []
symbol not_equal = b'!' ∷ b'=' ∷ []

-- The scan finds the operator behind a key.
pub scan-key :
    (key : Text) (op : Operator) (value : Text) (i : ℕ)
    → all key_plain key ≡ true
    → scan none (key ++ (symbol op ++ value)) i ≡ some (i + length key, op, length (symbol op))
unfolding scan key_plain plain
scan-key [] equal value i h = ground arith
scan-key [] not_equal value i h = ground arith
scan-key (c ∷ key) op value i h = ground (arith, scan-key key op value (i + 1))

pub take-append : (s t : Text) → take (length s) (s ++ t) ≡ s
take-append [] t = refl
take-append (c ∷ s) t = ap (λ u. c ∷ u) (take-append s t)

pub drop-append : (s t : Text) → drop (length s) (s ++ t) ≡ t
drop-append [] t = refl
drop-append (c ∷ s) t = drop-append s t

pub underscore-key_plain : key_plain b'_' ≡ true
unfolding key_plain plain is_whitespace
underscore-key_plain = refl

pub dot-key_plain : key_plain b'.' ≡ true
unfolding key_plain plain is_whitespace
dot-key_plain = refl

pub trim-plain : (s : Text) → is_empty s ≡ false → all plain s ≡ true → trim s ≡ s
trim-plain s e h = ap trim (sym (append-nil s)) ∙ trim-padded [] s [] refl e h refl

pub symbol-plain : (op : Operator) → all plain (symbol op) ≡ true
unfolding plain is_whitespace
symbol-plain equal = refl
symbol-plain not_equal = refl

pub is_empty-append : (s t : Text) → is_empty s ≡ false → is_empty (s ++ t) ≡ false
is_empty-append [] t h = cc
is_empty-append (c ∷ s) t h = refl

pub take_key : (key sign value : Text) → take (length key) (key ++ (sign ++ value)) ≡ key
take_key key sign value = take-append key (sign ++ value)

pub drop_key :
    (key sign value : Text) → drop (length key + length sign) (key ++ (sign ++ value)) ≡ value
drop_key key sign value =
    rw (← length-append key sign, ← append_assoc key sign value) (drop-append (key ++ sign) value)
