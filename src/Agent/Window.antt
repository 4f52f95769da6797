-- ===== src/Agent/Window.antt =====
-- The history behind the window of the loop detector (crates/attractor-agent/src/loop_detection.rs).
use pascals_discrete_attract.Base.{
  ℕ, zero, suc, ◌+◌, ◌-◌, ◌≤◌, Text, Bool, true, false, List, [], ◌∷◌, ◌++◌, append_assoc,
  append-nil, ◌≡◌, refl, sym, ap, ◌∙◌, arith, inl, inr, Bool-cases, length, drop, leb, ltb, eqb,
  length-append, length-drop, if◌then◌else◌,
}
use pascals_discrete_attract.Agent.{
  LoopDetector, new_detector, bounded, all_identical, check_signature,
}

abbrev no_calls : List Text
no_calls = []

drop-empty : (n : ℕ) → drop n no_calls ≡ no_calls
drop-empty zero = refl
drop-empty (suc n) = refl

less : (w n : ℕ) → ltb w (suc n) ≡ true → suc (n - w) ≡ suc n - w
less w n p = ground (arith, p)

none_left : (w n : ℕ) → ltb w (suc n) ≡ false → 0 ≡ suc n - w
none_left w n p = ground (arith, p)

-- What is kept of the calls are the last of them.
bounded-drop : (w : ℕ) (cs : List Text) → bounded w cs ≡ drop (length cs - w) cs
unfolding bounded
bounded-drop w [] = sym (drop-empty (0 - w))
bounded-drop w (c ∷ cs) = elim (Bool-cases (ltb w (length (c ∷ cs)))) [
  | inl p ↦ rw p (bounded-drop w cs ∙ ap (λ n. drop n (c ∷ cs)) (less w (length cs) p))
  | inr p ↦ rw p (ap (λ n. drop n (c ∷ cs)) (none_left w (length cs) p))
]

drop-append : (n : ℕ) (xs ys : List Text) → n ≤ length xs → drop n xs ++ ys ≡ drop n (xs ++ ys)
drop-append zero xs ys h = refl
drop-append (suc n) [] ys h = absurd (omega (arith, h))
drop-append (suc n) (x ∷ xs) ys h = drop-append n xs ys (omega (arith, h))

drop-drop : (m n : ℕ) (xs : List Text) → drop m (drop n xs) ≡ drop (m + n) xs
drop-drop m zero xs = ap (λ k. drop k xs) (omega arith)
drop-drop m (suc n) [] = drop-empty m ∙ sym (drop-empty (m + suc n))
drop-drop m (suc n) (x ∷ xs) = drop-drop m n xs ∙ ap (λ k. drop k (x ∷ xs)) (shift m n)
  where
    shift : (m n : ℕ) → suc (m + n) ≡ m + suc n
    shift m n = omega arith

-- The last `w` calls of a history.
last_calls : ℕ → List Text → List Text
last_calls w h = drop (length h - w) h

-- A new call moves the window over the history.
bounded-last_calls :
    (w : ℕ) (h : List Text) (c : Text)
    → bounded w (last_calls w h ++ c ∷ []) ≡ last_calls w (h ++ c ∷ [])
unfolding last_calls
bounded-last_calls w h c =
    let k = length h - w in
    let moved : drop k h ++ c ∷ [] ≡ drop k (h ++ c ∷ []) =
      drop-append k h (c ∷ []) (omega arith) in
    ap (bounded w) moved
    ∙ (bounded-drop w (drop k (h ++ c ∷ []))
        ∙ (drop-drop (length (drop k (h ++ c ∷ [])) - w) k (h ++ c ∷ [])
            ∙ ap (λ n. drop n (h ++ c ∷ []))
                (omega (arith, length-drop k (h ++ c ∷ []), length-append h (c ∷ [])))))

pub seen : ℕ → List Text → LoopDetector
seen w h = record { window_size = w; recent_calls = last_calls w h }

-- A loop: the window is full, and its calls are identical.
pub is_loop : ℕ → List Text → Bool
is_loop w h = if leb w (length h) then all_identical (last_calls w h) else false

full : (w : ℕ) (h : List Text) → leb w (length (last_calls w h)) ≡ leb w (length h)
unfolding last_calls
full w h = ground (arith, length-drop (length h - w) h)

check_signature-seen :
    (w : ℕ) (h : List Text) (c : Text)
    → 1 ≤ w
    → check_signature c (seen w h) ≡ (is_loop w (h ++ c ∷ []), seen w (h ++ c ∷ []))
unfolding check_signature seen is_loop
check_signature-seen w h c some_window =
    rw (positive w some_window, bounded-last_calls w h c, full w (h ++ c ∷ [])) refl
  where
    positive : (w : ℕ) → 1 ≤ w → eqb w 0 ≡ false
    positive w h = ground (arith, h)

-- A detector that has recorded the calls of a history.
pub record_all : List Text → LoopDetector → LoopDetector
record_all [] d = d
record_all (c ∷ cs) d = record_all cs (check_signature c d).1

record_all-seen : (w : ℕ) (h cs : List Text) → 1 ≤ w → record_all cs (seen w h) ≡ seen w (h ++ cs)
unfolding record_all
record_all-seen w h [] p = ap (seen w) (sym (append-nil h))
record_all-seen w h (c ∷ cs) p =
    ap (λ r. record_all cs r.1) (check_signature-seen w h c p)
    ∙ (record_all-seen w (h ++ c ∷ []) cs p ∙ ap (seen w) (append_assoc h (c ∷ []) cs))

new_detector-seen : (w : ℕ) → new_detector w ≡ seen w []
unfolding new_detector seen last_calls
new_detector-seen w =
    ap (λ cs. record { window_size = w; recent_calls = cs }) (sym (drop-empty (0 - w)))

-- With a window of at least one call: after any calls, a call is reported as a loop exactly when the
-- calls fill the window and the last ones, as many as it holds, are identical. Those are what the
-- detector then keeps.
pub check_signature_lem :
    (w : ℕ) (h : List Text) (c : Text)
    → 1 ≤ w
    → check_signature c (record_all h (new_detector w))
      ≡ (is_loop w (h ++ c ∷ []), seen w (h ++ c ∷ []))
check_signature_lem w h c p =
    rw (new_detector-seen w, record_all-seen w [] h p) (check_signature-seen w h c p)
