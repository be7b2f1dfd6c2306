-- ===== src/Utf8/Cuts.antt =====
-- A cut text is whole characters and the suffix, within its limit.
use native.Mathlib.Nat.{suc-add, zero-add}
use mac_agent.Base.{
  ℕ, zero, suc, ◌+◌, ◌-◌, ◌<◌, ◌≤◌, ◌≡◌, refl, sym, ap, ◌∙◌, true, false, List, [], ◌∷◌, ◌++◌, ◌⊎◌,
  inl, inr, Bytes, length, length-append, get_or, take, All, ltb, ◌==◌, arith, Bool-cases,
}
use mac_agent.Utf8.{is_continuation, back_off}
use mac_agent.Utf8.Encoding.{
  lead, tail_bytes, encode_char, encode, IsCodePoint, lead-not_continuation,
  tail_bytes-continuation,
}

-- Where the loop stops: not past its start, at 0, at the end of the text, or before a byte that is
-- no continuation byte.
abbrev pub IsStop : Bytes → ℕ → Type 0
IsStop value m = (m ≡ 0) ⊎ ((length value ≤ m) ⊎ (is_continuation (get_or value m 0) ≡ false))

back_off-stops : (value : Bytes) (n : ℕ) → (back_off value n ≤ n) × IsStop value (back_off value n)
unfolding back_off
back_off-stops value zero = (omega arith, inl refl)
back_off-stops value (suc n) = ground (arith, back_off-stops value n)

-- It passes no position before which a character may end.
back_off_greatest :
    (value : Bytes) (n j : ℕ)
    → j ≤ n
    → is_continuation (get_or value j 0) ≡ false
    → j ≤ back_off value n
unfolding back_off
back_off_greatest value zero j h c = h
back_off_greatest value (suc n) j h c = elim (Bool-cases (j == suc n)) [
  | inl e ↦ let p : j ≡ suc n = ground arith in let d = rw p at c in ground arith
  | inr e ↦ ground (arith, back_off_greatest value n j)
]

get_or-append_right : (xs ys : Bytes) (i : ℕ) → get_or (xs ++ ys) (length xs + i) 0 ≡ get_or ys i 0
get_or-append_right [] ys i = ap (λ k. get_or ys k 0) (omega arith)
get_or-append_right (x ∷ xs) ys i = rw suc-add (get_or-append_right xs ys i)

get_or-append_left : (xs ys : Bytes) (i : ℕ) → i < length xs → get_or (xs ++ ys) i 0 ≡ get_or xs i 0
get_or-append_left [] ys i h = absurd (omega arith)
get_or-append_left (x ∷ xs) ys zero h = refl
get_or-append_left (x ∷ xs) ys (suc i) h = get_or-append_left xs ys i (omega arith)

take-append_right : (xs ys : Bytes) (i : ℕ) → take (length xs + i) (xs ++ ys) ≡ xs ++ take i ys
take-append_right [] ys i = rw zero-add
take-append_right (x ∷ xs) ys i = rw suc-add (ap (◌∷◌ x) (take-append_right xs ys i))

All-get_or :
    (xs : Bytes) (i : ℕ)
    → All (λ b. is_continuation b ≡ true) xs
    → i < length xs
    → is_continuation (get_or xs i 0) ≡ true
All-get_or [] i a h = absurd (omega arith)
All-get_or (x ∷ xs) zero a h = a.0
All-get_or (x ∷ xs) (suc i) a h = All-get_or xs i a.1 (omega arith)

-- A number below the first part's length, or that length and a rest.
split_number : (n m : ℕ) → (n < m) ⊎ ((i : ℕ) × (n ≡ m + i))
split_number n m = elim (Bool-cases (ltb n m)) [
  | inl h ↦ inl (ground arith)
  | inr h ↦ inr (n - m, ground arith)
]

-- Inside the encoding of a code point every byte but the first is a continuation byte.
inside :
    (c : ℕ) (rest : Bytes) (m : ℕ)
    → suc m < length (encode_char c)
    → is_continuation (get_or (encode_char c ++ rest) (suc m) 0) ≡ true
inside c rest m h =
    ap is_continuation (get_or-append_left (tail_bytes c) rest m (omega arith))
    ∙ All-get_or (tail_bytes c) m (tail_bytes-continuation c).0 (omega arith)

IsStop-after :
    (c : ℕ) (rest : Bytes) (m i : ℕ)
    → m ≡ length (tail_bytes c) + i
    → IsStop (encode_char c ++ rest) (suc m)
    → IsStop rest i
IsStop-after c rest m i p (inl zero_end) = absurd (omega arith)
IsStop-after c rest m i p (inr (inl at_end)) =
    inr (inl (omega (arith, length-append (tail_bytes c) rest)))
IsStop-after c rest m i p (inr (inr boundary)) =
    inr (
      inr (ap is_continuation (sym (get_or-append_right (tail_bytes c) rest i)) ∙ rw p at boundary))

-- A stop cuts a text between two characters.
stop_between_characters :
    (cs : List ℕ) (m : ℕ)
    → m ≤ length (encode cs)
    → IsStop (encode cs) m
    → (k : ℕ) × (take m (encode cs) ≡ encode (take k cs))
stop_between_characters [] zero h s = (0, refl)
stop_between_characters [] (suc m) h s = absurd (omega arith)
stop_between_characters (c ∷ cs) zero h s = (0, refl)
stop_between_characters (c ∷ cs) (suc m) h s =
    elim (split_number (suc m) (length (encode_char c))) [
      | inl before ↦
          absurd (
            ground
              (arith, inside c (encode cs) m before, length-append (encode_char c) (encode cs)))
      | inr (i, e) ↦
          let p : m ≡ length (tail_bytes c) + i = omega arith in
          let s' = IsStop-after c (encode cs) m i p s in
          let (k, q) =
            stop_between_characters cs i (omega (arith, length-append (tail_bytes c) (encode cs)))
              s' in
          (
            suc k,
            ap (λ n. lead c ∷ take n (tail_bytes c ++ encode cs)) p
                ∙ ap (◌∷◌ (lead c))
                    (take-append_right (tail_bytes c) (encode cs) i ∙ ap (◌++◌ (tail_bytes c)) q),
          )
    ]

-- In every text of characters there is an end of a character at most three bytes back.
end_near :
    (cs : List ℕ) (n : ℕ)
    → All IsCodePoint cs
    → n < length (encode cs)
    → (j : ℕ) × (j ≤ n) × (n ≤ j + 3) × (is_continuation (get_or (encode cs) j 0) ≡ false)
end_near [] n a h = absurd (omega arith)
end_near (c ∷ cs) n a h = elim (split_number n (length (encode_char c))) [
  | inl before ↦
      (0, omega arith, omega (arith, (tail_bytes-continuation c).1), lead-not_continuation c a.0)
  | inr (i, e) ↦
      let (j, low, high, boundary) =
        end_near cs i a.1 (omega (arith, length-append (encode_char c) (encode cs))) in
      (
        length (encode_char c) + j,
        omega arith,
        omega arith,
        ap is_continuation (get_or-append_right (encode_char c) (encode cs) j) ∙ boundary,
      )
]

-- The longest texts that `end` does not cut through: what the loop keeps of a text of characters is
-- the first so many of them, and misses `end` by three bytes at most.
pub back_off-encode :
    (cs : List ℕ) (n : ℕ)
    → All IsCodePoint cs
    → n < length (encode cs)
    → (k : ℕ) × (take (back_off (encode cs) n) (encode cs) ≡ encode (take k cs))
      × (back_off (encode cs) n ≤ n)
      × (n ≤ back_off (encode cs) n + 3)
back_off-encode cs n a h =
    let (le, stop) = back_off-stops (encode cs) n in
    let (j, low, high, boundary) = end_near cs n a h in
    let (k, e) = stop_between_characters cs (back_off (encode cs) n) (omega arith) stop in
    (k, e, le, omega (arith, back_off_greatest (encode cs) n j low boundary))
