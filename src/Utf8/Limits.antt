-- ===== src/Utf8/Limits.antt =====
-- What the cut texts of internal/codexitem and internal/turn are.
use mac_agent.Base.{
  ℕ, zero, suc, ◌+◌, ◌-◌, ◌^◌, ◌<◌, ◌≤◌, ◌≡◌, refl, sym, ap, ◌∙◌, Bool, true, false, List, [], ◌∷◌,
  ◌++◌, inl, inr, Bytes, Int64, length, length-append, length-take, take, All, arith, Bool-cases,
  leb, le64, ◌||◌, append_assoc,
}
use mac_agent.Utf8.{
  back_off, cut, suffix, first_end, truncate_utf8, append_live_delta, max_live_item_field_bytes,
}
use mac_agent.Utf8.Encoding.{encode_char, encode, IsCodePoint}
use mac_agent.Utf8.Cuts.{back_off-encode}

-- What a text within `limit` bytes may keep of the characters `cs`: all of them, or, with the flag
-- set, the first so many of them and "...", as long as the limit but for three bytes at most.
pub data Keeps (cs : List ℕ) (limit : ℕ) (out : Bytes) (truncated : Bool) : Type 0 where
  whole :
      length (encode cs) ≤ limit
      → out ≡ encode cs
      → truncated ≡ false
      → Keeps cs limit out truncated
  part :
      (k : ℕ)
      → k ≤ length cs
      → limit < length (encode cs)
      → out ≡ encode (take k cs) ++ suffix
      → truncated ≡ true
      → length out ≤ limit
      → limit ≤ length out + 3
      → Keeps cs limit out truncated

take-min : (k : ℕ) (cs : List ℕ) → (j : ℕ) × (j ≤ length cs) × (take k cs ≡ take j cs)
take-min zero cs = (0, omega arith, refl)
take-min (suc k) [] = (0, omega arith, refl)
take-min (suc k) (c ∷ cs) = let (j, le, e) = take-min k cs in (suc j, omega arith, ap (◌∷◌ c) e)

cut-Keeps :
    (cs : List ℕ) (limit : ℕ)
    → All IsCodePoint cs
    → 3 ≤ limit
    → limit < length (encode cs)
    → Keeps cs limit (cut (encode cs) (limit - 3)) true
unfolding cut
cut-Keeps cs limit a low long =
    let value = encode cs in
    let n = limit - 3 in
    let (k, e, le, near) = back_off-encode cs n a (omega arith) in
    let (j, inside, same) = take-min k cs in
    let size : length (take (back_off value n) value ++ suffix) ≡ back_off value n + 3 = omega (
      arith,
      length-append (take (back_off value n) value) suffix,
      length-take (back_off value n) value,
    ) in
    part j inside long (ap (λ t. t ++ suffix) (e ∙ ap encode same)) refl (omega (arith, size))
      (omega (arith, size))

-- `truncateUTF8` of a text of characters, for a limit of at least 3 (every limit of the package is)
-- and sizes that fit an int: a text within the limit is returned whole, a longer one is cut between
-- two characters, to at most the limit with its "..." and at least three bytes less, and is flagged.
pub truncate_utf8-Keeps :
    (cs : List ℕ) (limit : Int64)
    → All IsCodePoint cs
    → 3 ≤ limit
    → limit < 2 ^ 63
    → length (encode cs) < 2 ^ 63
    → let (out, truncated) = truncate_utf8 (encode cs) limit in Keeps cs limit out truncated
unfolding truncate_utf8
truncate_utf8-Keeps cs limit a low high fits = elim (Bool-cases (leb size limit)) [
  | inl fit ↦
      let t : (le64 limit 0 || le64 size limit) ≡ true = ground arith in
      rw t (whole (ground arith) refl refl)
  | inr long ↦
      let t : (le64 limit 0 || le64 size limit) ≡ false = ground arith in
      let f : first_end limit ≡ limit - 3 = ground arith in
      rw (t, f) (cut-Keeps cs limit a low (ground arith))
]
  where
    size : ℕ
    size = length (encode cs)

encode-append : (cs ds : List ℕ) → encode (cs ++ ds) ≡ encode cs ++ encode ds
encode-append [] ds = refl
encode-append (c ∷ cs) ds =
    ap (◌++◌ (encode_char c)) (encode-append cs ds)
    ∙ sym (append_assoc (encode_char c) (encode cs) (encode ds))

All-append : (cs ds : List ℕ) → All IsCodePoint cs → All IsCodePoint ds → All IsCodePoint (cs ++ ds)
All-append [] ds a b = b
All-append (c ∷ cs) ds a b = (a.0, All-append cs ds a.1 b)

take-append_le : (k : ℕ) (cs ds : List ℕ) → k ≤ length cs → take k (cs ++ ds) ≡ take k cs
take-append_le zero cs ds h = refl
take-append_le (suc k) [] ds h = absurd (omega arith)
take-append_le (suc k) (c ∷ cs) ds h = ap (◌∷◌ c) (take-append_le k cs ds (omega arith))

-- `appendLiveDelta` adds a delta to a text that holds, within 24 KiB, what it may keep of the
-- characters so far: the result holds, within 24 KiB, what it may keep of these characters and those
-- of the delta. So a text that fits stays whole, one that outgrows the limit is cut between two
-- characters and is flagged, and a flagged one stays as it is.
pub append_live_delta-Keeps :
    (cs ds : List ℕ) (text : Bytes) (truncated : Bool)
    → All IsCodePoint cs
    → All IsCodePoint ds
    → Keeps cs max_live_item_field_bytes text truncated
    → let (text', truncated') = append_live_delta text (encode ds) truncated in
      Keeps (cs ++ ds) max_live_item_field_bytes text' truncated'
unfolding append_live_delta
append_live_delta-Keeps cs ds text truncated a b (whole fit e f) =
    elim (Bool-cases (leb (length (encode (cs ++ ds))) max_live_item_field_bytes)) [
      | inl fits ↦ rw (f, e, ← encode-append cs ds, fits) (whole (ground arith) refl refl)
      | inr longer ↦
          rw (f, e, ← encode-append cs ds, longer)
            (cut-Keeps (cs ++ ds) max_live_item_field_bytes (All-append cs ds a b) (omega arith)
              (ground arith))
    ]
append_live_delta-Keeps cs ds text truncated a b (part k inside long e f upper lower) = rw f (
    part k (omega (arith, length-append cs ds))
      (omega (arith, ap length (encode-append cs ds), length-append (encode cs) (encode ds)))
      (e ∙ ap (λ t. encode t ++ suffix) (sym (take-append_le k cs ds inside))) refl upper lower)
