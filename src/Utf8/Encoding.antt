-- ===== src/Utf8/Encoding.antt =====
-- UTF-8 as RFC 3629 defines it, independent of the code that cuts texts.
use mac_agent.Base.{
  ℕ, ◌+◌, ◌/◌, ◌%◌, ◌<◌, ◌≤◌, ◌≡◌, refl, Bool, true, false, List, [], ◌∷◌, ◌++◌, Bytes, length, All,
  ltb, leb, ◌&&◌, not, sym, if◌then◌else◌, each_under, each_under_lem, arith,
}
use mathlib.Core.Bool.{xor}
use mac_agent.Utf8.{is_continuation}

-- The first byte of a code point's encoding.
unfoldable pub lead : ℕ → ℕ
lead c =
    if ltb c 0x80
    then c
    else if ltb c 0x800
    then 192 + c / 64
    else if ltb c 0x10000
    then 224 + c / 4096
    else 240 + c / 262144

-- Its continuation bytes.
unfoldable pub tail_bytes : ℕ → Bytes
tail_bytes c =
    if ltb c 0x80
    then []
    else if ltb c 0x800
    then (128 + c % 64) ∷ []
    else if ltb c 0x10000
    then (128 + c / 64 % 64) ∷ (128 + c % 64) ∷ []
    else (128 + c / 4096 % 64) ∷ (128 + c / 64 % 64) ∷ (128 + c % 64) ∷ []

abbrev pub encode_char : ℕ → Bytes
encode_char c = lead c ∷ tail_bytes c

-- The bytes of a text.
abbrev pub encode : List ℕ → Bytes
encode [] = []
encode (c ∷ cs) = encode_char c ++ encode cs

abbrev pub IsCodePoint : ℕ → Type 0
IsCodePoint c = c < 0x110000

-- The mask picks out the bytes from 128 to 191.
continuation_table :
    each_under (λ b. xor (is_continuation b) (not (leb 128 b && ltb b 192))) 256 ≡ true
unfolding each_under is_continuation xor
continuation_table = refl

is_continuation_at : (b : ℕ) → b < 256 → is_continuation b ≡ (leb 128 b && ltb b 192)
unfolding xor
is_continuation_at b h =
    equal (is_continuation b) (leb 128 b && ltb b 192) (each_under_lem _ 256 b h continuation_table)
  where
    equal : (x y : Bool) → xor x (not y) ≡ true → x ≡ y
    equal true true h = refl
    equal true false h = sym h
    equal false true h = h
    equal false false h = refl

-- A first byte is no continuation byte.
pub lead-not_continuation : (c : ℕ) → IsCodePoint c → is_continuation (lead c) ≡ false
unfolding lead
lead-not_continuation c h = ground (
  arith,
  is_continuation_at c,
  is_continuation_at (192 + c / 64),
  is_continuation_at (224 + c / 4096),
  is_continuation_at (240 + c / 262144),
)

continues : (c : ℕ) → is_continuation (128 + c % 64) ≡ true
continues c = ground (arith, is_continuation_at (128 + c % 64))

-- The others are, and there are at most three.
pub tail_bytes-continuation :
    (c : ℕ) → All (λ b. is_continuation b ≡ true) (tail_bytes c) × (length (tail_bytes c) ≤ 3)
unfolding tail_bytes
tail_bytes-continuation c = ground (arith, continues c, continues (c / 64), continues (c / 4096))
