-- ===== src/Protocol/Ids.antt =====
-- internal/protocol/message.go: `NewID`, a version 4 UUID in hexadecimal.
use Prim.Native.Nat.{bit_and, bit_or}
use mac_agent.Base.{
  each_under, each_under_lem, ◌≢◌, ℕ, ◌+◌, ◌-◌, ◌/◌, ◌%◌, ◌<◌, ◌*◌, ◌≡◌, refl, true, [], ◌∷◌, Bytes,
  get_or, set, length, length-set, get_or-set_self, get_or-set_ne, ap, sym, ◌∙◌, ltb, ◌==◌, ==_iff,
  if◌then◌else◌, arith,
}

-- The two masked bytes of the 16 random ones.
unfoldable pub mark_version : Bytes → Bytes
mark_version bytes =
    let versioned = set bytes 6 (bit_or (bit_and (get_or bytes 6 0) 0x0f) 0x40) in
    set versioned 8 (bit_or (bit_and (get_or versioned 8 0) 0x3f) 0x80)

-- `hex.EncodeToString`
unfoldable pub hex_digit : ℕ → ℕ
hex_digit d = if ltb d 10 then b'0' + d else b'a' + (d - 10)

unfoldable pub hex : Bytes → Bytes
unfolding hex_digit
hex [] = []
hex (b ∷ bs) = hex_digit (b / 16) ∷ hex_digit (b % 16) ∷ hex bs

-- `random` is what `rand.Read` put into the array.
unfoldable pub new_id : Bytes → Bytes
unfolding mark_version hex
new_id random = hex (mark_version random)

-- The two marks at a byte: 0100xxxx and 10xxxxxx.
versions : each_under (λ b. bit_or (bit_and b 0x0f) 0x40 == b % 16 + 64) 256 ≡ true
unfolding each_under
versions = refl

variants : each_under (λ b. bit_or (bit_and b 0x3f) 0x80 == b % 64 + 128) 256 ≡ true
unfolding each_under
variants = refl

versions_at : (b : ℕ) → b < 256 → bit_or (bit_and b 0x0f) 0x40 ≡ b % 16 + 64
versions_at b h = (==_iff _ _).0 (each_under_lem _ 256 b h versions)

variants_at : (b : ℕ) → b < 256 → bit_or (bit_and b 0x3f) 0x80 ≡ b % 64 + 128
variants_at b h = (==_iff _ _).0 (each_under_lem _ 256 b h variants)

length-hex : (bytes : Bytes) → length (hex bytes) ≡ 2 * length bytes
unfolding hex
length-hex [] = omega arith
length-hex (b ∷ bytes) = omega (arith, length-hex bytes)

module _ (random : Bytes) where
  abbrev version_byte : ℕ
  version_byte = bit_or (bit_and (get_or random 6 0) 0x0f) 0x40

  abbrev versioned : Bytes
  versioned = set random 6 version_byte

  length-mark_version : length (mark_version random) ≡ length random
  unfolding mark_version
  length-mark_version = length-set versioned 8 _ ∙ length-set random 6 _

  mark_version-other :
      (i : ℕ) → i ≢ 6 → i ≢ 8 → get_or (mark_version random) i 0 ≡ get_or random i 0
  unfolding mark_version
  mark_version-other i h6 h8 =
      get_or-set_ne versioned 8 i _ 0 (λ e. h8 (sym e))
      ∙ get_or-set_ne random 6 i _ 0 (λ e. h6 (sym e))

  mark_version-6 :
      8 < length random
      → get_or random 6 0 < 256
      → get_or (mark_version random) 6 0 ≡ get_or random 6 0 % 16 + 64
  unfolding mark_version
  mark_version-6 n h =
      get_or-set_ne versioned 8 6 _ 0 (omega arith)
      ∙ get_or-set_self random 6 _ 0 (omega arith)
      ∙ versions_at _ h

  mark_version-8 :
      8 < length random
      → get_or random 8 0 < 256
      → get_or (mark_version random) 8 0 ≡ get_or random 8 0 % 64 + 128
  unfolding mark_version
  mark_version-8 n h =
      get_or-set_self versioned 8 _ 0 (omega (arith, length-set random 6 version_byte))
      ∙ ap (λ b. bit_or (bit_and b 0x3f) 0x80)
          (get_or-set_ne random 6 8 version_byte 0 (omega arith))
      ∙ variants_at _ h

-- From 16 random bytes `NewID` makes the 32 digits of a version 4 UUID: the version nibble is 4,
-- the top bits of byte 8 are 10, and the rest of these bytes and every other byte stay random.
pub new_id-IsVersion4 :
    (random : Bytes)
    → length random ≡ 16
    → get_or random 6 0 < 256
    → get_or random 8 0 < 256
    → (new_id random ≡ hex (mark_version random))
      × (length (new_id random) ≡ 32)
      × (get_or (mark_version random) 6 0 ≡ get_or random 6 0 % 16 + 64)
      × (get_or (mark_version random) 8 0 ≡ get_or random 8 0 % 64 + 128)
      × ((i : ℕ) → i ≢ 6 → i ≢ 8 → get_or (mark_version random) i 0 ≡ get_or random i 0)
new_id-IsVersion4 random n h6 h8 = (
  unfold new_id in refl,
  unfold new_id in (omega (arith, length-hex (mark_version random), length-mark_version random)),
  mark_version-6 random (omega arith) h6,
  mark_version-8 random (omega arith) h8,
  mark_version-other random,
)
