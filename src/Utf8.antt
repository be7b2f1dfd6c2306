-- ===== src/Utf8.antt =====
-- The cutting of texts: `truncateUTF8` of internal/codexitem/normalize.go and `appendLiveDelta` of
-- internal/turn/controller.go.
pub mod Encoding
pub mod Cuts
pub mod Limits
use Prim.Native.Nat.{bit_and}
use mac_agent.Base.{
  ℕ, zero, suc, ◌-◌, ◌*◌, Bool, true, false, ◌++◌, Bytes, Int64, codes, length, get_or, take, ltb,
  leb, le64, sub64, lt64, ◌==◌, ◌&&◌, ◌||◌, if◌then◌else◌,
}

-- `value[end] & 0xc0 == 0x80`
unfoldable pub is_continuation : ℕ → Bool
is_continuation b = bit_and b 0xc0 == 0x80

abbrev pub suffix : Bytes
suffix = codes "..."

-- `for end > 0 && end < len(value) && (value[end]&0xc0) == 0x80 { end-- }`
unfoldable pub back_off : Bytes → ℕ → ℕ
back_off value zero = zero
back_off value (suc end) =
    let rest = back_off value end in
    if ltb (suc end) (length value) && is_continuation (get_or value (suc end) 0)
    then rest
    else suc end

-- `value[:end] + suffix`
unfoldable pub cut : Bytes → ℕ → Bytes
unfolding back_off
cut value end = take (back_off value end) value ++ suffix

-- Where the search for an end starts: `limit - len(suffix)`, at least 0.
abbrev pub first_end : Int64 → ℕ
first_end limit = if lt64 (sub64 limit (length suffix)) 0 then 0 else sub64 limit (length suffix)

-- `truncateUTF8` of internal/codexitem: a limit of 0 or less is none.
unfoldable pub truncate_utf8 : Bytes → Int64 → Bytes × Bool
truncate_utf8 value limit =
    if le64 limit 0 || le64 (length value) limit
    then (value, false)
    else (cut value (first_end limit), true)

abbrev pub max_live_item_field_bytes : ℕ
max_live_item_field_bytes = 24 * 1024

-- `appendLiveDelta` of internal/turn.
unfoldable pub append_live_delta : Bytes → Bytes → Bool → Bytes × Bool
append_live_delta current delta already_truncated =
    if already_truncated
    then (current, true)
    else let value = current ++ delta in
      if leb (length value) max_live_item_field_bytes
      then (value, false)
      else (cut value (max_live_item_field_bytes - length suffix), true)
