-- ===== src/Tests/Texts.antt =====
-- The cutting of texts on samples.
use mac_agent.Base.{◌++◌, ◌≡◌, refl, true, false, List, ℕ, [], ◌∷◌, codes, arith}
use mac_agent.Utf8.{
  is_continuation, cut, truncate_utf8, append_live_delta, max_live_item_field_bytes,
}
use mac_agent.Utf8.Encoding.{lead, tail_bytes, encode}
use mac_agent.Utf8.Limits.{Keeps, whole, truncate_utf8-Keeps, append_live_delta-Keeps}

-- "aé€", and the cut that would fall into the last character
abbrev points : List ℕ
points = 97 ∷ 233 ∷ 8364 ∷ 98 ∷ []

encoded : encode points ≡ 97 ∷ 195 ∷ 169 ∷ 226 ∷ 130 ∷ 172 ∷ 98 ∷ []
unfolding lead tail_bytes
encoded = refl

cut_between : truncate_utf8 (encode points) 6 ≡ (97 ∷ 195 ∷ 169 ∷ codes "...", true)
unfolding truncate_utf8 cut is_continuation lead tail_bytes
cut_between = refl

no_limit : truncate_utf8 (codes "abc") 0 ≡ (codes "abc", false)
unfolding truncate_utf8
no_limit = refl

truncate_utf8-Keeps_example :
    Keeps points 6 (truncate_utf8 (encode points) 6).0 (truncate_utf8 (encode points) 6).1
unfolding lead tail_bytes
truncate_utf8-Keeps_example =
    truncate_utf8-Keeps points 6 (omega arith) (omega arith) (omega arith) (omega arith)

append_live_delta-Keeps_example :
    let (text, truncated) = append_live_delta (encode points) (encode points) false in
    Keeps (points ++ points) max_live_item_field_bytes text truncated
unfolding lead tail_bytes
append_live_delta-Keeps_example =
    append_live_delta-Keeps points points (encode points) false (omega arith) (omega arith)
      (whole (omega arith) refl refl)
