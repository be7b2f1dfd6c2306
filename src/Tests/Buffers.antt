-- ===== src/Tests/Buffers.antt =====
-- internal/buffer/ring.go on samples.
use mac_agent.Base.{◌≡◌, refl, true, List, [], ◌∷◌, Bytes, codes}
use mac_agent.Buffer.{Ring, capacity_of, new, add, values}
use mac_agent.Buffer.Recent.{keep_last, add_all, values-add_all}

abbrev lines : List Bytes
lines = codes "a" ∷ codes "b" ∷ codes "c" ∷ []

three_into_two : values (add_all (new 2) lines) ≡ codes "b" ∷ codes "c" ∷ []
unfolding values add new
three_into_two = refl

abbrev wrapped : Ring
wrapped = record { entries = codes "c" ∷ codes "b" ∷ []; next = 1; full = true }

values-add_all_example : values (add_all (new 2) lines) ≡ keep_last (capacity_of 2) lines
values-add_all_example = values-add_all 2 lines
