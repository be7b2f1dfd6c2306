-- ===== src/Buffer.antt =====
-- internal/buffer/ring.go: the ring of recent output lines.
pub mod Recent
use mac_agent.Base.{
  ℕ, ◌+◌, ◌%◌, Bool, true, false, List, [], ◌++◌, Bytes, Int64, lt64, length, set, take, drop,
  replicate, ◌==◌, if◌then◌else◌, map,
}

-- `Ring`. The mutex makes each method one step, so a method is a function on the fields.
pub record Ring : Type 0 where
  pub entries : List Bytes
  pub next : ℕ
  pub full : Bool

-- The number of lines that `New` allocates.
unfoldable pub capacity_of : Int64 → ℕ
capacity_of capacity = if lt64 capacity 1 then 1 else capacity

unfoldable pub new : Int64 → Ring
unfolding capacity_of
new capacity = record { entries = replicate (capacity_of capacity) []; next = 0; full = false }

-- A write out of range, which would panic, changes nothing; `Recent.add-IsValid` rules it out.
unfoldable pub add : Ring → Bytes → Ring
add r value =
    let next' = (r.next + 1) % length r.entries in
    record {
      entries = set r.entries r.next value;
      next = next';
      full = if next' == 0 then true else r.full;
    }

unfoldable pub reset : Ring → Ring
reset r = record { entries = map (λ _. []) r.entries; next = 0; full = false }

unfoldable pub values : Ring → List Bytes
values r = if r.full then drop r.next r.entries ++ take r.next r.entries else take r.next r.entries
