-- ===== src/Buffer/Recent.antt =====
-- The ring of internal/buffer/ring.go holds the most recent lines, oldest first.
use mathlib.Core.List.{foldl}
use native.Mathlib.Nat.{mod-eq_of_lt, mod_self, zero-add, suc-add}
use mathlib.Core.Path.{subst}
use mac_agent.Base.{
  ℕ, zero, suc, ◌+◌, ◌-◌, ◌%◌, ◌≤◌, ◌<◌, ◌≡◌, refl, sym, Bool, true, false, List, [], ◌∷◌, ◌++◌,
  append_assoc, append-nil, Bytes, Int64, length, length-append, length-set, length-replicate,
  length-map, drop, take-append, drop-append, set-append, split_at, length-drop, arith,
}
use mac_agent.Buffer.{Ring, capacity_of, new, add, reset, values}

pub record IsValid (r : Ring) : Type 0 where
  pub in_range : r.next < length r.entries

-- The last `n` elements.
unfoldable pub keep_last {ℓ} : {A : Type ℓ} → ℕ → List A → List A
keep_last n xs = drop (length xs - n) xs

-- `Add` keeps its index inside the slice and the slice as long as it was.
pub add-IsValid :
    {r : Ring} (v : Bytes)
    → IsValid r
    → IsValid (add r v) × (length (add r v).entries ≡ length r.entries)
unfolding add
add-IsValid {r} v h = ground (arith, length-set r.entries r.next v)

module _ {ℓ} {A : Type ℓ} where
  keep_last-append : (n : ℕ) (xs ys : List A) → length ys ≡ n → keep_last n (xs ++ ys) ≡ ys
  unfolding keep_last
  keep_last-append n xs ys h =
      let e : length (xs ++ ys) - n ≡ length xs = omega (arith, length-append xs ys) in
      rw e (drop-append xs ys)

  keep_last_all : (n : ℕ) (xs : List A) → length xs ≤ n → keep_last n xs ≡ xs
  unfolding keep_last
  keep_last_all n xs h = let e : length xs - n ≡ 0 = omega arith in rw e

abbrev ring_at : List Bytes → Bytes → List Bytes → Bool → Ring
ring_at a x b full = record { entries = a ++ x ∷ b; next = length a; full = full }

-- One write, with the slice cut at the index that is written.
wraps : (a : List Bytes) (x : Bytes) → (length a + 1) % length (a ++ x ∷ []) ≡ 0
wraps a x =
    let e : length (a ++ x ∷ []) ≡ length a + 1 = omega (arith, length-append a (x ∷ [])) in
    rw (e, mod_self)

moves_on :
    (a : List Bytes) (x y : Bytes) (b : List Bytes)
    → (length a + 1) % length (a ++ x ∷ y ∷ b) ≡ length a + 1
moves_on a x y b = mod-eq_of_lt (omega (arith, length-append a (x ∷ y ∷ b)))

add-at_last :
    (a : List Bytes) (x v : Bytes) (full : Bool)
    → add (ring_at a x [] full) v ≡ record { entries = a ++ v ∷ []; next = 0; full = true }
unfolding add
add-at_last a x v full = rw (wraps a x, set-append a x [] v)

add-at_inner :
    (a : List Bytes) (x y v : Bytes) (b : List Bytes) (full : Bool)
    → add (ring_at a x (y ∷ b) full) v ≡ ring_at (a ++ v ∷ []) y b full
unfolding add
add-at_inner a x y v b full =
    rw (moves_on a x y b, set-append a x (y ∷ b) v) ground
      (arith, append_assoc a (v ∷ []) (y ∷ b), length-append a (v ∷ []))

values-at :
    (a : List Bytes) (x : Bytes) (b : List Bytes)
    → (values (ring_at a x b true) ≡ (x ∷ b) ++ a) × (values (ring_at a x b false) ≡ a)
unfolding values
values-at a x b = (rw (drop-append a (x ∷ b), take-append a (x ∷ b)), take-append a (x ∷ b))

values-whole : (xs : List Bytes) → values (record { entries = xs; next = 0; full = true }) ≡ xs
unfolding values
values-whole xs = append-nil xs

values-add_at :
    (a : List Bytes) (x : Bytes) (b : List Bytes) (full : Bool) (v : Bytes)
    → values (add (ring_at a x b full) v)
      ≡ keep_last (length (a ++ x ∷ b)) (values (ring_at a x b full) ++ v ∷ [])
values-add_at a x [] true v =
    rw (add-at_last a x v true, (values-at a x []).0)
      (rw values-whole (
        sym (
          keep_last-append _ (x ∷ []) (a ++ v ∷ [])
            (omega (arith, length-append a (v ∷ []), length-append a (x ∷ []))))))
values-add_at a x [] false v =
    rw (add-at_last a x v false, (values-at a x []).1)
      (rw values-whole (
        sym (
          keep_last_all _ (a ++ v ∷ [])
            (omega (arith, length-append a (v ∷ []), length-append a (x ∷ []))))))
values-add_at a x (y ∷ b) true v =
    rw (add-at_inner a x y v b true, (values-at (a ++ v ∷ []) y b).0, (values-at a x (y ∷ b)).0)
      (rw (append_assoc (y ∷ b) a (v ∷ [])) (
        sym (
          keep_last-append _ (x ∷ []) (y ∷ b ++ (a ++ v ∷ [])) (
            omega (
              arith,
              length-append b (a ++ v ∷ []),
              length-append a (v ∷ []),
              length-append a (x ∷ y ∷ b),
            )))))
values-add_at a x (y ∷ b) false v =
    rw (add-at_inner a x y v b false, (values-at (a ++ v ∷ []) y b).1, (values-at a x (y ∷ b)).1)
      (sym (
        keep_last_all _ (a ++ v ∷ [])
          (omega (arith, length-append a (v ∷ []), length-append a (x ∷ y ∷ b)))))

-- One `Add` on a valid ring: `Values` are the old values and the new line, the oldest dropped when
-- there are more than the ring's capacity.
pub values-add :
    (r : Ring) (v : Bytes)
    → IsValid r
    → values (add r v) ≡ keep_last (length r.entries) (values r ++ v ∷ [])
values-add r v h =
    let (a, x, b, e, l) = split_at r.next r.entries h.in_range in
    let same : ring_at a x b r.full ≡ r =
      λ i. record { entries = sym e i; next = l i; full = r.full } in
    subst (λ q. values (add q v) ≡ keep_last (length q.entries) (values q ++ v ∷ [])) same
      (values-add_at a x b r.full v)

module _ {ℓ} {A : Type ℓ} where
  drop-append_le : (k : ℕ) (xs ys : List A) → k ≤ length xs → drop k (xs ++ ys) ≡ drop k xs ++ ys
  drop-append_le zero xs ys h = refl
  drop-append_le (suc k) [] ys h = absurd (omega arith)
  drop-append_le (suc k) (x ∷ xs) ys h = drop-append_le k xs ys (omega arith)

  drop-nil : (k : ℕ) → drop {A = A} k [] ≡ []
  drop-nil zero = refl
  drop-nil (suc k) = refl

  drop-drop : (j k : ℕ) (xs : List A) → drop j (drop k xs) ≡ drop (k + j) xs
  drop-drop j zero xs = rw zero-add
  drop-drop j (suc k) [] = rw (suc-add, drop-nil j)
  drop-drop j (suc k) (x ∷ xs) = rw suc-add (drop-drop j k xs)

  -- Keeping the last `n` before a further element is written loses nothing of the last `n` after.
  keep_last-keep_last :
      (n : ℕ) (xs : List A) (v : A)
      → keep_last n (keep_last n xs ++ v ∷ []) ≡ keep_last n (xs ++ v ∷ [])
  unfolding keep_last
  keep_last-keep_last n xs v =
      let k = length xs - n in
      let whole = xs ++ v ∷ [] in
      let e : k + (length (drop k whole) - n) ≡ length whole - n =
        omega (arith, length-drop k whole, length-append xs (v ∷ [])) in
      rw (← drop-append_le k xs (v ∷ []) (omega arith), drop-drop, e)

  keep_last-nil : (n : ℕ) → keep_last {A = A} n [] ≡ []
  unfolding keep_last
  keep_last-nil n = drop-nil (0 - n)

abbrev pub add_all : Ring → List Bytes → Ring
add_all = foldl add

values-add_all_from :
    (r : Ring) (history lines : List Bytes)
    → IsValid r
    → values r ≡ keep_last (length r.entries) history
    → values (add_all r lines) ≡ keep_last (length r.entries) (history ++ lines)
values-add_all_from r history [] h e = rw append-nil e
values-add_all_from r history (v ∷ lines) h e =
    let (valid, same) = add-IsValid v h in
    let step : values (add r v) ≡ keep_last (length r.entries) (history ++ v ∷ []) =
      rw (values-add r v h, e) (keep_last-keep_last (length r.entries) history v) in
    rw (← append_assoc history (v ∷ []) lines, ← same)
      (values-add_all_from (add r v) (history ++ v ∷ []) lines valid (rw same step))

new-IsValid : (capacity : Int64) → IsValid (new capacity)
unfolding new capacity_of
new-IsValid capacity = record {
  in_range =
      ground (arith, length-replicate {A = Bytes} 1 [], length-replicate {A = Bytes} capacity []);
}

new_entries : (capacity : Int64) → length (new capacity).entries ≡ capacity_of capacity
unfolding new
new_entries capacity = length-replicate (capacity_of capacity) []

values-new : (capacity : Int64) → values (new capacity) ≡ []
unfolding new values
values-new capacity = refl

-- `Reset` empties the ring and keeps its capacity.
pub values-reset :
    (r : Ring)
    → IsValid r
    → IsValid (reset r) × (values (reset r) ≡ []) × (length (reset r).entries ≡ length r.entries)
unfolding reset values
values-reset r h =
    let same = length-map {B = Bytes} r.entries (λ _. []) in
    (record { in_range = omega (arith, h.in_range, same) }, refl, same)

-- After any sequence of `Add` on a new ring, `Values` are the last lines of the whole history, as
-- many as the capacity (1 for a capacity below 1), oldest first.
pub values-add_all :
    (capacity : Int64) (lines : List Bytes)
    → values (add_all (new capacity) lines) ≡ keep_last (capacity_of capacity) lines
values-add_all capacity lines = rw (← new_entries capacity) (
    values-add_all_from (new capacity) [] lines (new-IsValid capacity)
      (rw (values-new capacity) (sym (keep_last-nil (length (new capacity).entries)))))
