-- ===== src/Turn/Indexed.antt =====
-- The index of the live items is exactly the map from their ids to their places.
use mac_agent.Base.{
  ℕ, zero, suc, ◌≡◌, refl, sym, ap, ◌∙◌, ◌≢◌, ◌⊎◌, inl, inr, String, true, false, none, some, List,
  [], ◌∷◌, ◌++◌, length, get_elem?, get_or, set, str_eq, str_eq-false, eq_iff, Bool-cases,
  Option-cases, arith, ◌==◌, ==_iff,
}
use mac_agent.Protocol.Types.{ThreadHistoryItem}
use mac_agent.Runner.{Event}
use mac_agent.Turn.Items.{
  Controller, find_index, append_item, put_item, add_delta, blank_item, put_delta, delta_at,
  delta_item_type,
}

abbrev pub Index : Type 0
Index = List (String × ℕ)

-- An id has the place `i` in the index exactly when the item at `i` has this id.
unfoldable pub IsIndex : Index → List ThreadHistoryItem → Type 0
IsIndex index items =
    ((id : String) (i : ℕ)
      → find_index id index ≡ some i
      → (item : ThreadHistoryItem) × (get_elem? items i ≡ some item) × (item.id ≡ id))
    × ((i : ℕ) (item : ThreadHistoryItem)
        → get_elem? items i ≡ some item
        → find_index item.id index ≡ some i)

module _ {ℓ} {A : Type ℓ} where
  get_elem?-set_at :
      (xs : List A) (i j : ℕ) (x v : A)
      → i ≡ j
      → get_elem? xs j ≡ some x
      → get_elem? (set xs i v) j ≡ some v
  get_elem?-set_at [] i j x v e h = ground arith
  get_elem?-set_at (y ∷ xs) zero zero x v e h = refl
  get_elem?-set_at (y ∷ xs) zero (suc j) x v e h = absurd (omega arith)
  get_elem?-set_at (y ∷ xs) (suc i) zero x v e h = absurd (omega arith)
  get_elem?-set_at (y ∷ xs) (suc i) (suc j) x v e h = get_elem?-set_at xs i j x v (omega arith) h

  -- What a list holds after a write: the new value at its place, the old elements elsewhere.
  get_elem?-set_cases :
      (xs : List A) (i j : ℕ) (x v : A)
      → get_elem? (set xs i v) j ≡ some x
      → ((i ≡ j) × (v ≡ x)) ⊎ ((i ≢ j) × (get_elem? xs j ≡ some x))
  get_elem?-set_cases [] i j x v h = ground arith
  get_elem?-set_cases (y ∷ xs) zero zero x v h = inl (refl, ground arith)
  get_elem?-set_cases (y ∷ xs) zero (suc j) x v h = inr (λ e. absurd (omega arith), h)
  get_elem?-set_cases (y ∷ xs) (suc i) zero x v h = inr (λ e. absurd (omega arith), h)
  get_elem?-set_cases (y ∷ xs) (suc i) (suc j) x v h = elim (get_elem?-set_cases xs i j x v h) [
    | inl (e, f) ↦ inl (ap suc e, f)
    | inr (n, f) ↦ inr (λ e. n (omega arith), f)
  ]

  pub get_elem?-set_ne :
      (xs : List A) (i j : ℕ) (v : A) → i ≢ j → get_elem? (set xs i v) j ≡ get_elem? xs j
  get_elem?-set_ne [] i j v h = refl
  get_elem?-set_ne (x ∷ xs) zero zero v h = absurd (h refl)
  get_elem?-set_ne (x ∷ xs) zero (suc j) v h = refl
  get_elem?-set_ne (x ∷ xs) (suc i) zero v h = refl
  get_elem?-set_ne (x ∷ xs) (suc i) (suc j) v h = get_elem?-set_ne xs i j v (λ e. h (ap suc e))

  pub get_elem?-append_new : (xs : List A) (v : A) → get_elem? (xs ++ v ∷ []) (length xs) ≡ some v
  get_elem?-append_new [] v = refl
  get_elem?-append_new (x ∷ xs) v = get_elem?-append_new xs v

  -- An element of a list with one more at the end is an old one or the new one.
  pub get_elem?-append_cases :
      (xs : List A) (v : A) (i : ℕ) (x : A)
      → get_elem? (xs ++ v ∷ []) i ≡ some x
      → (get_elem? xs i ≡ some x) ⊎ ((i ≡ length xs) × (v ≡ x))
  get_elem?-append_cases [] v zero x h = ground arith
  get_elem?-append_cases [] v (suc i) x h = ground arith
  get_elem?-append_cases (y ∷ xs) v zero x h = inl h
  get_elem?-append_cases (y ∷ xs) v (suc i) x h = elim (get_elem?-append_cases xs v i x h) [
    | inl e ↦ inl e
    | inr (e, f) ↦ inr (ap suc e, f)
  ]

  pub get_elem?-append :
      (xs : List A) (v : A) (i : ℕ) (x : A)
      → get_elem? xs i ≡ some x
      → get_elem? (xs ++ v ∷ []) i ≡ some x
  get_elem?-append [] v i x h = ground arith
  get_elem?-append (y ∷ xs) v zero x h = h
  get_elem?-append (y ∷ xs) v (suc i) x h = get_elem?-append xs v i x h

some-injective {ℓ} : {A : Type ℓ} (x y : A) → some x ≡ some y → x ≡ y
some-injective x y e = ap (λ o. elim o [ none ↦ x | some z ↦ z ]) e

IsIndex-set :
    (index : Index) (items : List ThreadHistoryItem) (i : ℕ) (old new : ThreadHistoryItem)
    → IsIndex index items
    → get_elem? items i ≡ some old
    → new.id ≡ old.id
    → IsIndex index (set items i new)
unfolding IsIndex
IsIndex-set index items i old new (found, placed) at same = (
  λ id j h.
      let (x, x_at, x_id) = found id j h in
      elim (Bool-cases (i == j)) [
        | inl e ↦
            let here : i ≡ j = (==_iff i j).0 e in
            let is_old : old ≡ x =
              some-injective old x (sym at ∙ ap (get_elem? items) here ∙ x_at) in
            (
              new,
              get_elem?-set_at items i j x new here x_at,
              same ∙ ap (λ item. item.id) is_old ∙ x_id,
            )
        | inr n ↦
            let elsewhere : i ≢ j = λ e. ground (arith, n, e) in
            (x, get_elem?-set_ne items i j new elsewhere ∙ x_at, x_id)
      ],
  λ j item h. elim (get_elem?-set_cases items i j item new h) [
    | inl (here, is_new) ↦
        let old_at : get_elem? items j ≡ some old = ap (get_elem? items) (sym here) ∙ at in
        let id : item.id ≡ old.id = ap (λ x. x.id) (sym is_new) ∙ same in
        ap (λ x. find_index x index) id ∙ placed j old old_at
    | inr (elsewhere, item_at) ↦ placed j item item_at
  ],
)

find_index-here :
    (key id : String) (i : ℕ) (index : Index)
    → str_eq key id ≡ true
    → find_index id ((key, i) ∷ index) ≡ some i
unfolding find_index
find_index-here key id i index e = rw e refl

find_index-next :
    (key id : String) (i : ℕ) (index : Index)
    → str_eq key id ≡ false
    → find_index id ((key, i) ∷ index) ≡ find_index id index
unfolding find_index
find_index-next key id i index e = rw e refl

IsIndex-append :
    (index : Index) (items : List ThreadHistoryItem) (new : ThreadHistoryItem)
    → IsIndex index items
    → find_index new.id index ≡ none
    → IsIndex ((new.id, length items) ∷ index) (items ++ new ∷ [])
unfolding IsIndex find_index
IsIndex-append index items new (found, placed) absent = (
  λ id j h. elim (Bool-cases (str_eq new.id id)) [
    | inl e ↦
        let here : length items ≡ j =
          some-injective (length items) j
            (sym (find_index-here new.id id (length items) index e) ∙ h) in
        (
          new,
          ap (get_elem? (items ++ new ∷ [])) (sym here) ∙ get_elem?-append_new items new,
          (eq_iff new.id id).0 e,
        )
    | inr e ↦
        let (x, x_at, x_id) =
          found id j (sym (find_index-next new.id id (length items) index e) ∙ h) in
        (x, get_elem?-append items new j x x_at, x_id)
  ],
  λ j item h. elim (get_elem?-append_cases items new j item h) [
    | inl item_at ↦
        let other : str_eq new.id item.id ≡ false =
          str_eq-false new.id item.id
            (λ e. ground (arith, absent, placed j item item_at, ap (λ x. find_index x index) e)) in
        rw other (placed j item item_at)
    | inr (here, is_new) ↦
        let same : str_eq new.id item.id ≡ true =
          (eq_iff new.id item.id).1 (ap (λ x. x.id) is_new) in
        rw same (ap some (sym here))
  ],
)

pub IsIndex-nil : IsIndex [] []
unfolding IsIndex find_index
IsIndex-nil = (λ id i h. ground arith, λ i item h. ground arith)

abbrev pub IsIndexed : Controller → Type 0
IsIndexed c = IsIndex c.live_item_index c.live_items

pub put_item-IsIndexed :
    (item : ThreadHistoryItem) (c : Controller) → IsIndexed c → IsIndexed (put_item item c)
unfolding put_item IsIndex
put_item-IsIndexed item c h = elim (Option-cases (find_index item.id c.live_item_index)) [
  | inl absent ↦ rw (absent, put_item) (IsIndex-append c.live_item_index c.live_items item h absent)
  | inr (i, found) ↦
      let (old, at, same) = h.0 item.id i found in
      rw (found, put_item) (IsIndex-set c.live_item_index c.live_items i old item h at (sym same))
]

id-add_delta : (event : Event) (item : ThreadHistoryItem) → (add_delta event item).id ≡ item.id
unfolding add_delta
id-add_delta event item = elim (Bool-cases (str_eq event.field "output")) [
  | inl e ↦ rw e refl
  | inr e ↦ rw e refl
]

get_or-get_elem? {ℓ} :
    {A : Type ℓ} (xs : List A) (i : ℕ) (x d : A) → get_elem? xs i ≡ some x → get_or xs i d ≡ x
get_or-get_elem? [] i x d h = ground arith
get_or-get_elem? (y ∷ xs) zero x d h = some-injective y x h
get_or-get_elem? (y ∷ xs) (suc i) x d h = get_or-get_elem? xs i x d h

delta_at-IsIndexed :
    (event : Event) (i : ℕ) (c : Controller) (old : ThreadHistoryItem)
    → get_elem? c.live_items i ≡ some old
    → IsIndexed c
    → IsIndexed (delta_at event i c)
delta_at-IsIndexed event i c old at h = IsIndex-set c.live_item_index c.live_items i old _ h at (
    id-add_delta event _
    ∙ ap (λ x. x.id) (get_or-get_elem? c.live_items i old (blank_item "" "") at))

pub put_delta-IsIndexed :
    (event : Event) (c : Controller) → IsIndexed c → IsIndexed (put_delta event c)
unfolding IsIndex put_delta find_index
put_delta-IsIndexed event c h = elim (Option-cases (find_index event.item_id c.live_item_index)) [
  | inl absent ↦
      let new = blank_item event.item_id (delta_item_type event) in
      rw (absent, put_delta)
        (delta_at-IsIndexed event (length c.live_items) (append_item new c) new
          (get_elem?-append_new c.live_items new)
          (IsIndex-append c.live_item_index c.live_items new h absent))
  | inr (i, found) ↦
      let (old, at, same) = h.0 event.item_id i found in
      rw (found, put_delta) (delta_at-IsIndexed event i c old at h)
]
