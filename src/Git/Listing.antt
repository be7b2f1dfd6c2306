-- ===== src/Git/Listing.antt =====
-- The listing of `git status -z` is read back.
use mac_agent.Base.{
  ℕ, ◌<◌, ◌≡◌, refl, ap, ◌∙◌, append_assoc, true, false, Option, none, some, List, [], ◌∷◌, ◌++◌,
  map, All, Bytes, is_some, length, ltb, ◌==◌, arith,
}
use mac_agent.Git.{sort_texts, is_renamed, changed_paths, parse_porcelain_z}
use mac_agent.Source.Lines.{split, to_first}
use mac_agent.Source.{has_byte}

-- A changed file: the two letters of its status, its path, and its old path when it was renamed or
-- copied.
pub record Change : Type 0 where
  pub index : ℕ
  pub tree : ℕ
  pub path : Bytes
  pub origin : Option Bytes

abbrev pub entry : Change → Bytes
entry c = c.index ∷ c.tree ∷ 32 ∷ c.path

abbrev pub origin_text : Option Bytes → Bytes
origin_text none = []
origin_text (some path) = path ++ 0 ∷ []

-- What git prints for some changes: each entry, and each old path, ends with a zero byte.
unfoldable pub listing : List Change → Bytes
listing [] = []
listing (c ∷ cs) = entry c ++ 0 ∷ (origin_text c.origin ++ listing cs)

abbrev HasNoZero : Bytes → Type 0
HasNoZero text = has_byte 0 text ≡ false

abbrev OriginHasNoZero : Option Bytes → Type 0
OriginHasNoZero none = Unit
OriginHasNoZero (some path) = HasNoZero path

-- Paths are not empty and have no zero byte, and there is an old path exactly when the status says so.
abbrev pub IsChange : Change → Type 0
IsChange c =
    HasNoZero (entry c)
    × (0 < length c.path)
    × OriginHasNoZero c.origin
    × (is_renamed (c.index ∷ c.tree ∷ []) ≡ is_some c.origin)

split-entry :
    (text rest : Bytes) → HasNoZero text → split 0 (text ++ 0 ∷ rest) ≡ text ∷ split 0 rest
unfolding split has_byte
split-entry [] rest h = refl
split-entry (b ∷ text) rest h =
    let other : (b == 0) ≡ false = ground (arith, h) in
    let tail : HasNoZero text = ground (arith, h) in
    rw other (ap (to_first b) (split-entry text rest tail))

-- The old name of a renamed file is skipped.
changed_paths-origin :
    (origin : Option Bytes) (rest : Bytes)
    → OriginHasNoZero origin
    → changed_paths (is_some origin) (split 0 (origin_text origin ++ rest))
      ≡ changed_paths false (split 0 rest)
unfolding changed_paths
changed_paths-origin none rest h = refl
changed_paths-origin (some path) rest h =
    ap (λ t. changed_paths true (split 0 t)) (append_assoc path (0 ∷ []) rest)
    ∙ ap (changed_paths true) (split-entry path rest h)

changed_paths-entry :
    (c : Change) (entries : List Bytes)
    → 0 < length c.path
    → changed_paths false (entry c ∷ entries)
      ≡ c.path ∷ changed_paths (is_renamed (c.index ∷ c.tree ∷ [])) entries
unfolding changed_paths
changed_paths-entry c entries long =
    let listed : ltb (length (entry c)) 4 ≡ false = ground (arith, long) in
    rw (changed_paths, listed) refl

changed_paths-listing :
    (cs : List Change)
    → All IsChange cs
    → changed_paths false (split 0 (listing cs)) ≡ map (λ c. c.path) cs
unfolding listing
changed_paths-listing [] h = unfold changed_paths split in refl
changed_paths-listing (c ∷ cs) ((no_zero, long, origin, renamed), h) =
    let rest = origin_text c.origin ++ listing cs in
    ap (changed_paths false) (split-entry (entry c) rest no_zero)
    ∙ changed_paths-entry c (split 0 rest) long
    ∙ ap (λ skips. c.path ∷ changed_paths skips (split 0 rest)) renamed
    ∙ ap (λ l. c.path ∷ l) (changed_paths-origin c.origin (listing cs) origin)
    ∙ ap (λ l. c.path ∷ l) (changed_paths-listing cs h)

-- For changes whose paths are not empty and whose texts have no zero byte, with an old path exactly
-- where the status has an "R" or a "C": what git prints of them is read back as their paths, sorted,
-- without the old ones.
pub parse_porcelain_z-listing :
    (cs : List Change)
    → All IsChange cs
    → parse_porcelain_z (listing cs) ≡ sort_texts (map (λ c. c.path) cs)
unfolding parse_porcelain_z
parse_porcelain_z-listing cs h = ap sort_texts (changed_paths-listing cs h)
