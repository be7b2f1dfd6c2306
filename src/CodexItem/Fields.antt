-- ===== src/CodexItem/Fields.antt =====
-- An item that is not flagged has lost nothing.
use mac_agent.Base.{
  ◌≡◌, refl, ap, ◌∙◌, inl, inr, Bool, false, List, [], ◌∷◌, ◌++◌, Bytes, Int64, ◌||◌, Bool-cases,
  arith, le64, length,
}
use mac_agent.Protocol.Types.{ThreadFileChange, ThreadHistoryItem}
use mac_agent.Utf8.{truncate_utf8}
use mac_agent.CodexItem.{
  RawItem, Content, clip, clip_changes, clip_item, copied, fill, normalize_raw,
}

truncate_utf8-kept :
    (value : Bytes) (limit : Int64)
    → (truncate_utf8 value limit).1 ≡ false
    → (truncate_utf8 value limit).0 ≡ value
unfolding truncate_utf8
truncate_utf8-kept value limit h = elim (Bool-cases (le64 limit 0 || le64 (length value) limit)) [
  | inl whole ↦ rw whole refl
  | inr long ↦ absurd (ground (arith, h, long))
]

clip-kept :
    (limit : Int64) (value : Bytes) (truncated : Bool)
    → (clip limit value truncated).1 ≡ false
    → (truncated ≡ false) × ((clip limit value truncated).0 ≡ value)
clip-kept limit value truncated h =
    let both : (truncated ≡ false) × ((truncate_utf8 value limit).1 ≡ false) = ground (arith, h) in
    (both.0, truncate_utf8-kept value limit both.1)

clip_changes-kept :
    (limit : Int64) (changes : List ThreadFileChange) (truncated : Bool)
    → (clip_changes limit changes truncated).1 ≡ false
    → (truncated ≡ false) × ((clip_changes limit changes truncated).0 ≡ changes)
unfolding clip_changes
clip_changes-kept limit [] truncated h = (h, refl)
clip_changes-kept limit (change ∷ changes) truncated h =
    let path = clip limit change.path truncated in
    let diff = clip limit change.diff path.1 in
    let (diff_kept, rest) = clip_changes-kept limit changes diff.1 h in
    let (path_kept, same_diff) = clip-kept limit change.diff path.1 diff_kept in
    let (kept, same_path) = clip-kept limit change.path truncated path_kept in
    (
      kept,
      ap
            (λ p.
              record { path = p; kind = change.kind; diff = diff.0 }
              ∷ (clip_changes limit changes diff.1).0)
            same_path
          ∙ ap
              (λ d.
                record { path = change.path; kind = change.kind; diff = d }
                ∷ (clip_changes limit changes diff.1).0)
              same_diff
          ∙ ap (λ l. change ∷ l) rest,
    )

clip_item-kept :
    (limit : Int64) (item : ThreadHistoryItem)
    → (clip_item limit item).truncated ≡ false
    → clip_item limit item ≡ record item { truncated = false }
unfolding clip_item
clip_item-kept limit item h =
    let text = truncate_utf8 item.text limit in
    let name = clip limit item.name text.1 in
    let command = clip limit item.command name.1 in
    let cwd = clip limit item.cwd command.1 in
    let output = clip limit item.output cwd.1 in
    let path = clip limit item.path output.1 in
    let query = clip limit item.query path.1 in
    let (t6, changes_kept) = clip_changes-kept limit item.changes query.1 h in
    let (t5, query_kept) = clip-kept limit item.query path.1 t6 in
    let (t4, path_kept) = clip-kept limit item.path output.1 t5 in
    let (t3, output_kept) = clip-kept limit item.output cwd.1 t4 in
    let (t2, cwd_kept) = clip-kept limit item.cwd command.1 t3 in
    let (t1, command_kept) = clip-kept limit item.command name.1 t2 in
    let (t0, name_kept) = clip-kept limit item.name text.1 t1 in
    let text_kept = truncate_utf8-kept item.text limit t0 in
    simp (
      clip_item, h, changes_kept, query_kept, path_kept, output_kept, cwd_kept, command_kept,
      name_kept, text_kept,
    )

module _ (contents_of : Bytes → List Content) (texts_of : Bytes → List Bytes)
    (base : Bytes → Bytes) where
  -- An item that is not flagged as truncated holds every field of its source whole: it is what the
  -- switch on the type makes of the source, with the source's changes.
  pub normalize_raw-kept :
      (source : RawItem) (limit : Int64)
      → (normalize_raw contents_of texts_of base source limit).truncated ≡ false
      → normalize_raw contents_of texts_of base source limit ≡ (
          let filled : ThreadHistoryItem = fill contents_of texts_of base source (copied source) in
          record filled { changes = filled.changes ++ source.changes; truncated = false })
  unfolding normalize_raw
  normalize_raw-kept source limit h =
      let filled : ThreadHistoryItem = fill contents_of texts_of base source (copied source) in
      clip_item-kept limit (record filled { changes = filled.changes ++ source.changes }) h
