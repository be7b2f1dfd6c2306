-- ===== src/Source/Window.antt =====
-- The window of lines that is sent.
use mac_agent.Base.{
  ℕ, zero, suc, ◌-◌, ◌^◌, ◌≤◌, ◌<◌, ◌≡◌, ◌⊎◌, inl, inr, List, Bytes, Int64, lt64, length, ltb, ◌&&◌,
  Bool-cases, arith,
}
use mac_agent.Source.Lines.{
  max_response_bytes, max_context, window_content, clamp_focus, clamp_context, source_window,
  narrow, shrink,
}

-- The window lies in the lines and holds the focus.
abbrev pub IsWindow : ℕ → Int64 → Int64 × Int64 → Type 0
IsWindow count focus (start, end) = (1 ≤ start) × (start ≤ focus) × (focus ≤ end) × (end ≤ count)

narrow-IsWindow :
    (count : ℕ) (focus start end : Int64)
    → count < 2 ^ 62
    → IsWindow count focus (start, end)
    → start < end
    → IsWindow count focus (narrow focus (start, end))
      × ((narrow focus (start, end)).1 - (narrow focus (start, end)).0 ≡ end - start - 1)
narrow-IsWindow count focus start end small (a, b, c, d) h = ground arith

-- The window is small enough, or is one line.
abbrev pub IsShrunk : List Bytes → Int64 × Int64 → Type 0
IsShrunk lines (start, end) =
    (length (window_content lines start end) ≤ max_response_bytes) ⊎ (start ≡ end)

clamp_focus_lem :
    (focus : Int64) (count : ℕ)
    → focus < 2 ^ 64
    → count < 2 ^ 62
    → 0 < count
    → (1 ≤ clamp_focus focus count) × (clamp_focus focus count ≤ count)
unfolding clamp_focus
clamp_focus_lem focus count word small some_lines = ground arith

clamp_context_lem :
    (lines : Int64)
    → lines < 2 ^ 64
    → (1 ≤ clamp_context lines) × (clamp_context lines ≤ max_context)
unfolding clamp_context
clamp_context_lem lines word = ground arith

source_window-IsWindow :
    (lines : List Bytes) (focus context : Int64)
    → length lines < 2 ^ 62
    → 1 ≤ focus
    → focus ≤ length lines
    → 1 ≤ context
    → context ≤ max_context
    → IsWindow (length lines) focus (source_window lines focus context)
unfolding source_window
source_window-IsWindow lines focus context small a b c d = ground arith

shrink_lem :
    (passes : ℕ) (lines : List Bytes) (focus : Int64) (window : Int64 × Int64)
    → length lines < 2 ^ 62
    → IsWindow (length lines) focus window
    → window.1 - window.0 ≤ passes
    → IsWindow (length lines) focus (shrink passes lines focus window)
      × IsShrunk lines (shrink passes lines focus window)
unfolding shrink
shrink_lem zero lines focus window small inside enough = (inside, inr (omega (arith, inside)))
shrink_lem (suc passes) lines focus window small inside enough =
    let big = ltb max_response_bytes (length (window_content lines window.0 window.1)) in
    elim (Bool-cases (big && lt64 window.0 window.1)) [
      | inl goes_on ↦
          let wide : window.0 < window.1 = ground (arith, goes_on, inside, small) in
          let (still, less) =
            narrow-IsWindow (length lines) focus window.0 window.1 small inside wide in
          rw goes_on (
            shrink_lem passes lines focus (narrow focus window) small still
              (omega (arith, less, enough, wide)))
      | inr ends ↦ rw ends (inside, ground (arith, ends, inside, small))
    ]

-- For all lines, at least one and fewer than 2 ^ 62, and for every focus and context that are 64-bit
-- words: the window that the loop ends with lies in the lines and holds the focus that `clamp_focus`
-- makes of the one asked for, and its content has at most 32 KiB unless the window is one line. As many
-- passes as the ends of the first window are apart are enough for that.
pub window_lem :
    (lines : List Bytes) (focus context : Int64)
    → length lines < 2 ^ 62
    → 0 < length lines
    → focus < 2 ^ 64
    → context < 2 ^ 64
    → let line = clamp_focus focus (length lines) in
      let first = source_window lines line (clamp_context context) in
      let window = shrink (first.1 - first.0) lines line first in
      IsWindow (length lines) line window × IsShrunk lines window
window_lem lines focus context small some_lines word word' =
    let (low, high) = clamp_focus_lem focus (length lines) word small some_lines in
    let (from, to) = clamp_context_lem context word' in
    let line = clamp_focus focus (length lines) in
    let first = source_window lines line (clamp_context context) in
    shrink_lem (first.1 - first.0) lines line first small
      (source_window-IsWindow lines line (clamp_context context) small low high from to)
      (omega arith)
