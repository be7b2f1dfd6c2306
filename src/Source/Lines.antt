-- ===== src/Source/Lines.antt =====
-- internal/source/reader.go: the lines of a file, and the window of them that is sent.
use mac_agent.Base.{
  ℕ, zero, suc, ◌-◌, ◌*◌, Bool, false, List, [], ◌∷◌, Bytes, Int64, add64, sub64, lt64, length,
  take, drop, codes, no_bytes, ltb, leb, ◌==◌, ◌&&◌, if◌then◌else◌,
}
use mac_agent.CodexItem.{join}

abbrev pub max_source_bytes : ℕ
max_source_bytes = 1024 * 1024

abbrev pub max_response_bytes : ℕ
max_response_bytes = 32 * 1024

abbrev pub default_context : Int64
default_context = 200

abbrev pub max_context : Int64
max_context = 500

abbrev pub starts_line : Bytes → Bool
starts_line [] = false
starts_line (b ∷ text) = b == 10

-- `strings.ReplaceAll(content, "\r\n", "\n")`
unfoldable pub replace_crlf : Bytes → Bytes
replace_crlf [] = []
replace_crlf (b ∷ text) =
    let rest = replace_crlf text in if b == 13 && starts_line text then rest else b ∷ rest

abbrev pub to_first : ℕ → List Bytes → List Bytes
to_first b [] = (b ∷ []) ∷ []
to_first b (part ∷ parts) = (b ∷ part) ∷ parts

-- `strings.Split` at a byte: there is always a part.
unfoldable pub split : ℕ → Bytes → List Bytes
split separator [] = [] ∷ []
split separator (b ∷ text) =
    let rest = split separator text in if b == separator then [] ∷ rest else to_first b rest

-- The last line, of a text that ends with a line break, is dropped.
unfoldable pub drop_last_empty : List Bytes → List Bytes
drop_last_empty [] = []
drop_last_empty (line ∷ []) = if no_bytes line then [] else line ∷ []
drop_last_empty (line ∷ next ∷ lines) = line ∷ drop_last_empty (next ∷ lines)

abbrev pub all_but_last_empty : List Bytes → List Bytes
all_but_last_empty [] = [] ∷ []
all_but_last_empty (line ∷ lines) = line ∷ drop_last_empty lines

unfoldable pub split_lines : Bytes → List Bytes
split_lines content = all_but_last_empty (split 10 (replace_crlf content))

-- `strings.Join(lines[start-1:end], "\n")`, of a start that is at least 1 and an end that is at most
-- the number of lines and not before the start. `Source.Window.window_lem` rules the others out,
-- which would panic.
unfoldable pub window_content : List Bytes → Int64 → Int64 → Bytes
window_content lines start end =
    join (codes "\n") (take (end - (start - 1)) (drop (start - 1) lines))

-- The line in focus, within the lines.
unfoldable pub clamp_focus : Int64 → ℕ → Int64
clamp_focus focus count =
    let first = if lt64 focus 1 && ltb 0 count then 1 else focus in
    if lt64 count first then count else first

unfoldable pub clamp_context : Int64 → Int64
clamp_context lines =
    let asked = if lt64 lines 1 then default_context else lines in
    if lt64 max_context asked then max_context else asked

unfoldable pub source_window : List Bytes → Int64 → Int64 → Int64 × Int64
source_window lines focus context =
    if leb (length (join (codes "\n") lines)) max_response_bytes then (1, length lines) else (
      if lt64 (sub64 focus context) 1 then 1 else sub64 focus context,
      if lt64 (length lines) (add64 focus context) then length lines else add64 focus context,
    )

-- One pass of the loop moves the end that is farther from the focus, the start when it is farther.
abbrev pub narrow : Int64 → Int64 × Int64 → Int64 × Int64
narrow focus (start, end) =
    if lt64 (sub64 end focus) (sub64 focus start)
    then (add64 start 1, end)
    else (start, sub64 end 1)

-- The loop. A pass takes a line away, so as many passes as there are lines are enough.
unfoldable pub shrink : ℕ → List Bytes → Int64 → Int64 × Int64 → Int64 × Int64
shrink zero lines focus window = window
shrink (suc passes) lines focus window =
    let rest = shrink passes lines focus (narrow focus window) in
    if ltb max_response_bytes (length (window_content lines window.0 window.1))
      && lt64 window.0 window.1
    then rest
    else window
