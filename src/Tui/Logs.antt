-- ===== src/Tui/Logs.antt =====
-- `stream_log_lines` of logging/mod.rs.
use Prim.Native.Char.{code}
use glidesh.Common.{
  ℕ, ◌+◌, ◌-◌, String, Bool, true, false, ◌||◌, ◌&&◌, List, [], ◌∷◌, ◌++◌, map, leb, ltb, ◌==◌,
  if◌then◌else◌, str_eq, fmt,
}
use glidesh.Common.Chars.{lines}

-- The bytes of a character in UTF-8.
unfoldable pub utf8_len : ℕ → ℕ
utf8_len c = if ltb c 0x80 then 1 else if ltb c 0x800 then 2 else if ltb c 0x10000 then 3 else 4

abbrev pub byte_len : String → ℕ
byte_len String.[] = 0
byte_len (String.◌∷◌ c s) = utf8_len (code c) + byte_len s

-- The longest start of a text that has at most so many bytes.
unfoldable pub floor_bytes : ℕ → String → String
floor_bytes limit String.[] = ""
floor_bytes limit (String.◌∷◌ c s) =
    let rest = floor_bytes (limit - utf8_len (code c)) s in
    if leb (utf8_len (code c)) limit then String.◌∷◌ c rest else ""

-- `MAX_STREAM_LOG_BYTES`
abbrev max_stream_log_bytes : ℕ
max_stream_log_bytes = 8192

-- The text, and whether it was cut.
unfoldable pub truncate_stream : String → String × Bool
unfolding floor_bytes utf8_len
truncate_stream content =
    if leb (byte_len content) max_stream_log_bytes
    then (content, false)
    else (floor_bytes max_stream_log_bytes content, true)

-- `trim_end_matches(['\n', '\r'])`
unfoldable pub trim_newlines : String → String
trim_newlines String.[] = ""
trim_newlines (String.◌∷◌ c s) =
    let rest = trim_newlines s in
    if (code c == 10 || code c == 13) && str_eq rest "" then "" else String.◌∷◌ c rest

unfoldable pub stream_log_lines : String → String → List String
unfolding truncate_stream lines trim_newlines fmt
stream_log_lines label content =
    let trimmed = trim_newlines content in
    let (body, truncated) = truncate_stream trimmed in
    let shown = map (λ line. fmt ("    " ∷ label ∷ " | " ∷ line ∷ [])) (lines body) in
    if str_eq trimmed ""
    then []
    else if truncated
    then shown ++ (fmt ("    " ∷ label ∷ " | ... [truncated]" ∷ []) ∷ [])
    else shown
