-- ===== src/Secrets/Store.antt =====
-- secrets/store.rs: the line edits of a secrets file. Reading and writing the file is not
-- modelled. The depth of the braces is an `i32`, far from its bounds.
pub mod Lines
pub mod Quoting
pub mod Scalars
pub mod Nodes
pub mod Files
pub mod Edits
pub mod Blocks
mod Examples
use Prim.Native.Char.{Char, code}
use glidesh.Common.{
  ℕ, ℤ, pos, negsuc, ◌+ℤ◌, is_positive, is_zero, String, Bool, true, false, ◌&&◌, ◌||◌, not, Option,
  none, some, List, [], ◌∷◌, if◌then◌else◌, ◌==◌, str_eq, Result, ok, err, GlideshError, secret,
  glue, size, ◌-◌,
}
use glidesh.Common.Chars.{is_whitespace, trim_start, starts_with, lines, replace, take_chars}
use glidesh.Secrets.Vault.{SecretRecipient}

-- `str::is_empty`
abbrev pub is_empty : String → Bool
is_empty String.[] = true
is_empty (String.◌∷◌ c s) = false

-- Where the scan of a line stands: outside of a text, inside of one, behind a backslash in one.
pub data Scan : Type 0 where
  outside inside escaped : Scan

abbrev pub next : Scan → ℕ → Scan
next outside c = if c == b'"' then inside else outside
next inside c = if c == b'\\' then escaped else if c == b'"' then outside else inside
next escaped c = inside

abbrev pub weight : Scan → ℕ → ℤ
weight outside c = if c == b'{' then pos 1 else if c == b'}' then negsuc 0 else pos 0
weight inside c = pos 0
weight escaped c = pos 0

abbrev pub starts_slash : String → Bool
starts_slash String.[] = false
starts_slash (String.◌∷◌ c s) = code c == b'/'

abbrev pub is_comment : Scan → ℕ → String → Bool
is_comment outside c s = c == b'/' && starts_slash s
is_comment inside c s = false
is_comment escaped c s = false

unfoldable pub delta_from : Scan → String → ℤ
unfolding ◌+ℤ◌
delta_from m String.[] = pos 0
delta_from m (String.◌∷◌ c s) =
    let rest = weight m (code c) +ℤ delta_from (next m (code c)) s in
    if is_comment m (code c) s then pos 0 else rest

unfoldable pub brace_delta : String → ℤ
unfolding delta_from
brace_delta line = delta_from outside line

-- `c.is_whitespace() || c == '=' || c == '"'`
abbrev pub ends_name : ℕ → Bool
ends_name c = is_whitespace c || (c == b'=' || c == b'"')

unfoldable pub name_of : String → String
unfolding is_whitespace
name_of String.[] = ""
name_of (String.◌∷◌ c s) =
    let rest = name_of s in if ends_name (code c) then "" else String.◌∷◌ c rest

unfoldable pub line_key : String → Option String
unfolding name_of starts_with
line_key trimmed =
    if is_empty trimmed
      || (starts_with trimmed "//"
          || (starts_with trimmed "-" || (starts_with trimmed "}" || starts_with trimmed "{")))
    then none
    else if is_empty (name_of trimmed)
    then none
    else some (name_of trimmed)

abbrev pub is_key : Option String → String → Bool
is_key none key = false
is_key (some k) key = str_eq k key

-- `line_key(line.trim_start()) == Some(key)`
unfoldable pub declares : String → String → Bool
unfolding line_key trim_start
declares key line = is_key (line_key (trim_start line)) key

unfoldable pub escape : String → String
unfolding replace
escape s =
    replace (replace (replace (replace (replace s "\\" "\\\\") "\"" "\\\"") "\n" "\\n") "\t" "\\t")
      "\r" "\\r"

unfoldable pub kdl_quote : String → String
unfolding escape
kdl_quote s = String.◌∷◌ "\"" (glue (escape s) "\"")

-- `lines.join("\n")`
unfoldable pub join_lines : List String → String
join_lines [] = ""
join_lines (l ∷ []) = l
join_lines (l ∷ m ∷ ls) = glue l (String.◌∷◌ "\n" (join_lines (m ∷ ls)))

-- `ends_with('\n')`
unfoldable pub ends_line : String → Bool
ends_line String.[] = false
ends_line (String.◌∷◌ c s) = if is_empty s then code c == 10 else ends_line s

abbrev add_line_feed : String → String
add_line_feed s = glue s "\n"

-- The line feed at the end, as the old content has it.
unfoldable pub end_as : String → String → String
unfolding ends_line
end_as content result =
    if ends_line content && not (ends_line result) then add_line_feed result else result

abbrev pub before {ℓ} : {A : Type ℓ} → String → List String × A → List String × A
before line (ls, a) = (line ∷ ls, a)

-- The loop of `upsert_scalar`: the lines, and whether one was replaced.
unfoldable pub put_lines : String → String → ℤ → Bool → List String → List String × Bool
unfolding declares brace_delta
put_lines key new depth replaced [] = ([], replaced)
put_lines key new depth replaced (line ∷ ls) =
    let here = is_zero depth && (not replaced && declares key line) in
    before (if here then new else line)
      (put_lines key new (depth +ℤ brace_delta line) (replaced || here) ls)

unfoldable pub scalar_line : String → String → String
unfolding kdl_quote
scalar_line key value = glue key (String.◌∷◌ " " (kdl_quote value))

abbrev pub put_end : String → String → List String × Bool → String
put_end content new (ls, true) = end_as content (join_lines ls)
put_end content new (ls, false) =
    let result = join_lines ls in
    glue (if not (is_empty result) && not (ends_line result) then add_line_feed result else result)
      (add_line_feed new)

unfoldable pub upsert_scalar : String → String → String → String
unfolding put_lines scalar_line join_lines end_as lines
upsert_scalar content key value =
    put_end content (scalar_line key value)
      (put_lines key (scalar_line key value) (pos 0) false (lines content))

abbrev pub prepend {ℓ} : {A : Type ℓ} → List String → List String × A → List String × A
prepend [] r = r
prepend (l ∷ ls) r = before l (prepend ls r)

-- The loop of `remove_node` and, with lines to put in the place of the node, that of
-- `replace_secrets_block`: the lines, and whether the node was found.
unfoldable pub swap_node : List String → String → Bool → ℤ → Bool → List String → List String × Bool
unfolding declares brace_delta
swap_node put key removing depth removed [] = ([], removed)
swap_node put key true depth removed (line ∷ ls) =
    let after = depth +ℤ brace_delta line in
    swap_node put key (is_positive after) (if is_positive after then after else pos 0) removed ls
swap_node put key false depth removed (line ∷ ls) =
    let delta = brace_delta line in
    let swapped = prepend put (
      swap_node put key (is_positive delta) (if is_positive delta then delta else depth) true ls) in
    let kept = before line (swap_node put key false (depth +ℤ delta) removed ls) in
    if is_zero depth && (not removed && declares key line) then swapped else kept

abbrev pub remove_end : String → List String × Bool → String
remove_end content (ls, removed) =
    let result = join_lines ls in if is_empty result then result else end_as content result

unfoldable pub remove_node : String → String → String
unfolding swap_node join_lines end_as lines
remove_node content key = remove_end content (swap_node [] key false (pos 0) false (lines content))

unfoldable pub recipient_lines : List SecretRecipient → String
unfolding kdl_quote
recipient_lines [] = ""
recipient_lines (r ∷ rs) = glue "        - name=" (
    glue (kdl_quote r.name)
      (glue " key=" (glue (kdl_quote r.key) (String.◌∷◌ "\n" (recipient_lines rs)))))

unfoldable pub secrets_block_body : String → List SecretRecipient → String
unfolding recipient_lines
secrets_block_body encryptedkey recipients = glue "    provider \"age\"\n    recipients {\n" (
    glue (recipient_lines recipients)
      (glue "    }\n    encryptedkey \"" (glue encryptedkey "\"\n")))

unfoldable pub secrets_block : String → List SecretRecipient → String
unfolding secrets_block_body
secrets_block encryptedkey recipients =
    glue "secrets {\n" (glue (secrets_block_body encryptedkey recipients) "}")

-- `init_content`
unfoldable pub init_content : String → String
init_content encryptedkey =
    glue "secrets {\n    provider \"passphrase\"\n    encryptedkey \"" (glue encryptedkey "\"\n}\n")

-- `init_content_age`
unfoldable pub init_content_age : String → List SecretRecipient → String
unfolding secrets_block
init_content_age encryptedkey recipients = add_line_feed (secrets_block encryptedkey recipients)

abbrev pub replace_end : String → List String × Bool → Result GlideshError String
replace_end content (ls, true) = ok (end_as content (join_lines ls))
replace_end content (ls, false) =
    err (secret "no `secrets` block to update (is this an initialized secrets file?)")

unfoldable pub replace_secrets_block :
    String → String → List SecretRecipient → Result GlideshError String
unfolding swap_node join_lines end_as lines secrets_block
replace_secrets_block content encryptedkey recipients = replace_end content (
    swap_node (secrets_block encryptedkey recipients ∷ []) "secrets" false (pos 0) false
      (lines content))

-- `&line[..line.len() - trimmed.len()]`
abbrev indent : String → String
indent line = take_chars (size line - size (trim_start line)) line

unfoldable pub rekey_line : String → String → String
unfolding take_chars trim_start size
rekey_line blob line = glue (indent line) (glue "encryptedkey \"" (glue blob "\""))

-- The loop of `replace_encryptedkey`.
unfoldable pub rekey_lines : String → Bool → List String → List String × Bool
unfolding declares rekey_line
rekey_lines blob found [] = ([], found)
rekey_lines blob found (line ∷ ls) =
    let here = not found && declares "encryptedkey" line in
    before (if here then rekey_line blob line else line) (rekey_lines blob (found || here) ls)

abbrev pub rekey_end : String → List String × Bool → Result GlideshError String
rekey_end content (ls, true) =
    ok (if ends_line content then add_line_feed (join_lines ls) else join_lines ls)
rekey_end content (ls, false) =
    err (secret "no `encryptedkey` found to rekey (is this an initialized secrets file?)")

unfoldable pub replace_encryptedkey : String → String → Result GlideshError String
unfolding rekey_lines join_lines ends_line lines
replace_encryptedkey content new_blob =
    rekey_end content (rekey_lines new_blob false (lines content))
