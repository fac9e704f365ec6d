-- ===== src/Detect/Probe/Sections.antt =====
-- The sections of a probe's output are read as they were written.
use Prim.Native.Char.{Char, code}
use glidesh.Common.{
  zero, ◌≡◌, refl, ◌∙◌, ap, arith, inl, inr, String, Bool, true, false, some, unwrap_or, List, [],
  ◌∷◌, ◌==◌, str_eq, eq_iff, All, Bool-cases, glue,
}
use glidesh.Common.Chars.{trim, strip_prefix, starts_with, split_once}
use glidesh.Detect.Probe.{
  marker, split_at_marker, Chunks, cut_here, split_marker, all_chunks, Section, read_section,
  name_and_body, read_sections, section, facts_of, parse_probe,
}

-- No character of the text is `@`.
abbrev pub HasNoAt : String → Type 0
HasNoAt String.[] = Unit
HasNoAt (String.◌∷◌ c s) = ((code c == b'@') ≡ false) × HasNoAt s

-- Nor is one a line feed.
abbrev pub IsName : String → Type 0
IsName String.[] = Unit
IsName (String.◌∷◌ c s) = ((code c == b'@') ≡ false) × ((code c == b'\n') ≡ false) × IsName s

-- A section with a trimmed name of one line, and a body, both without `@`.
abbrev pub IsSection : Section → Type 0
IsSection s = (trim s.0 ≡ s.0) × IsName s.0 × HasNoAt s.1

abbrev chunk : Section → String
chunk s = glue s.0 (String.◌∷◌ "\n" s.1)

-- The output: the text of /etc/os-release, and each section behind its marker.
abbrev pub write_sections : List Section → String
write_sections [] = ""
write_sections (s ∷ ss) = glue marker (glue (chunk s) (write_sections ss))

starts_with-marker :
    (c : Char) (s : String) → (code c == b'@') ≡ false → starts_with (String.◌∷◌ c s) marker ≡ false
unfolding starts_with strip_prefix
starts_with-marker c s h = ground arith

split_at_marker-glue :
    (a : String) (ss : List Section)
    → HasNoAt a
    → split_at_marker (glue a (write_sections ss)) ≡ (a, write_sections ss)
unfolding split_at_marker
split_at_marker-glue String.[] [] h = refl
split_at_marker-glue String.[] (s ∷ ss) h = refl
split_at_marker-glue (String.◌∷◌ c a) ss h =
    rw (starts_with-marker c (glue a (write_sections ss)) h.0, split_at_marker)
      (rw (split_at_marker-glue a ss h.1))

abbrev before_chunks : String → Chunks → Chunks
before_chunks a (first, more) = (glue a first, more)

split_marker-glue :
    (a rest : String)
    → HasNoAt a
    → split_marker zero (glue a rest) ≡ before_chunks a (split_marker zero rest)
unfolding split_marker
split_marker-glue String.[] rest h = refl
split_marker-glue (String.◌∷◌ c a) rest h =
    rw (starts_with-marker c (glue a rest) h.0, split_marker) (rw (split_marker-glue a rest h.1))

name-HasNoAt :
    (name body : String) → IsName name → HasNoAt body → HasNoAt (glue name (String.◌∷◌ "\n" body))
name-HasNoAt String.[] body n h = (refl, h)
name-HasNoAt (String.◌∷◌ c name) body n h = (n.0, name-HasNoAt name body n.2 h)

glue_nil : (s : String) → glue s "" ≡ s
glue_nil String.[] = refl
glue_nil (String.◌∷◌ c s) = ap (String.◌∷◌ c) (glue_nil s)

abbrev chunks : List Section → List String
chunks [] = []
chunks (s ∷ ss) = chunk s ∷ chunks ss

split_marker-marker :
    (rest : String) → split_marker zero (glue marker rest) ≡ cut_here (split_marker zero rest)
unfolding split_marker
split_marker-marker rest = refl

split_marker-sections :
    (ss : List Section) → All IsSection ss → split_marker zero (write_sections ss) ≡ ("", chunks ss)
split_marker-sections [] h = unfold split_marker in refl
split_marker-sections (s ∷ ss) h =
    split_marker-marker (glue (chunk s) (write_sections ss))
    ∙ ap cut_here (
        split_marker-glue (chunk s) (write_sections ss) (name-HasNoAt s.0 s.1 h.0.1 h.0.2)
        ∙ rw (split_marker-sections ss h.1, glue_nil (chunk s)))

split_once-name :
    (name body : String)
    → IsName name
    → split_once b'\n' (glue name (String.◌∷◌ "\n" body)) ≡ some (name, body)
unfolding split_once
split_once-name String.[] body n = refl
split_once-name (String.◌∷◌ c name) body n = rw (n.1, split_once-name name body n.2)

read_section_lem :
    (c : String) → read_section c ≡ name_and_body (unwrap_or (split_once b'\n' c) (c, ""))
read_section_lem c = unfold read_section in refl

str_eq_self : str_eq "" "" ≡ true
str_eq_self = refl

read_section-chunk : (s : Section) → IsSection s → read_section (chunk s) ≡ s
read_section-chunk s h = read_section_lem (chunk s) ∙ rw (split_once-name s.0 s.1 h.1, h.0)

str_eq-nil : (c : Char) (s : String) → str_eq (String.◌∷◌ c s) "" ≡ false
str_eq-nil c s = elim (Bool-cases (str_eq (String.◌∷◌ c s) "")) [
  | inl e ↦ absurd (cc ((eq_iff (String.◌∷◌ c s) "").0 e))
  | inr e ↦ e
]

chunk-nonempty : (name body : String) → str_eq (glue name (String.◌∷◌ "\n" body)) "" ≡ false
chunk-nonempty String.[] body = str_eq-nil "\n" body
chunk-nonempty (String.◌∷◌ c name) body = str_eq-nil c (glue name (String.◌∷◌ "\n" body))

read_sections-chunks : (ss : List Section) → All IsSection ss → read_sections (chunks ss) ≡ ss
read_sections-chunks [] h = refl
read_sections-chunks (s ∷ ss) h =
    rw (chunk-nonempty s.0 s.1, read_section-chunk s h.0, read_sections-chunks ss h.1)

parse_probe_lem :
    (is_ip : String → Bool) (stdout : String)
    → parse_probe is_ip stdout ≡ (
      (split_at_marker stdout).0,
      facts_of is_ip
          (section (read_sections (all_chunks (split_marker zero (split_at_marker stdout).1)))),
    )
parse_probe_lem is_ip stdout = unfold parse_probe in refl

-- Where no `@` stands in the text of /etc/os-release or in a section, and every section has a
-- trimmed name of one line, the output of a probe is read as that text, and each fact from the
-- first section of its name, in whatever order they stand, or from an empty one if it is missing.
pub parse_probe-write_sections :
    (is_ip : String → Bool) (os_release : String) (ss : List Section)
    → HasNoAt os_release
    → All IsSection ss
    → parse_probe is_ip (glue os_release (write_sections ss))
      ≡ (os_release, facts_of is_ip (section ss))
parse_probe-write_sections is_ip os_release ss h k = rw (
  parse_probe_lem is_ip (glue os_release (write_sections ss)),
  split_at_marker-glue os_release ss h,
  split_marker-sections ss k,
  str_eq_self,
  read_sections-chunks ss k,
)
