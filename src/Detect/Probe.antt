-- ===== src/Detect/Probe.antt =====
-- What `detect_os` asks a host: the output of its probe, read into the text of /etc/os-release and
-- the facts, and the questions about containers and Nix. Running a command is an argument.
pub mod Sections
use Prim.Native.Char.{Char}
use glidesh.Common.{
  ℕ, zero, suc, ◌-◌, ◌/◌, String, Bool, true, false, Option, none, some, List, [], ◌∷◌,
  if◌then◌else◌, ltb, ◌==◌, str_eq, keep, not, unwrap_or, glue, size, show, Result, ok, err,
  GlideshError,
}
use glidesh.Common.Chars.{trim, lines, strip_prefix, starts_with, split_whitespace, split_once}
use glidesh.Detect.{Facts, OsInfo, ContainerRuntime, podman, docker}
use glidesh.Detect.Family.{
  Release, parse_release, parse_u32, parse_u64, detect_family, detect_pkg_manager,
  detect_init_system,
}

-- `SECTION_MARKER`
abbrev pub marker : String
marker = "@@glidesh-fact "

abbrev pub with_char : Char → String × String → String × String
with_char c (a, b) = (String.◌∷◌ c a, b)

-- `find` and `split_at`: the text before the first marker, and the text from it on.
unfoldable pub split_at_marker : String → String × String
unfolding starts_with
split_at_marker String.[] = ("", "")
split_at_marker (String.◌∷◌ c s) = elim (starts_with (String.◌∷◌ c s) marker) [
  | true ↦ ("", String.◌∷◌ c s)
  | false ↦ with_char c (split_at_marker s)
]

abbrev pub Chunks : Type 0
Chunks = String × List String

abbrev pub in_first : Char → Chunks → Chunks
in_first c (first, more) = (String.◌∷◌ c first, more)

abbrev pub cut_here : Chunks → Chunks
cut_here (first, more) = ("", first ∷ more)

-- `split` at the marker: the first chunk and the others. `skip` counts what is left of a marker.
unfoldable pub split_marker : ℕ → String → Chunks
unfolding starts_with size
split_marker skip String.[] = ("", [])
split_marker (suc skip) (String.◌∷◌ c s) = split_marker skip s
split_marker zero (String.◌∷◌ c s) = elim (starts_with (String.◌∷◌ c s) marker) [
  | true ↦ cut_here (split_marker (size marker - 1) s)
  | false ↦ in_first c (split_marker zero s)
]

abbrev pub all_chunks : Chunks → List String
all_chunks (first, more) = first ∷ more

abbrev pub Section : Type 0
Section = String × String

abbrev pub name_and_body : Section → Section
name_and_body (name, body) = (trim name, body)

-- The name of a chunk's first line, trimmed, and the lines below it.
unfoldable pub read_section : String → Section
unfolding split_once trim
read_section chunk = name_and_body (unwrap_or (split_once b'\n' chunk) (chunk, ""))

-- The chunks that are not empty.
abbrev pub read_sections : List String → List Section
read_sections [] = []
read_sections (c ∷ cs) =
    let rest = read_sections cs in if str_eq c "" then rest else read_section c ∷ rest

abbrev pub section : List Section → String → String
section [] name = ""
section ((n, body) ∷ ss) name = if str_eq n name then body else section ss name

abbrev first_nonempty : List String → String
first_nonempty [] = ""
first_nonempty (l ∷ ls) = if str_eq (trim l) "" then first_nonempty ls else trim l

unfoldable pub first_line : String → String
unfolding lines trim
first_line body = first_nonempty (lines body)

abbrev positive : Option ℕ → String
positive none = ""
positive (some n) = if ltb 0 n then show n else ""

unfoldable pub parse_cpu_count : String → String
unfolding first_line parse_u32 show
parse_cpu_count body = positive (parse_u32 (first_line body))

abbrev after_total : List String → Option String
after_total [] = none
after_total (l ∷ ls) = elim (strip_prefix "MemTotal:" (trim l)) [
  | some rest ↦ some rest
  | none ↦ after_total ls
]

abbrev first_of : List String → Option String
first_of [] = none
first_of (w ∷ ws) = some w

abbrev megabytes : Option ℕ → String
megabytes none = ""
megabytes (some kb) = show (kb / 1024)

abbrev number_of : Option String → Option ℕ
number_of none = none
number_of (some w) = parse_u64 w

abbrev first_word : Option String → Option String
first_word none = none
first_word (some rest) = first_of (split_whitespace rest)

unfoldable pub parse_mem_total_mb : String → String
unfolding lines trim strip_prefix split_whitespace parse_u64 show
parse_mem_total_mb body = megabytes (number_of (first_word (after_total (lines body))))

-- Whether a text is an IP address is for the standard library.
module _ (is_ip : String → Bool) where
  -- A `src` takes the token after it, whether that is an address or not.
  unfoldable pub route_src : List String → String
  route_src [] = ""
  route_src (w ∷ []) = ""
  route_src (w ∷ addr ∷ ws) =
      let behind = route_src ws in
      let next = route_src (addr ∷ ws) in
      if str_eq w "src" then (if is_ip addr then addr else behind) else next

  unfoldable pub parse_route_src : String → String
  unfolding route_src split_whitespace
  parse_route_src body = route_src (split_whitespace body)

  unfoldable pub facts_of : (String → String) → Facts
  unfolding first_line parse_cpu_count parse_mem_total_mb parse_route_src
  facts_of body = record {
    hostname = first_line (body "hostname");
    kernel = first_line (body "kernel");
    arch = first_line (body "arch");
    cpu_count = parse_cpu_count (body "cpu-count");
    mem_total_mb = parse_mem_total_mb (body "meminfo");
    ip_default = parse_route_src (body "route");
  }

  -- `Probe`: the text of /etc/os-release, and the facts.
  unfoldable pub parse_probe : String → String × Facts
  unfolding split_at_marker split_marker read_section facts_of
  parse_probe stdout =
      let at = split_at_marker stdout in
      (at.0, facts_of (section (read_sections (all_chunks (split_marker zero at.1)))))

-- `PROBE_SCRIPT`
abbrev pub probe_script : String
probe_script =
    "cat /etc/os-release 2>/dev/null || echo 'ID=unknown'\necho '@@glidesh-fact hostname'\nhostname 2>/dev/null || uname -n 2>/dev/null\necho '@@glidesh-fact kernel'\nuname -r 2>/dev/null\necho '@@glidesh-fact arch'\nuname -m 2>/dev/null\necho '@@glidesh-fact cpu-count'\nnproc 2>/dev/null || getconf _NPROCESSORS_ONLN 2>/dev/null\necho '@@glidesh-fact meminfo'\ngrep '^MemTotal:' /proc/meminfo 2>/dev/null\necho '@@glidesh-fact route'\nip -4 route get 1.1.1.1 2>/dev/null || ip route get 1.1.1.1 2>/dev/null\ntrue"

-- What a command left, as far as detection reads it.
pub record Output : Type 0 where
  pub exit_code : ℕ
  pub stdout : String

abbrev pub has_succeeded : Output → Bool
has_succeeded o = o.exit_code == 0

-- A command on the host, with the state of the host after it.
abbrev pub Asking : Type 0 → Type 0 → Type 0
Asking W A = W → Result GlideshError A × W

abbrev pub go_on :
    {W A B : Type 0} → Result GlideshError A × W → (A → Asking W B) → Result GlideshError B × W
go_on (ok a, w) f = f a w
go_on (err e, w) f = (err e, w)

abbrev pub and_then : {W A B : Type 0} → Asking W A → (A → Asking W B) → Asking W B
and_then m f w = go_on (m w) f

abbrev pub done_with : {W A : Type 0} → A → Asking W A
done_with a w = (ok a, w)

module _ {W : Type 0} (exec : String → Asking W Output) (is_ip : String → Bool) where
  unfoldable pub detect_nix : Asking W Bool
  detect_nix =
      and_then
        (exec
          "[ -x /nix/var/nix/profiles/default/bin/nix ] || [ -x \"$HOME/.nix-profile/bin/nix\" ] || command -v nix >/dev/null 2>&1")
        (λ o. done_with (has_succeeded o))

  abbrev docker_if : Output → Asking W (Option ContainerRuntime)
  docker_if o = done_with (if has_succeeded o then some docker else none)

  abbrev podman_if : Output → Asking W (Option ContainerRuntime)
  podman_if o =
      if has_succeeded o
      then done_with (some podman)
      else and_then (exec "which docker 2>/dev/null") docker_if

  unfoldable pub detect_container_runtime : Asking W (Option ContainerRuntime)
  detect_container_runtime = and_then (exec "which podman 2>/dev/null") podman_if

  abbrev pub os_info : Release → Facts → Option ContainerRuntime → Bool → OsInfo
  os_info r facts container_runtime nix_installed = record {
    id = r.id;
    version = r.version;
    family = detect_family r.id r.id_like;
    pkg_manager = detect_pkg_manager (detect_family r.id r.id_like) r.id r.version;
    init_system = detect_init_system (detect_family r.id r.id_like);
    container_runtime = container_runtime;
    nix_installed = nix_installed;
    facts = facts;
  }

  unfoldable pub detect_os : Asking W OsInfo
  unfolding parse_probe parse_release detect_container_runtime detect_nix
  detect_os = and_then (exec probe_script) (λ o. and_then detect_container_runtime (λ runtime.
      and_then detect_nix (λ nix. done_with (
        os_info (parse_release (parse_probe is_ip o.stdout).0) (parse_probe is_ip o.stdout).1
          runtime nix))))
