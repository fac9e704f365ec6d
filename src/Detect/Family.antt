-- ===== src/Detect/Family.antt =====
-- What follows from /etc/os-release: `detect_os` up to its questions about containers and Nix.
use glidesh.Common.{
  ℕ, ◌+◌, ◌*◌, ◌-◌, String, Bool, false, ◌&&◌, ◌||◌, Option, none, some, or_else, unwrap_or, List,
  [], ◌∷◌, ltb, leb, ◌==◌, if◌then◌else◌, str_eq,
}
use glidesh.Common.Chars.{lines, strip_prefix, has_text, split_on}
use glidesh.Detect.{
  OsFamily, debian, red_hat, arch, alpine, suse, nix_os, PkgManager, apt, dnf, yum, pacman, apk,
  zypper, nix, InitSystem, systemd, open_rc,
}
use Prim.Native.Char.{code}

-- The digits of a number, after those read so far.
unfoldable digits : ℕ → String → Option ℕ
digits n String.[] = some n
digits n (String.◌∷◌ c s) =
    let rest = digits (n * 10 + (code c - 48)) s in
    if leb 48 (code c) && leb (code c) 57 then rest else none

abbrev in_range : ℕ → Option ℕ → Option ℕ
in_range bound (some n) = if ltb n bound then some n else none
in_range bound none = none

abbrev unsigned : String → String
unsigned String.[] = ""
unsigned (String.◌∷◌ c s) = if code c == 43 then s else String.◌∷◌ c s

-- `parse::<u32>`: digits, after a plus sign or not, of a number below 2 ^ 32.
unfoldable pub parse_u32 : String → Option ℕ
unfolding digits
parse_u32 s = if str_eq (unsigned s) "" then none else in_range 4294967296 (digits 0 (unsigned s))

-- `parse::<u64>`
unfoldable pub parse_u64 : String → Option ℕ
unfolding digits
parse_u64 s =
    if str_eq (unsigned s) "" then none else in_range 18446744073709551616 (digits 0 (unsigned s))

-- `trim_matches('"')`
unfoldable pub trim_quotes_start : String → String
trim_quotes_start String.[] = ""
trim_quotes_start (String.◌∷◌ c s) =
    let rest = trim_quotes_start s in if code c == 34 then rest else String.◌∷◌ c s

unfoldable pub trim_quotes_end : String → String
trim_quotes_end String.[] = ""
trim_quotes_end (String.◌∷◌ c s) =
    let rest = trim_quotes_end s in if code c == 34 && str_eq rest "" then "" else String.◌∷◌ c rest

abbrev trim_quotes : String → String
trim_quotes s = trim_quotes_end (trim_quotes_start s)

-- The `ID`, `VERSION_ID` and `ID_LIKE` of /etc/os-release; the last line of each wins.
pub record Release : Type 0 where
  pub id : String
  pub version : String
  pub id_like : String

abbrev release_line : Release → String → Release
release_line r line = elim (strip_prefix "ID=" line) [
  | some v ↦ record r { id = trim_quotes v }
  | none ↦ elim (strip_prefix "VERSION_ID=" line) [
    | some v ↦ record r { version = trim_quotes v }
    | none ↦ elim (strip_prefix "ID_LIKE=" line) [
      | some v ↦ record r { id_like = trim_quotes v }
      | none ↦ r
    ]
  ]
]

unfoldable pub release_from : Release → List String → Release
unfolding strip_prefix trim_quotes_start trim_quotes_end
release_from r [] = r
release_from r (line ∷ lines) = release_from (release_line r line) lines

unfoldable pub parse_release : String → Release
unfolding release_from lines
parse_release os_release =
    release_from (record { id = "unknown"; version = ""; id_like = "" }) (lines os_release)

-- The closure `check` of `detect_family`.
unfoldable pub check : String → Option OsFamily
unfolding has_text
check s =
    if str_eq s "nixos"
    then some nix_os
    else if has_text s "debian"
        || (str_eq s "ubuntu" || (str_eq s "raspbian" || str_eq s "linuxmint"))
    then some debian
    else if has_text s "rhel"
        || (has_text s "fedora"
            || (str_eq s "centos" || (str_eq s "rocky" || (str_eq s "alma" || str_eq s "oracle"))))
    then some red_hat
    else if has_text s "arch" || (str_eq s "manjaro" || str_eq s "endeavouros")
    then some arch
    else if str_eq s "alpine"
    then some alpine
    else if has_text s "suse" || (str_eq s "opensuse-leap" || str_eq s "opensuse-tumbleweed")
    then some suse
    else none

unfoldable pub detect_family : String → String → OsFamily
unfolding check
detect_family id id_like = unwrap_or (or_else (check id) (check id_like)) (OsFamily.unknown id)

abbrev pub is_old : Option ℕ → Bool
is_old none = false
is_old (some major) = ltb major 8

-- The major number of a version.
unfoldable pub major_of : String → Option ℕ
unfolding parse_u32 split_on
major_of version = parse_u32 (split_on 46 version).0

unfoldable pub detect_pkg_manager : OsFamily → String → String → PkgManager
unfolding major_of
detect_pkg_manager debian id version = apt
detect_pkg_manager red_hat id version =
    if str_eq id "centos" && is_old (major_of version) then yum else dnf
detect_pkg_manager arch id version = pacman
detect_pkg_manager alpine id version = apk
detect_pkg_manager suse id version = zypper
detect_pkg_manager nix_os id version = nix
detect_pkg_manager (OsFamily.unknown other) id version = apt

unfoldable pub detect_init_system : OsFamily → InitSystem
detect_init_system alpine = open_rc
detect_init_system (OsFamily.unknown other) = InitSystem.unknown
detect_init_system _ = systemd
