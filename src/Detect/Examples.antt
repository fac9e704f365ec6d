-- ===== src/Detect/Examples.antt =====
-- /etc/os-release of two hosts, and package commands.
use glidesh.Detect.Commands.{install_cmd, remove_cmd, check_installed_cmd, nix_path_prefix}
use glidesh.Common.Chars.{starts_with, trim}
use glidesh.Detect.Probe.{parse_probe, parse_cpu_count, facts_of, section, Section}
use glidesh.Detect.Probe.Sections.{write_sections, IsSection, parse_probe-write_sections}
use glidesh.Common.{String, Bool, List, glue, All, arith, ◌≡◌, refl, [], ◌∷◌, fmt}
use glidesh.Detect.{red_hat, debian, OsFamily, yum, apt, nix}
use glidesh.Detect.Family.{parse_release, detect_family, detect_pkg_manager}

centos_release :
    parse_release
      "NAME=\"CentOS Linux\"\nID=\"centos\"\nID_LIKE=\"rhel fedora\"\nVERSION_ID=\"7\"\n"
    ≡ record { id = "centos"; version = "7"; id_like = "rhel fedora" }
unfolding parse_release
centos_release = refl

like_debian : detect_family "pop" "ubuntu debian" ≡ debian
unfolding detect_family
like_debian = refl

unknown_os : detect_family "plan9" "" ≡ OsFamily.unknown "plan9"
unfolding detect_family
unknown_os = refl

old_centos : detect_pkg_manager red_hat "centos" "7.9" ≡ yum
unfolding detect_pkg_manager
old_centos = refl

install :
    install_cmd apt ("curl" ∷ "git" ∷ [])
    ≡ "DEBIAN_FRONTEND=noninteractive apt-get install -y curl git"
unfolding install_cmd
install = refl

remove : remove_cmd nix ("it's" ∷ []) ≡ fmt (nix_path_prefix ∷ "; nix-env -e 'it'\\''s'" ∷ [])
unfolding remove_cmd fmt
remove = refl

installed : check_installed_cmd yum "curl" ≡ "rpm -q curl >/dev/null 2>&1"
unfolding check_installed_cmd
installed = refl

abbrev is_address : String → Bool
is_address s = starts_with s "1"

abbrev ubuntu : List Section
ubuntu =
    ("hostname", "web-1\n")
    ∷ ("kernel", "5.15.0-105-generic\n")
    ∷ ("arch", "x86_64\n")
    ∷ ("cpu-count", "8\n")
    ∷ ("meminfo", "MemTotal:       16318412 kB\n")
    ∷ ("route", "1.1.1.1 via 10.0.0.1 dev eth0 src 10.0.0.12 uid 0\n    cache\n")
    ∷ []

probed : parse_probe is_address (glue "ID=ubuntu\n" (write_sections ubuntu)) ≡ (
  "ID=ubuntu\n",
  record {
    hostname = "web-1";
    kernel = "5.15.0-105-generic";
    arch = "x86_64";
    cpu_count = "8";
    mem_total_mb = "15935";
    ip_default = "10.0.0.12";
  },
)
unfolding parse_probe starts_with
probed = refl

glued : (parse_probe is_address "VERSION_ID=3.19@@glidesh-fact arch\nx86_64\n").1.arch ≡ "x86_64"
unfolding parse_probe starts_with
glued = refl

nonsense : (parse_cpu_count "0\n" ≡ "") × (parse_cpu_count " 4 \n" ≡ "4")
unfolding parse_cpu_count
nonsense = (refl, refl)

abbrev tiny : List Section
tiny = ("arch", "aarch64\n") ∷ ("hostname", "tiny\n") ∷ []

tiny-AreSections : All IsSection tiny
unfolding trim
tiny-AreSections = ((refl, ground arith, ground arith), ((refl, ground arith, ground arith), tt))

parse_probe-write_sections_example :
    parse_probe is_address (glue "ID=alpine\n" (write_sections tiny))
    ≡ ("ID=alpine\n", facts_of is_address (section tiny))
parse_probe-write_sections_example =
    parse_probe-write_sections is_address "ID=alpine\n" tiny (ground arith) tiny-AreSections
