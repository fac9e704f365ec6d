-- ===== src/Detect.antt =====
-- What modules/detect.rs knows of a host: `OsInfo`, the words that plans see, how the family, the
-- package manager and the init system follow from /etc/os-release, and the facts of the probe.
pub mod Family
pub mod Probe
mod Commands
mod Managers
mod Examples
use glidesh.Common.{String, Bool, Option}

pub data OsFamily : Type 0 where
  debian red_hat arch alpine suse nix_os : OsFamily
  unknown : String → OsFamily

pub data PkgManager : Type 0 where
  apt dnf yum pacman apk zypper nix : PkgManager

pub data InitSystem : Type 0 where
  systemd open_rc unknown : InitSystem

pub data ContainerRuntime : Type 0 where
  podman docker : ContainerRuntime

pub record Facts : Type 0 where
  pub hostname : String
  pub kernel : String
  pub arch : String
  pub cpu_count : String
  pub mem_total_mb : String
  pub ip_default : String

pub record OsInfo : Type 0 where
  pub id : String
  pub version : String
  pub family : OsFamily
  pub pkg_manager : PkgManager
  pub init_system : InitSystem
  pub container_runtime : Option ContainerRuntime
  pub nix_installed : Bool
  pub facts : Facts

-- The `as_str` of each.
unfoldable pub family_str : OsFamily → String
family_str debian = "debian"
family_str red_hat = "redhat"
family_str arch = "arch"
family_str alpine = "alpine"
family_str suse = "suse"
family_str nix_os = "nixos"
family_str (OsFamily.unknown id) = id

unfoldable pub pkg_manager_str : PkgManager → String
pkg_manager_str apt = "apt"
pkg_manager_str dnf = "dnf"
pkg_manager_str yum = "yum"
pkg_manager_str pacman = "pacman"
pkg_manager_str apk = "apk"
pkg_manager_str zypper = "zypper"
pkg_manager_str nix = "nix"

unfoldable pub init_system_str : InitSystem → String
init_system_str systemd = "systemd"
init_system_str open_rc = "openrc"
init_system_str InitSystem.unknown = "unknown"

unfoldable pub container_runtime_str : ContainerRuntime → String
container_runtime_str podman = "podman"
container_runtime_str docker = "docker"
