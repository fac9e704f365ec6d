-- ===== src/Detect/Commands.antt =====
-- The commands of `PkgManager`.
use glidesh.Common.{String, List, [], ◌∷◌, map, fmt, join}
use glidesh.Detect.{PkgManager, apt, dnf, yum, pacman, apk, zypper, nix}
use glidesh.Escalation.{shell_escape}

-- `NIX_PATH_PREFIX`
abbrev pub nix_path_prefix : String
nix_path_prefix =
    "export PATH=/nix/var/nix/profiles/default/bin:$HOME/.nix-profile/bin:/run/current-system/sw/bin:$PATH"

unfoldable pub update_index_cmd : PkgManager → String
update_index_cmd apt = "apt-get update -qq"
update_index_cmd dnf = "dnf makecache -q"
update_index_cmd yum = "yum makecache -q"
update_index_cmd pacman = "pacman -Sy"
update_index_cmd apk = "apk update -q"
update_index_cmd zypper = "zypper refresh -q"
update_index_cmd nix = "true"

abbrev nix_install : String → String
nix_install p = fmt ("nix-env -iA " ∷ shell_escape (fmt ("nixpkgs." ∷ p ∷ [])) ∷ [])

unfoldable pub install_cmd : PkgManager → List String → String
unfolding fmt join shell_escape
install_cmd apt packages =
    fmt ("DEBIAN_FRONTEND=noninteractive apt-get install -y " ∷ join " " packages ∷ [])
install_cmd dnf packages = fmt ("dnf install -y " ∷ join " " packages ∷ [])
install_cmd yum packages = fmt ("yum install -y " ∷ join " " packages ∷ [])
install_cmd pacman packages = fmt ("pacman -S --noconfirm " ∷ join " " packages ∷ [])
install_cmd apk packages = fmt ("apk add " ∷ join " " packages ∷ [])
install_cmd zypper packages = fmt ("zypper install -y " ∷ join " " packages ∷ [])
install_cmd nix packages =
    fmt (nix_path_prefix ∷ "; " ∷ join " && " (map nix_install packages) ∷ [])

unfoldable pub remove_cmd : PkgManager → List String → String
unfolding fmt join shell_escape
remove_cmd apt packages =
    fmt ("DEBIAN_FRONTEND=noninteractive apt-get remove -y " ∷ join " " packages ∷ [])
remove_cmd dnf packages = fmt ("dnf remove -y " ∷ join " " packages ∷ [])
remove_cmd yum packages = fmt ("yum remove -y " ∷ join " " packages ∷ [])
remove_cmd pacman packages = fmt ("pacman -R --noconfirm " ∷ join " " packages ∷ [])
remove_cmd apk packages = fmt ("apk del " ∷ join " " packages ∷ [])
remove_cmd zypper packages = fmt ("zypper remove -y " ∷ join " " packages ∷ [])
remove_cmd nix packages =
    fmt (nix_path_prefix ∷ "; nix-env -e " ∷ join " " (map shell_escape packages) ∷ [])

abbrev rpm_check : String → String
rpm_check name = fmt ("rpm -q " ∷ name ∷ " >/dev/null 2>&1" ∷ [])

unfoldable pub check_installed_cmd : PkgManager → String → String
unfolding fmt shell_escape
check_installed_cmd apt name =
    fmt ("dpkg -s " ∷ name ∷ " 2>/dev/null | grep -q 'Status: install ok installed'" ∷ [])
check_installed_cmd dnf name = rpm_check name
check_installed_cmd yum name = rpm_check name
check_installed_cmd pacman name = fmt ("pacman -Q " ∷ name ∷ " >/dev/null 2>&1" ∷ [])
check_installed_cmd apk name = fmt ("apk info -e " ∷ name ∷ " >/dev/null 2>&1" ∷ [])
check_installed_cmd zypper name = rpm_check name
check_installed_cmd nix name =
    let quoted = shell_escape name in
    fmt (nix_path_prefix ∷ "; nix-env -q " ∷ quoted ∷ " 2>/dev/null | grep -qw " ∷ quoted ∷ [])
