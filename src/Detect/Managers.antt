-- ===== src/Detect/Managers.antt =====
-- Which hosts get the old package manager.
use glidesh.Common.{
  ℕ, ◌<◌, ◌≡◌, refl, ◌↔◌, String, Bool, true, false, ◌&&◌, Option, none, some, if◌then◌else◌,
  str_eq, eq_iff, arith,
}
use glidesh.Detect.{OsFamily, debian, red_hat, arch, alpine, suse, nix_os, dnf, yum}
use glidesh.Detect.Family.{major_of, is_old, detect_pkg_manager}

-- A CentOS host of a version below 8, as far as its version can be read.
abbrev pub IsOldCentos : OsFamily → String → String → Type 0
IsOldCentos family id version =
    (family ≡ red_hat)
    × (id ≡ "centos")
    × ((major : ℕ) × (major_of version ≡ some major) × (major < 8))

old_major : (o : Option ℕ) → is_old o ≡ true → (major : ℕ) × (o ≡ some major) × (major < 8)
old_major none e = absurd (cc)
old_major (some major) e = (major, refl, ground (arith, e))

-- `yum` is chosen for the hosts of the Red Hat family whose ID is "centos" and whose major version
-- is a number below 8, and for no others.
pub detect_pkg_manager_iff :
    (family : OsFamily) (id version : String)
    → (detect_pkg_manager family id version ≡ yum) ↔ IsOldCentos family id version
unfolding detect_pkg_manager
detect_pkg_manager_iff debian id version = ((λ e. absurd (cc)), λ h. absurd (cc))
detect_pkg_manager_iff red_hat id version = (
  (λ e. go (str_eq id "centos") refl (is_old (major_of version)) refl e),
  λ h. rw (h.1) (rw (h.2.1) (ground (arith, h.2.2))),
)
  where
    go :
        (b : Bool)
        → str_eq id "centos" ≡ b
        → (o : Bool) → is_old (major_of version) ≡ o
        → (if b && o then yum else dnf) ≡ yum
        → IsOldCentos red_hat id version
    go true e true o h = (refl, (eq_iff id "centos").0 e, old_major (major_of version) o)
    go true e false o h = absurd (cc)
    go false e o' o h = absurd (cc)
detect_pkg_manager_iff arch id version = ((λ e. absurd (cc)), λ h. absurd (cc))
detect_pkg_manager_iff alpine id version = ((λ e. absurd (cc)), λ h. absurd (cc))
detect_pkg_manager_iff suse id version = ((λ e. absurd (cc)), λ h. absurd (cc))
detect_pkg_manager_iff nix_os id version = ((λ e. absurd (cc)), λ h. absurd (cc))
detect_pkg_manager_iff (OsFamily.unknown other) id version = ((λ e. absurd (cc)), λ h. absurd (cc))
