-- ===== src/Version.antt =====
-- src/version.h and src/version.c: the version byte, and the names of the device classes. A shift
-- by 4 is a product or quotient by 16, and a mask of 4 ones a remainder by 16.
use owl.Base.{ℕ, ◌+◌, ◌*◌, ◌/◌, ◌%◌, ◌<◌, ◌≡◌, arith}

-- Both arguments are not negative in all calls.
unfoldable pub version : ℕ → ℕ → ℕ
version major minor = major % 16 * 16 + minor % 16

unfoldable version_major : ℕ → ℕ
version_major version = version / 16 % 16

unfoldable version_minor : ℕ → ℕ
version_minor version = version % 16

-- A version byte holds the low four bits of both numbers, and every byte is the version of its
-- two numbers.
version_fields :
    (major minor byte : ℕ)
    → byte < 256
    → (version major minor < 256)
      × (version_major (version major minor) ≡ major % 16)
      × (version_minor (version major minor) ≡ minor % 16)
      × (version (version_major byte) (version_minor byte) ≡ byte)
unfolding version version_major version_minor
version_fields major minor byte h = omega arith
