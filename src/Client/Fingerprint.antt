-- ===== src/Client/Fingerprint.antt =====
-- The fingerprint of a pinned certificate, in vault-rust/src/client.rs.
use fupi.Common.{ℕ, ◌+◌, String, Bool, ◌||◌, ◌&&◌, List, map, keep, leb, if◌then◌else◌}
use fupi.Common.Text.{codes}
use fupi.Crypto.{Crates, hex_encode}
use fupi.Vault.Coins.{bytes_eq}

abbrev between : ℕ → ℕ → ℕ → Bool
between low high c = leb low c && leb c high

-- `char::is_ascii_hexdigit`, on a code point
unfoldable pub is_hex_digit : ℕ → Bool
is_hex_digit c = between b'0' b'9' c || between b'a' b'f' c || between b'A' b'F' c

-- `to_ascii_lowercase`
unfoldable pub lower : ℕ → ℕ
lower c = if between b'A' b'Z' c then c + 32 else c

-- As code points.
unfoldable pub normalize_fingerprint : String → List ℕ
unfolding is_hex_digit lower
normalize_fingerprint fp = map lower (keep is_hex_digit (codes fp))

unfoldable pub fingerprint_matches : Crates → List ℕ → String → Bool
unfolding normalize_fingerprint bytes_eq
fingerprint_matches c cert_der pin =
    bytes_eq (codes (hex_encode (c.sha256 cert_der))) (normalize_fingerprint pin)
