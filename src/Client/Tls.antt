-- ===== src/Client/Tls.antt =====
-- How the client of vault-rust/src/client.rs trusts the ATM's certificate. `ureq` and `rustls` call the
-- verifier that is chosen here; the default one, and the check of handshake signatures, are theirs.
use fupi.Common.{ℕ, String, Bool, ◌&&◌, not, Option, none, some, List, length, ◌==◌, if◌then◌else◌}
use fupi.Common.Result.{Result, ok, err}
use fupi.Common.Text.{is_empty_text}
use fupi.Crypto.{Crates}
use fupi.Vault.Errors.{ClientError, transport}
use fupi.Client.Fingerprint.{normalize_fingerprint, fingerprint_matches}
use Prim.Native.Char.{code}

pub data TlsMode : Type 0 where
  strict : TlsMode
  pinned : String → TlsMode
  insecure : TlsMode

-- `DangerAcceptAllVerifier` and `PinnedVerifier`
pub data Verifier : Type 0 where
  accept_all : Verifier
  pinned_verifier : String → Verifier

-- Without a verifier of its own the client is checked by the rules of the web.
pub record AtmClient : Type 0 where
  pub base_url : String
  pub verifier : Option Verifier

-- `trim_end_matches('/')`
unfoldable pub trim_slashes : String → String
trim_slashes String.[] = ""
trim_slashes (String.◌∷◌ c s) =
    let rest = trim_slashes s in
    if is_empty_text rest && code c == b'/' then "" else String.◌∷◌ c rest

unfoldable pub verifier_of : TlsMode → Result ClientError (Option Verifier)
unfolding normalize_fingerprint
verifier_of strict = ok none
verifier_of insecure = ok (some accept_all)
verifier_of (pinned fp) =
    if not (length (normalize_fingerprint fp) == 64)
    then err (transport "pin must be a SHA-256 fingerprint (64 hex chars)")
    else ok (some (pinned_verifier fp))

unfoldable pub with_tls : String → TlsMode → Result ClientError AtmClient
unfolding trim_slashes verifier_of
with_tls base_url tls = elim (verifier_of tls) [
  | err e ↦ err e
  | ok verifier ↦ ok (record { base_url = trim_slashes base_url; verifier = verifier })
]

-- `AtmClient::new`
unfoldable pub new : String → Bool → Result ClientError AtmClient
unfolding with_tls
new base_url relaxed = with_tls base_url (if relaxed then insecure else strict)

-- `verify_server_cert`, on the bytes of the certificate
unfoldable pub verify_server_cert : Crates → Verifier → List ℕ → Result String (Unit {0})
unfolding fingerprint_matches
verify_server_cert c accept_all end_entity = ok tt
verify_server_cert c (pinned_verifier pin) end_entity =
    if fingerprint_matches c end_entity pin
    then ok tt
    else err "ATM certificate does not match the pinned SHA-256 fingerprint"
