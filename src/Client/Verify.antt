-- ===== src/Client/Verify.antt =====
-- src/client.rs: how the server's certificate is verified.
pub mod Laws
mod Tests
use mathlib.Core.List.{foldl}
use web_transport_quinn_py.Prelude.{
  ℕ, String, Bool, true, false, ◌&&◌, Option, none, some, List, [], ◌∷◌, ◌==◌, if◌then◌else◌, any,
}
use web_transport_quinn_py.Prelude.Result.{Result, ok, err, ◌>>=◌}

-- A TLS 1.3 cipher suite's hash provider, as far as it is used: whether its algorithm is SHA-256,
-- and its hash function. A suite of TLS 1.2 has none.
pub record HashProvider : Type 0 where
  pub is_sha256 : Bool
  pub hash : List ℕ → List ℕ

-- The crypto provider: its suites, and its checks of handshake signatures.
pub record CryptoProvider : Type 0 where
  pub cipher_suites : List (Option HashProvider)
  pub verify_tls12_signature : (message cert dss : List ℕ) → Result (Unit {0}) String
  pub verify_tls13_signature : (message cert dss : List ℕ) → Result (Unit {0}) String
  pub supported_schemes : List ℕ

-- The errors of rustls that the verifiers make.
pub data RustlsError : Type 0 where
  unknown_issuer : RustlsError
  general : String → RustlsError

-- The three modes of `Client(...)`: no verification, pinned fingerprints, or root certificates.
pub data Verifier (Roots : Type 0) : Type 0 where
  no_certificate_verification : Verifier Roots
  server_fingerprints : List (List ℕ) → Verifier Roots
  root_certificates : Roots → Verifier Roots

-- The part of `new` that chooses the mode; certificates that the store refuses are skipped.
unfoldable pub choose_verifier :
    {Roots : Type 0}
    → (Roots → List ℕ → Roots)
    → Roots
    → List (List ℕ)
    → (no_cert_verification : Bool) → (server_certificate_hashes : Option (List (List ℕ)))
    → Verifier Roots
choose_verifier add roots native true hashes = no_certificate_verification
choose_verifier add roots native false (some hashes) = server_fingerprints hashes
choose_verifier add roots native false none = root_certificates (foldl add roots native)

-- Equality of byte strings.
unfoldable pub bytes_eq : List ℕ → List ℕ → Bool
bytes_eq [] [] = true
bytes_eq (a ∷ as') (b ∷ bs) = (a == b) && bytes_eq as' bs
bytes_eq _ _ = false

-- `find_map` over the suites: the first TLS 1.3 suite whose hash is SHA-256.
unfoldable pub find_sha256 : List (Option HashProvider) → Option HashProvider
find_sha256 [] = none
find_sha256 (none ∷ suites) = find_sha256 suites
find_sha256 (some h ∷ suites) = if h.is_sha256 then some h else find_sha256 suites

unfoldable pub sha256 : CryptoProvider → List ℕ → Result (List ℕ) RustlsError
unfolding find_sha256
sha256 provider cert = elim (find_sha256 provider.cipher_suites) [
  | none ↦ err (general "crypto provider does not support SHA-256")
  | some h ↦ ok (h.hash cert)
]

module _ {Roots : Type 0} (provider : CryptoProvider)
    (check_roots : Roots → List ℕ → Result (Unit {0}) RustlsError) where
  -- `verify_server_cert` of each verifier; that of root certificates is rustls's own.
  unfoldable pub verify_server_cert : Verifier Roots → List ℕ → Result (Unit {0}) RustlsError
  unfolding bytes_eq
  verify_server_cert no_certificate_verification end_entity = ok tt
  verify_server_cert (server_fingerprints fingerprints) end_entity = do
    cert_hash ← sha256 provider end_entity
    (if any (λ fingerprint. bytes_eq fingerprint cert_hash) fingerprints
        then ok tt
        else err unknown_issuer)
  verify_server_cert (root_certificates roots) end_entity = check_roots roots end_entity

module _ {Roots : Type 0} (provider : CryptoProvider) where
  -- The signature checks of the two verifiers of the module; `none` where rustls's own is used.
  unfoldable pub verify_tls12_signature :
      Verifier Roots → (message cert dss : List ℕ) → Option (Result (Unit {0}) String)
  verify_tls12_signature no_certificate_verification message cert dss =
      some (provider.verify_tls12_signature message cert dss)
  verify_tls12_signature (server_fingerprints fingerprints) message cert dss =
      some (provider.verify_tls12_signature message cert dss)
  verify_tls12_signature (root_certificates roots) message cert dss = none

  unfoldable pub verify_tls13_signature :
      Verifier Roots → (message cert dss : List ℕ) → Option (Result (Unit {0}) String)
  verify_tls13_signature no_certificate_verification message cert dss =
      some (provider.verify_tls13_signature message cert dss)
  verify_tls13_signature (server_fingerprints fingerprints) message cert dss =
      some (provider.verify_tls13_signature message cert dss)
  verify_tls13_signature (root_certificates roots) message cert dss = none

  unfoldable pub supported_verify_schemes : Verifier Roots → Option (List ℕ)
  supported_verify_schemes no_certificate_verification = some provider.supported_schemes
  supported_verify_schemes (server_fingerprints fingerprints) = some provider.supported_schemes
  supported_verify_schemes (root_certificates roots) = none
