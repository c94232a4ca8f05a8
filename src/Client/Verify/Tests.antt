-- ===== src/Client/Verify/Tests.antt =====
-- The verifiers of src/client.rs at concrete inputs. The hash is the first byte, in place of
-- SHA-256.
use web_transport_quinn_py.Prelude.{
  ℕ, ◌≡◌, ◌↔◌, ◌⊎◌, refl, true, false, none, some, List, [], ◌∷◌, take,
}
use web_transport_quinn_py.Prelude.Result.{Result, ok, err}
use web_transport_quinn_py.Client.Verify.{
  HashProvider, CryptoProvider, RustlsError, unknown_issuer, choose_verifier, verify_server_cert,
  sha256, bytes_eq, find_sha256,
}
use web_transport_quinn_py.Client.Verify.Laws.{In, found, other, tls12, pinned_exact}

abbrev other_hash : HashProvider
other_hash = record { is_sha256 = false; hash = λ bytes. [] }

abbrev first_byte : HashProvider
first_byte = record { is_sha256 = true; hash = take 1 }

abbrev provider : CryptoProvider
provider = record {
  cipher_suites = none ∷ some other_hash ∷ some first_byte ∷ [];
  verify_tls12_signature = λ m c d. ok tt;
  verify_tls13_signature = λ m c d. ok tt;
  supported_schemes = [];
}

abbrev no_check : Unit {0} → List ℕ → Result (Unit {0}) RustlsError
no_check roots cert = err unknown_issuer

accepts_pinned :
    verify_server_cert provider no_check
      (choose_verifier (λ r _. r) tt [] false (some ((9 ∷ []) ∷ (7 ∷ []) ∷ [])))
      (7 ∷ 8 ∷ [])
    ≡ ok tt
unfolding verify_server_cert choose_verifier sha256 bytes_eq find_sha256
accepts_pinned = refl

pinned_exact_example :
    ((verify_server_cert provider no_check
          (choose_verifier (λ r _. r) tt [] false (some ((7 ∷ []) ∷ [])))
          (7 ∷ 8 ∷ [])
        ≡ ok tt)
      ↔ In (7 ∷ []) ((7 ∷ []) ∷ []))
    × ((verify_server_cert provider no_check
            (choose_verifier (λ r _. r) tt [] false (some ((7 ∷ []) ∷ [])))
            (7 ∷ 8 ∷ [])
          ≡ ok tt)
        ⊎ (verify_server_cert provider no_check
              (choose_verifier (λ r _. r) tt [] false (some ((7 ∷ []) ∷ [])))
              (7 ∷ 8 ∷ [])
            ≡ err unknown_issuer))
pinned_exact_example =
    pinned_exact provider no_check (λ r _. r) tt [] ((7 ∷ []) ∷ []) (7 ∷ 8 ∷ []) first_byte
      (tls12 (other refl (found refl)))
