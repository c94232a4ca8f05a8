-- ===== src/Client/Verify/Laws.antt =====
-- Which certificates the verifiers of src/client.rs accept.
use web_transport_quinn_py.Prelude.{
  ℕ, ◌≡◌, ◌↔◌, ◌⊎◌, inl, inr, refl, true, false, Option, none, some, List, [], ◌∷◌, if◌then◌else◌,
  any, arith, Bool-cases,
}
use web_transport_quinn_py.Prelude.Result.{Result, ok, err}
use web_transport_quinn_py.Client.Verify.{
  HashProvider, CryptoProvider, RustlsError, unknown_issuer, Verifier, server_fingerprints,
  choose_verifier, bytes_eq, find_sha256, sha256, verify_server_cert,
}

pub bytes_eq_iff : (a b : List ℕ) → (bytes_eq a b ≡ true) ↔ (a ≡ b)
unfolding bytes_eq
bytes_eq_iff [] [] = (λ _. refl, λ _. refl)
bytes_eq_iff [] (b ∷ bs) = (λ h. cc, λ h. cc)
bytes_eq_iff (a ∷ as') [] = (λ h. cc, λ h. cc)
bytes_eq_iff (a ∷ as') (b ∷ bs) = ground (arith, bytes_eq_iff as' bs)

-- The list holds the bytes, at the place that the evidence names.
pub data In (x : List ℕ) : List (List ℕ) → Type 0 where
  first : {y : List ℕ} {ys : List (List ℕ)} → y ≡ x → In x (y ∷ ys)
  later : {y : List ℕ} {ys : List (List ℕ)} → In x ys → In x (y ∷ ys)

any-In : (x : List ℕ) (fs : List (List ℕ)) → any (λ f. bytes_eq f x) fs ≡ true → In x fs
any-In x [] h = cc
any-In x (f ∷ fs) h = elim (Bool-cases (bytes_eq f x)) [
  | inl same ↦ first ((bytes_eq_iff f x).0 same)
  | inr differ ↦ later (any-In x fs (ground arith))
]

In-any : (x : List ℕ) (fs : List (List ℕ)) → In x fs → any (λ f. bytes_eq f x) fs ≡ true
In-any x fs (first {y = f} {ys = rest} e) = ground (arith, bytes_eq_iff f x)
In-any x fs (later {y = f} {ys = rest} m) = ground (arith, In-any x rest m)

-- Independent of the order of the suites that are not SHA-256: the first suite of TLS 1.3 that is.
pub data FirstSha256 : List (Option HashProvider) → HashProvider → Type 0 where
  found :
      {h : HashProvider} {suites : List (Option HashProvider)}
      → h.is_sha256 ≡ true
      → FirstSha256 (some h ∷ suites) h
  other :
      {g h : HashProvider} {suites : List (Option HashProvider)}
      → g.is_sha256 ≡ false
      → FirstSha256 suites h
      → FirstSha256 (some g ∷ suites) h
  tls12 :
      {h : HashProvider} {suites : List (Option HashProvider)}
      → FirstSha256 suites h
      → FirstSha256 (none ∷ suites) h

find_sha256-First :
    (suites : List (Option HashProvider)) (h : HashProvider)
    → FirstSha256 suites h
    → find_sha256 suites ≡ some h
unfolding find_sha256
find_sha256-First _ h (found e) = rw e
find_sha256-First _ h (other {suites = suites} e r) = rw e (find_sha256-First suites h r)
find_sha256-First _ h (tls12 {suites = suites} r) = find_sha256-First suites h r

module _ {Roots : Type 0} (provider : CryptoProvider)
    (check_roots : Roots → List ℕ → Result (Unit {0}) RustlsError) where
  abbrev verify : Verifier Roots → List ℕ → Result (Unit {0}) RustlsError
  verify = verify_server_cert provider check_roots

  sha256-First :
      (cert : List ℕ) (h : HashProvider)
      → FirstSha256 provider.cipher_suites h
      → sha256 provider cert ≡ ok (h.hash cert)
  unfolding sha256
  sha256-First cert h s = ground (arith, find_sha256-First provider.cipher_suites h s)

  verify-hash :
      (fingerprints : List (List ℕ)) (cert : List ℕ) (h : HashProvider)
      → FirstSha256 provider.cipher_suites h
      → verify (server_fingerprints fingerprints) cert
        ≡ (if any (λ f. bytes_eq f (h.hash cert)) fingerprints then ok tt else err unknown_issuer)
  unfolding verify_server_cert
  verify-hash fingerprints cert h s = ground (arith, sha256-First cert h s)

  -- A client with pinned certificates accepts a server's certificate exactly if its SHA-256 hash,
  -- by the first TLS 1.3 suite that has one, is among the pinned ones; else the error is
  -- `UnknownIssuer`. The root certificates play no part.
  pub pinned_exact :
      (add : Roots → List ℕ → Roots) (roots : Roots) (native hashes : List (List ℕ)) (cert : List ℕ)
      (h : HashProvider)
      → FirstSha256 provider.cipher_suites h
      → ((verify (choose_verifier add roots native false (some hashes)) cert ≡ ok tt)
          ↔ In (h.hash cert) hashes)
        × ((verify (choose_verifier add roots native false (some hashes)) cert ≡ ok tt)
            ⊎ (verify (choose_verifier add roots native false (some hashes)) cert
                ≡ err unknown_issuer))
  unfolding choose_verifier
  pinned_exact add roots native hashes cert h s =
      elim (Bool-cases (any (λ f. bytes_eq f (h.hash cert)) hashes)) [
        | inl hit ↦
            rw (verify-hash hashes cert h s, hit)
              ((λ _. any-In (h.hash cert) hashes hit, λ _. refl), inl refl)
        | inr miss ↦
            rw (verify-hash hashes cert h s, miss)
              ((λ e. cc, λ m. cc (In-any (h.hash cert) hashes m, miss)), inr refl)
      ]
