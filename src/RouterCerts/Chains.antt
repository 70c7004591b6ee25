-- ===== src/RouterCerts/Chains.antt =====
-- What populateVerifyOptionsFromCertSlice and verifyWithAnyCertificate of
-- pkg/controllers/routercerts/controller.go make of a list of certificates.
use mathlib.Core.List.{append_assoc, append-nil}
use cluster_authentication_o.Base.{
  ◌≡◌, ◌↔◌, inl, inr, arith, Bool, true, false, not, ◌&&◌, List, [], ◌∷◌, ◌++◌, Option, none, some,
  Error, has, Bool-cases, Option-cases, if◌then◌else◌,
}
use cluster_authentication_o.RouterCerts.{
  Certificate, VerifyOptions, View, is_root, add_certificate, populate_from,
  populate_verify_options_from_cert_slice, verify_each, verify_with_any_certificate,
}

-- The certificates that pass a test.
abbrev pub only {ℓ} : {A : Type ℓ} → (A → Bool) → List A → List A
only p [] = []
only p (x ∷ xs) = if p x then x ∷ only p xs else only p xs

abbrev pub is_intermediate : Certificate → Bool
is_intermediate c = not (is_root c) && c.is_ca

abbrev pub is_server : Certificate → Bool
is_server c = not (is_root c) && not c.is_ca

-- The options with the authorities among the certificates.
abbrev pub with_authorities : VerifyOptions → List Certificate → VerifyOptions
with_authorities opts certs = record {
  dns_name = opts.dns_name;
  roots = opts.roots ++ only is_root certs;
  intermediates = opts.intermediates ++ only is_intermediate certs;
}

populate_from_lem :
    (certs : List Certificate) (opts : VerifyOptions) (servers : List Certificate)
    → populate_from certs (opts, servers)
      ≡ (with_authorities opts certs, servers ++ only is_server certs)
unfolding populate_from add_certificate
populate_from_lem [] opts servers = simp append-nil
populate_from_lem (c ∷ certs) opts servers = elim (Bool-cases (is_root c)) [
  | inl root ↦
      let next : VerifyOptions = record {
        dns_name = opts.dns_name;
        roots = opts.roots ++ c ∷ [];
        intermediates = opts.intermediates;
      } in
      ground (
        arith,
        root,
        populate_from_lem certs next servers,
        append_assoc opts.roots (c ∷ []) (only is_root certs),
      )
  | inr other ↦ elim (Bool-cases c.is_ca) [
    | inl ca ↦
        let next : VerifyOptions = record {
          dns_name = opts.dns_name;
          roots = opts.roots;
          intermediates = opts.intermediates ++ c ∷ [];
        } in
        ground (
          arith,
          other,
          ca,
          populate_from_lem certs next servers,
          append_assoc opts.intermediates (c ∷ []) (only is_intermediate certs),
        )
    | inr server ↦ ground (
      arith,
      other,
      server,
      populate_from_lem certs opts (servers ++ c ∷ []),
      append_assoc servers (c ∷ []) (only is_server certs),
    )
  ]
]

pub populate_lem :
    (opts : VerifyOptions) (certs : List Certificate)
    → populate_verify_options_from_cert_slice opts certs
      ≡ (with_authorities opts certs, only is_server certs)
unfolding populate_verify_options_from_cert_slice
populate_lem opts certs = populate_from_lem certs opts []

abbrev pub verifies : View → VerifyOptions → Certificate → Bool
verifies v opts c = elim (v.verify c opts) [ none ↦ true | some e ↦ false ]

verify_each_lem :
    (v : View) (opts : VerifyOptions) (c : Certificate) (certs : List Certificate)
    (last : Option Error)
    → (verify_each v opts (c ∷ certs) last ≡ none) ↔ (has (verifies v opts) (c ∷ certs) ≡ true)
unfolding verify_each
verify_each_lem v opts c [] last = elim (Option-cases (v.verify c opts)) [
  | inl p ↦ ground (arith, p)
  | inr (e, p) ↦ ground (arith, p)
]
verify_each_lem v opts c (d ∷ certs) last = elim (Option-cases (v.verify c opts)) [
  | inl p ↦ ground (arith, p)
  | inr (e, p) ↦ ground (arith, p, verify_each_lem v opts d certs (v.verify c opts))
]

-- Some certificate verifies exactly where the loop has no error, if there is a certificate at all.
pub verify_with_any_lem :
    (v : View) (opts : VerifyOptions) (c : Certificate) (certs : List Certificate)
    → (verify_with_any_certificate v (c ∷ certs) opts ≡ none)
      ↔ (has (verifies v opts) (c ∷ certs) ≡ true)
unfolding verify_with_any_certificate
verify_with_any_lem v opts c certs = verify_each_lem v opts c certs none
