-- ===== src/DataSync/Validation.antt =====
-- pkg/operator/datasync/validation.go: the checks of certificates and keys. Times are nanoseconds;
-- the decoding of PEM, of certificates and of keys are parameters.
use cluster_authentication_o.Base.{
  ℕ, String, ◌≡◌, refl, ◌≢◌, false, List, [], ◌∷◌, ◌++◌, Error, errorf, wrapf, Result, ok, err,
  is_empty, ltb, if◌then◌else◌, has, arith, ◌≤◌, All, ◌==◌, ◌↔◌, inl, inr, Bool-cases, Result-cases,
  List-cases,
}

-- the parts of an x509.Certificate that the code reads
pub record Certificate : Type 0 where
  pub not_before : ℕ
  pub not_after : ℕ
  pub ext_key_usage : List String
  pub raw : String

pub record Crypto : Type 0 where
  -- the bytes of the blocks that pem.Decode finds, one after the other
  pub pem_blocks : String → List String
  pub parse_certificate : String → Result Certificate
  -- keyutil.ParsePrivateKeyPEM
  pub parse_private_key : String → Result (Unit {0})
  pub now : ℕ

module _ (crypto : Crypto) where
  -- one block of the loop: a certificate that is in its period, or the error of the block
  unfoldable pub check_block : String → Result Certificate
  check_block block = elim (crypto.parse_certificate block) [
    | err e ↦ err (wrapf "failed to parse a certificate in the chain: %w" [] e)
    | ok c ↦
        if ltb crypto.now c.not_before
        then err (errorf "certificate not yet valid:\n\tsub=%s;\n\tiss=%s" [])
        else if ltb c.not_after crypto.now
        then err (errorf "certificate expired:\n\tsub=%s;\n\tiss=%s" [])
        else ok c
  ]

  -- the loop: certificates and errors, each in the order of the blocks
  unfoldable pub parse_blocks : List String → List Certificate × List Error
  parse_blocks [] = ([], [])
  parse_blocks (b ∷ bs) =
      let rest = parse_blocks bs in
      elim (check_block b) [ ok c ↦ (c ∷ rest.0, rest.1) | err e ↦ (rest.0, e ∷ rest.1) ]

  unfoldable pub parse_certs : String → List Certificate × List Error
  parse_certs pem =
      if is_empty pem
      then ([], errorf "required certificate is empty" [] ∷ [])
      else parse_blocks (crypto.pem_blocks pem)

  client_cert_errors : List Certificate → List Error
  client_cert_errors (c ∷ []) =
      if has (λ u. u == "ClientAuth") c.ext_key_usage
      then []
      else errorf "expected the certificate to containe client authentication EKU" [] ∷ []
  client_cert_errors _ = errorf "expected a single client certificate, got %d" [] ∷ []

  unfoldable pub validate_client_cert : String → List Error
  unfolding client_cert_errors
  validate_client_cert pem = let (certs, errs) = parse_certs pem in errs ++ client_cert_errors certs

  some_certificate : Error → List Certificate → List Error
  some_certificate e [] = e ∷ []
  some_certificate e (c ∷ certs) = []

  unfoldable pub validate_server_cert : String → List Error
  unfolding some_certificate
  validate_server_cert pem =
      let (certs, errs) = parse_certs pem in
      errs ++ some_certificate (errorf "expected at least one server certificate" []) certs

  unfoldable pub validate_ca_certs : String → List Error
  unfolding some_certificate
  validate_ca_certs pem =
      let (certs, errs) = parse_certs pem in
      errs ++ some_certificate (errorf "no certificates found" []) certs

  unfoldable pub validate_private_key : String → List Error
  validate_private_key pem_key =
      if is_empty pem_key
      then errorf "required private key is empty" [] ∷ []
      else elim (crypto.parse_private_key pem_key) [
        | ok _ ↦ []
        | err e ↦ errorf "failed to parse the private key" [] ∷ []
      ]

  -- A block of the PEM text that is a certificate in its period.
  abbrev pub IsCurrent : String → Type 0
  IsCurrent block =
      (c : Certificate) × (crypto.parse_certificate block ≡ ok c)
      × (c.not_before ≤ crypto.now)
      × (crypto.now ≤ c.not_after)

  block-IsCurrent : (b : String) (c : Certificate) → check_block b ≡ ok c → IsCurrent b
  unfolding check_block
  block-IsCurrent b c h = (c, ground arith, ground arith, ground arith)

  current_block : (b : String) (i : IsCurrent b) → check_block b ≡ ok i.0
  unfolding check_block
  current_block b (c, p, from, to) = ground arith

  blocks-IsCurrent : (bs : List String) → (parse_blocks bs).1 ≡ [] → All IsCurrent bs
  unfolding parse_blocks
  blocks-IsCurrent [] h = tt
  blocks-IsCurrent (b ∷ bs) h = elim (Result-cases (check_block b)) [
    | inr (e, p) ↦ absurd (ground (arith, p, h))
    | inl (c, p) ↦ (block-IsCurrent b c p, blocks-IsCurrent bs (ground (arith, p, h)))
  ]

  -- Blocks that are all current give their certificates and no error.
  current_blocks :
      (bs : List String)
      → All IsCurrent bs
      → ((parse_blocks bs).1 ≡ []) × (((parse_blocks bs).0 ≡ []) → bs ≡ [])
  unfolding parse_blocks
  current_blocks [] all = (refl, λ e. refl)
  current_blocks (b ∷ bs) all =
      let (none_bad, some_good) = current_blocks bs all.1 in
      (
        ground (arith, current_block b all.0, none_bad),
        λ e. absurd (ground (arith, current_block b all.0, e)),
      )

  append_empty : (xs ys : List Error) → xs ++ ys ≡ [] → (xs ≡ []) × (ys ≡ [])
  append_empty [] ys h = (refl, h)
  append_empty (x ∷ xs) ys h = ground arith

  no_blocks :
      (bs : List String)
      → bs ≡ []
      → some_certificate (errorf "expected at least one server certificate" []) (parse_blocks bs).0
        ≡ []
      → ⊥
  unfolding parse_blocks some_certificate
  no_blocks bs e h = ground (arith, e, h)

  server_sound :
      (pem : String)
      → validate_server_cert pem ≡ []
      → (is_empty pem ≡ false)
        × (crypto.pem_blocks pem ≢ [])
        × All IsCurrent (crypto.pem_blocks pem)
  unfolding validate_server_cert parse_certs
  server_sound pem h = elim (Bool-cases (is_empty pem)) [
    | inl e ↦ absurd (ground (arith, e, h))
    | inr n ↦
        let (clean, filled) =
          append_empty (parse_blocks (crypto.pem_blocks pem)).1
            (some_certificate (errorf "expected at least one server certificate" [])
              (parse_blocks (crypto.pem_blocks pem)).0)
            (ground (arith, n, h)) in
        (
          n,
          λ e. no_blocks (crypto.pem_blocks pem) e filled,
          blocks-IsCurrent (crypto.pem_blocks pem) clean,
        )
  ]

  server_complete :
      (pem : String)
      → (is_empty pem ≡ false)
        × (crypto.pem_blocks pem ≢ [])
        × All IsCurrent (crypto.pem_blocks pem)
      → validate_server_cert pem ≡ []
  unfolding validate_server_cert parse_certs
  server_complete pem (n, filled, all) =
      let (clean, good) = current_blocks (crypto.pem_blocks pem) all in
      elim (List-cases (parse_blocks (crypto.pem_blocks pem)).0) [
        | inl e ↦ absurd (filled (good e))
        | inr (c, cs, e) ↦ ground (arith, n, clean, e)
      ]

  -- A server certificate text passes without an error exactly when it is not empty, has a PEM block,
  -- and each of its blocks is a certificate that parses and whose period contains the present.
  pub server_cert_iff :
      (pem : String)
      → (validate_server_cert pem ≡ []) ↔ (
          (is_empty pem ≡ false)
          × (crypto.pem_blocks pem ≢ [])
          × All IsCurrent (crypto.pem_blocks pem))
  server_cert_iff pem = (server_sound pem, server_complete pem)
