-- ===== src/Ledger/Tls/Trust.antt =====
-- A server that was configured asks its clients for certificates of the operator's own authorities.
use trackward.Prelude.{
  ℕ, ◌+◌, ◌≤◌, ◌≡◌, refl, ap, ap₂, ◌∙◌, List, [], ◌∷◌, Bytes, true, not, ◌==◌, length, map, Option,
  none, some, Result, ok, err, >>=-eq-ok, guard-eq-ok, arith,
}
use trackward.Verifier.Bundle.{ok_or, and_then}
use trackward.Ledger.Tls.{
  TlsError, parse, empty_cert_chain, verifier_failed, server_config_failed, Rustls, add_roots,
  read_cert_chain, read_private_key, read_client_ca, load_rustls_config,
}

module _ {Cert Key Store Verifier Server : Type 0} (r : Rustls Cert Key Store Verifier Server) where
  ok_or-eq-ok : {A : Type 0} (e : TlsError) (o : Option A) (a : A) → ok_or e o ≡ ok a → o ≡ some a
  ok_or-eq-ok e none a h = cc
  ok_or-eq-ok e (some b) a h = cc

  -- The roots after these certificates were added, in order.
  abbrev pub with_roots : Store → List Cert → Option Store
  with_roots store [] = some store
  with_roots store (c ∷ cs) = and_then (r.add store c) (λ store'. with_roots store' cs)

  state : Result TlsError (Store × ℕ) → Store
  state (ok (s, n)) = s
  state (err e) = r.no_roots

  count_of : Result TlsError (Store × ℕ) → ℕ
  count_of (ok (s, n)) = n
  count_of (err e) = 0

  add_roots-eq-ok :
      (store : Store) (added : ℕ) (items : List (Option Cert)) (store' : Store) (added' : ℕ)
      → add_roots r store added items ≡ ok (store', added')
      → (certs : List Cert) × (items ≡ map some certs)
        × (with_roots store certs ≡ some store')
        × (added' ≡ added + length certs)
  unfolding add_roots state count_of
  add_roots-eq-ok store added [] store' added' h =
      ([], refl, ap some (ap state h), omega (arith, ap count_of h))
  add_roots-eq-ok store added (item ∷ items) store' added' h =
      let (cert, hi, h₁) = >>=-eq-ok (ok_or parse item) _ h in
      let (next, ha, h₂) = >>=-eq-ok (ok_or verifier_failed (r.add store cert)) _ h₁ in
      let (certs, same, roots, count) = add_roots-eq-ok next (added + 1) items store' added' h₂ in
      (
        cert ∷ certs,
        ap₂ ◌∷◌ (ok_or-eq-ok parse item cert hi) same,
        ap (λ o. and_then o (λ s. with_roots s certs))
              (ok_or-eq-ok verifier_failed (r.add store cert) next ha)
            ∙ roots,
        omega (arith, count),
      )

  -- What a server that was built has from its files.
  pub record IsMutual (client_ca_path : Bytes) (server : Server) : Type 0 where
    pub certs : List Cert
    pub roots : Store
    pub verifier : Verifier
    pub chain : List Cert
    pub private_key : Key
    pub from_file : r.pem_file_iter client_ca_path ≡ some (map some certs)
    pub trusted : with_roots r.no_roots certs ≡ some roots
    pub some_authority : 1 ≤ length certs
    pub checks_clients : r.client_verifier roots ≡ some verifier
    pub presents : 1 ≤ length chain
    pub built : r.with_single_cert verifier chain private_key ≡ some server

  not_zero : (n : ℕ) → not (n == 0) ≡ true → 1 ≤ n
  not_zero n h = ground arith

  read_client_ca-eq-ok :
      (path : Bytes) (roots : Store)
      → read_client_ca r path ≡ ok roots
      → (certs : List Cert) × (r.pem_file_iter path ≡ some (map some certs))
        × (with_roots r.no_roots certs ≡ some roots)
        × (1 ≤ length certs)
  unfolding read_client_ca
  read_client_ca-eq-ok path roots h =
      let (items, hi, h₁) = >>=-eq-ok (ok_or parse (r.pem_file_iter path)) _ h in
      let ((store, added), ha, h₂) = >>=-eq-ok (add_roots r r.no_roots 0 items) _ h₁ in
      let (certs, same, built, count) = add_roots-eq-ok r.no_roots 0 items store added ha in
      let (filled, made) = guard-eq-ok (not (added == 0)) empty_cert_chain (ok store) h₂ in
      (
        certs,
        ok_or-eq-ok parse (r.pem_file_iter path) items hi ∙ ap some same,
        built ∙ ap (λ x. some (root_of x)) made,
        omega (arith, count, not_zero added filled),
      )
    where
      root_of : Result TlsError Store → Store
      root_of (ok s) = s
      root_of (err e) = roots

  -- A configuration that loads has a certificate to present and asks clients for one under an authority
  -- of the operator's file, of which there is one at least: nothing else is trusted.
  pub load_rustls_config-IsMutual :
      (cert_path key_path client_ca_path : Bytes) (server : Server)
      → load_rustls_config r cert_path key_path client_ca_path ≡ ok server
      → IsMutual client_ca_path server
  unfolding load_rustls_config
  load_rustls_config-IsMutual cert_path key_path client_ca_path server h =
      let (chain, hc, h₁) = >>=-eq-ok (read_cert_chain r cert_path) _ h in
      let (filled, h₂) = guard-eq-ok (not (length chain == 0)) empty_cert_chain _ h₁ in
      let (k, hk, h₃) = >>=-eq-ok (read_private_key r key_path) _ h₂ in
      let (roots, hr, h₄) = >>=-eq-ok (read_client_ca r client_ca_path) _ h₃ in
      let (verifier, hv, h₅) = >>=-eq-ok (ok_or verifier_failed (r.client_verifier roots)) _ h₄ in
      let (certs, file, trusted, some_one) = read_client_ca-eq-ok client_ca_path roots hr in
      record {
        certs = certs;
        roots = roots;
        verifier = verifier;
        chain = chain;
        private_key = k;
        from_file = file;
        trusted = trusted;
        some_authority = some_one;
        checks_clients = ok_or-eq-ok verifier_failed (r.client_verifier roots) verifier hv;
        presents = not_zero (length chain) filled;
        built = ok_or-eq-ok server_config_failed (r.with_single_cert verifier chain k) server h₅;
      }
