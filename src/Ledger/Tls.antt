-- ===== src/Ledger/Tls.antt =====
-- services/ledger/src/tls.rs: the server's certificates. What rustls reads and builds is a parameter,
-- its types included.
pub mod Trust
use trackward.Prelude.{
  ℕ, suc, ◌+◌, List, [], ◌∷◌, Bytes, ascii, Bool, not, ltb, ◌==◌, length, Option, none, some,
  Result, ok, err, ◌>>=◌, ◌>>◌, guard, if◌then◌else◌,
}
use trackward.Verifier.Bundle.{ok_or, unwrap_or, and_then}
use trackward.Gateway.Config.{Env, TlsPaths, tls_from_env, non_empty}

-- The arms that the loader returns; the texts of the errors are left out.
pub data TlsError : Type 0 where
  parse empty_cert_chain no_private_key verifier_failed server_config_failed : TlsError

-- `PrivateKeyDer::from_pem_file`
pub data PemKey (Key : Type 0) : Type 0 where
  key : Key → PemKey Key
  no_items_found malformed : PemKey Key

-- What the loader takes from rustls.
pub record Rustls (Cert Key Store Verifier Server : Type 0) : Type 0 where
  -- `CertificateDer::pem_file_iter`: the file can be read, and each of its items can
  pub pem_file_iter : (path : Bytes) → Option (List (Option Cert))
  pub from_pem_file : (path : Bytes) → PemKey Key
  -- `RootCertStore::empty`, `RootCertStore::add`
  pub no_roots : Store
  pub add : Store → Cert → Option Store
  -- `WebPkiClientVerifier::builder(..).build()`
  pub client_verifier : Store → Option Verifier
  -- `with_client_cert_verifier(..).with_single_cert(..)`
  pub with_single_cert : Verifier → List Cert → Key → Option Server

module _ {Cert Key Store Verifier Server : Type 0} (r : Rustls Cert Key Store Verifier Server) where
  -- `collect::<Result<Vec<_>, _>>()`
  unfoldable pub collect_certs : List (Option Cert) → Result TlsError (List Cert)
  collect_certs [] = ok []
  collect_certs (item ∷ items) = do
    cert ← ok_or parse item
    certs ← collect_certs items
    ok (cert ∷ certs)

  unfoldable pub read_cert_chain : (path : Bytes) → Result TlsError (List Cert)
  unfolding collect_certs
  read_cert_chain path = do items ← ok_or parse (r.pem_file_iter path); collect_certs items

  abbrev pub key_or_error : PemKey Key → Result TlsError Key
  key_or_error (key k) = ok k
  key_or_error no_items_found = err no_private_key
  key_or_error malformed = err parse

  unfoldable pub read_private_key : (path : Bytes) → Result TlsError Key
  read_private_key path = key_or_error (r.from_pem_file path)

  -- The loop of `read_client_ca`, with the number of certificates that were added.
  unfoldable pub add_roots : Store → (added : ℕ) → List (Option Cert) → Result TlsError (Store × ℕ)
  add_roots store added [] = ok (store, added)
  add_roots store added (item ∷ items) = do
    cert ← ok_or parse item
    store' ← ok_or verifier_failed (r.add store cert)
    add_roots store' (added + 1) items

  unfoldable pub read_client_ca : (path : Bytes) → Result TlsError Store
  unfolding add_roots
  read_client_ca path = do
    items ← ok_or parse (r.pem_file_iter path)
    (store, added) ← add_roots r.no_roots 0 items
    guard (not (added == 0)) empty_cert_chain
    ok store

  unfoldable pub load_rustls_config :
      (cert_path key_path client_ca_path : Bytes) → Result TlsError Server
  unfolding read_cert_chain read_private_key read_client_ca
  load_rustls_config cert_path key_path client_ca_path = do
    cert_chain ← read_cert_chain cert_path
    guard (not (length cert_chain == 0)) empty_cert_chain
    k ← read_private_key key_path
    client_roots ← read_client_ca client_ca_path
    verifier ← ok_or verifier_failed (r.client_verifier client_roots)
    ok_or server_config_failed (r.with_single_cert verifier cert_chain k)
