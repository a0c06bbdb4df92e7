-- ===== src/Examples/TlsExamples.antt =====
-- The result on the server's certificates, with files of one certificate each.
use trackward.Prelude.{refl, List, [], ◌∷◌, Bytes, ascii, some}
use trackward.Ledger.Tls.{Rustls, key, load_rustls_config}
use trackward.Ledger.Tls.Trust.{IsMutual, load_rustls_config-IsMutual}

-- A certificate is its text, a store the list of its roots, and a server its verifier's roots.
abbrev toy_rustls : Rustls Bytes Bytes (List Bytes) (List Bytes) (List Bytes)
toy_rustls = record {
  pem_file_iter = λ path. some (some path ∷ []);
  from_pem_file = λ path. key path;
  no_roots = [];
  add = λ store cert. some (cert ∷ store);
  client_verifier = λ store. some store;
  with_single_cert = λ verifier chain k. some verifier;
}

load_rustls_config-IsMutual_example : IsMutual toy_rustls (ascii "ca") (ascii "ca" ∷ [])
unfolding load_rustls_config
load_rustls_config-IsMutual_example =
    load_rustls_config-IsMutual toy_rustls (ascii "cert") (ascii "key") (ascii "ca")
      (ascii "ca" ∷ []) refl
