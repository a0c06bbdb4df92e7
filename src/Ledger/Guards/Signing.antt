-- ===== src/Ledger/Guards/Signing.antt =====
-- What a loaded signing service signs with.
use trackward.Prelude.{
  ◌≡◌, refl, sym, ap, ◌∙◌, subst, ◌⊎◌, inl, inr, Bytes, ascii, Bool, true, false, ◌==◌, length,
  Option, none, some, Result, ok, err, ◌>>=◌, >>=-eq-ok, guard, ◌>>◌, guard-eq-ok, ==_iff,
  if◌then◌else◌, bytes_eq,
}
use trackward.Prelude.Text.{trim}
use trackward.Verifier.Bundle.{ok_or}
use trackward.External.{External, IsExternal}
use trackward.Ledger.Anchoring.{SigningService}
use trackward.Ledger.Guards.{
  signing_key, load, SigningError, key_required_in_production, not_hex, wrong_length,
}

module _ (x : External) (lawful : IsExternal x) where
  -- A signing service that was loaded publishes the public half of its own key: the published text
  -- decodes to it, the key id is the digest of it, and every signature verifies under it. A configured
  -- key is the 32 bytes that its text decodes to; without one there is a service outside production only.
  pub load-verify :
      (generated env : Bytes) (key_hex : Option Bytes) (service : SigningService)
      → load x generated env key_hex ≡ ok service
      → (x.hex_decode service.public_key_hex ≡ some (x.public_key service.secret))
        × (service.key_id ≡ x.hex_encode (x.sha256 (x.public_key service.secret)))
        × ((message : Bytes)
            → x.verify (x.public_key service.secret) message (x.sign service.secret message) ≡ true)
        × (((hex_str : Bytes) × (key_hex ≡ some hex_str)
              × (x.hex_decode (trim hex_str) ≡ some service.secret)
              × (length service.secret ≡ 32))
            ⊎ ((key_hex ≡ none)
                × (service.secret ≡ generated)
                × (bytes_eq env (ascii "production") ≡ false)))
  unfolding load signing_key
  load-verify generated env key_hex service h =
      let (secret, found, made) = >>=-eq-ok (signing_key x generated env key_hex) _ h in
      subst HasKey (ap value made) (
        lawful.decode-encode (x.public_key secret),
        refl,
        lawful.verify-sign secret,
        of_key key_hex secret found,
      )
    where
      IsKey : Option Bytes → Bytes → Type 0
      IsKey key_hex secret =
          ((hex_str : Bytes) × (key_hex ≡ some hex_str)
            × (x.hex_decode (trim hex_str) ≡ some secret)
            × (length secret ≡ 32))
          ⊎ ((key_hex ≡ none) × (secret ≡ generated) × (bytes_eq env (ascii "production") ≡ false))

      HasKey : SigningService → Type 0
      HasKey service =
          (x.hex_decode service.public_key_hex ≡ some (x.public_key service.secret))
          × (service.key_id ≡ x.hex_encode (x.sha256 (x.public_key service.secret)))
          × ((message : Bytes)
              → x.verify (x.public_key service.secret) message (x.sign service.secret message)
                ≡ true)
          × IsKey key_hex service.secret

      value : Result SigningError SigningService → SigningService
      value (ok s) = s
      value (err e) = service

      outside :
          (b : Bool) (secret : Bytes)
          → (if b then err key_required_in_production else ok generated) ≡ ok secret
          → (secret ≡ generated) × (b ≡ false)
      outside true secret h = cc
      outside false secret h = (cc, refl)

      of_key :
          (key_hex : Option Bytes) (secret : Bytes)
          → signing_key x generated env key_hex ≡ ok secret
          → IsKey key_hex secret
      of_key none secret h =
          let (same, dev) = outside (bytes_eq env (ascii "production")) secret h in
          inr (refl, same, dev)
      of_key (some hex_str) secret h = on (x.hex_decode (trim hex_str)) refl h
        where
          on :
              (o : Option Bytes)
              → x.hex_decode (trim hex_str) ≡ o
              → (ok_or not_hex o >>= λ bytes.
                  guard (length bytes == 32) (wrong_length (length bytes)) >> ok bytes)
                ≡ ok secret
              → IsKey (some hex_str) secret
          on none e h = cc
          on (some bytes) e h =
              let (long, made) = guard-eq-ok (length bytes == 32) _ (ok bytes) h in
              let same : bytes ≡ secret = cc in
              inl (
                hex_str,
                refl,
                e ∙ ap some same,
                ap length (sym same) ∙ (==_iff (length bytes) 32).0 long,
              )
