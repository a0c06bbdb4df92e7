-- ===== src/Examples/Fixtures.antt =====
-- Concrete stand-ins for the other crates' functions, and the test data.
use trackward.Prelude.{
  ℕ, ◌+◌, ◌*◌, ◌%◌, refl, List, [], ◌∷◌, Bytes, ascii, bytes_eq, bytes_eq_refl, replicate, true,
  Option, none, some, pos, IsI64, All, arith,
}
use trackward.ChainCore.Hashing.{Sha256, HashesTo32}
use trackward.ChainCore.CanonicalJson.Syntax.{Value}
use trackward.ChainCore.Encode.{Timestamp, CanonicalField, field, uuid, i64, str}
use trackward.ChainCore.Encode.Values.{IsField}
use trackward.External.{External, IsExternal}

-- A polynomial over the bytes.
abbrev pub checksum : Bytes → ℕ
checksum [] = 7
checksum (b ∷ bs) = (b + 31 * checksum bs) % 65537

abbrev pub checksum_sha256 : Sha256
checksum_sha256 input = replicate 32 (checksum input)

pub checksum_sha256-to32 : HashesTo32 checksum_sha256
checksum_sha256-to32 input = refl

-- The time as a text of one character.
abbrev pub tick_text : Timestamp → Bytes
tick_text t = (48 + t % 10) ∷ []

-- Hex text is the bytes themselves; a signature is a checksum; text parses by a table.
abbrev pub toy_external : (Bytes → Option Value) → External
toy_external parse = record {
  sha256 = checksum_sha256;
  rfc3339 = tick_text;
  uuid_text = λ id. id;
  hex_encode = λ bs. bs;
  hex_decode = some;
  from_str = parse;
  to_vec = λ v. ascii "doc";
  is_key = λ key. true;
  verify = λ key message signature. bytes_eq signature (replicate 64 (checksum message));
  sign = λ secret message. replicate 64 (checksum message);
  public_key = λ secret. replicate 32 (checksum secret);
}

pub toy_external-IsExternal : (parse : Bytes → Option Value) → IsExternal (toy_external parse)
toy_external-IsExternal parse = record {
  to32 = checksum_sha256-to32;
  decode-encode = λ bs. refl;
  length-public_key = λ secret. refl;
  length-sign = λ secret message. refl;
  is_key-public_key = λ secret. refl;
  verify-sign = λ secret message. bytes_eq_refl (replicate 64 (checksum message));
}

abbrev pub no_json : External
no_json = toy_external (λ text. none)

abbrev pub run_a : Bytes
run_a = replicate 16 65

abbrev pub run_b : Bytes
run_b = replicate 16 66

abbrev pub row_id : ℕ → Bytes
row_id n = replicate 16 n

-- The columns of a small event.
abbrev pub event_fields : ℕ → List CanonicalField
event_fields seq =
    field (ascii "seq") (i64 (pos seq))
    ∷ field (ascii "id") (uuid (row_id seq))
    ∷ field (ascii "kind") (str (ascii "note"))
    ∷ []

pub event_fields-IsField : (seq : ℕ) → IsI64 (pos seq) → All IsField (event_fields seq)
event_fields-IsField seq small = (
  record { short_name = omega arith; typed = small },
  (
    record { short_name = omega arith; typed = refl },
    (record { short_name = omega arith; typed = tt }, tt),
  ),
)
