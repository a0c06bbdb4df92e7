-- ===== src/Examples/ChainCoreExamples.antt =====
-- The results on crates/chain-core at concrete rows and row hashes.
use mathlib.Core.List.{Permᴰ}
use mathlib.Core.Option
use trackward.Prelude.{
  ◌≡◌, refl, ◌⊎◌, List, [], ◌∷◌, Bytes, ascii, bytes_eq, some, replicate, All, lex_le, arith,
}
use trackward.ChainCore.Hashing.{Hash, Collision}
use trackward.ChainCore.Encode.{CanonicalField, canonical_row_bytes, sort_by_name}
use trackward.ChainCore.Encode.Values.{IsField}
use trackward.ChainCore.Encode.Order.{canonical_row_bytes-perm}
use trackward.ChainCore.Encode.Binding.{SameFields, canonical_row_bytes_injective}
use trackward.ChainCore.Merkle.{leaf_hash, node_hash, compute_root}
use trackward.ChainCore.Merkle.Tree.{tree_hash, merkle_tree, Extends, compute_root-merkle_tree}
use trackward.ChainCore.Merkle.Rounds.{compute_root_total}
use trackward.ChainCore.Merkle.Binding.{compute_root-Extends}
use trackward.Examples.Fixtures.{
  checksum_sha256, checksum_sha256-to32, tick_text, event_fields, event_fields-IsField,
}

abbrev events_table : Bytes
events_table = ascii "events"

abbrev reordered : List CanonicalField
reordered = elim (event_fields 1) [ f ∷ g ∷ fs ↦ g ∷ f ∷ fs | fs ↦ fs ]

reordered-IsField : All IsField reordered
reordered-IsField =
    let typed = event_fields-IsField 1 (omega arith) in (typed.1.0, (typed.0, typed.1.1))

canonical_row_bytes_injective_example :
    (events_table ≡ events_table)
    × SameFields tick_text (sort_by_name (event_fields 1)) (sort_by_name reordered)
unfolding canonical_row_bytes lex_le bytes_eq
canonical_row_bytes_injective_example =
    canonical_row_bytes_injective tick_text events_table events_table (event_fields 1) reordered
      (event_fields-IsField 1 (omega arith)) reordered-IsField refl refl

canonical_row_bytes-perm_example :
    canonical_row_bytes tick_text events_table (event_fields 1)
    ≡ canonical_row_bytes tick_text events_table reordered
canonical_row_bytes-perm_example =
    canonical_row_bytes-perm tick_text events_table {fs = event_fields 1} {gs = reordered}
      ∣ Permᴰ.swap refl refl ∣₁

abbrev three_hashes : List Hash
three_hashes = replicate 32 1 ∷ replicate 32 2 ∷ replicate 32 3 ∷ []

abbrev padded_hashes : List Hash
padded_hashes = replicate 32 1 ∷ replicate 32 2 ∷ replicate 32 3 ∷ replicate 32 3 ∷ []

compute_root-merkle_tree_example :
    compute_root checksum_sha256 three_hashes
    ≡ Option.map (tree_hash checksum_sha256) (merkle_tree three_hashes)
compute_root-merkle_tree_example = compute_root-merkle_tree checksum_sha256 three_hashes

compute_root_total_example : (root : Hash) × (compute_root checksum_sha256 three_hashes ≡ some root)
compute_root_total_example = compute_root_total checksum_sha256 three_hashes (omega arith)

-- The root is the same when the last hash is repeated.
compute_root-Extends_example :
    (Extends three_hashes padded_hashes ⊎ Extends padded_hashes three_hashes)
    ⊎ Collision checksum_sha256
unfolding compute_root leaf_hash node_hash
compute_root-Extends_example =
    compute_root-Extends checksum_sha256 checksum_sha256-to32 three_hashes padded_hashes
      (omega arith) refl
