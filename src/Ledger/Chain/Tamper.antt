-- ===== src/Ledger/Chain/Tamper.antt =====
-- Tamper evidence: two chains that verify and end in one hash have the same rows.
use trackward.Prelude.{◌≡◌, refl, sym, ap, ◌∙◌, ◌⊎◌, inl, inr, List, [], ◌∷◌, Bytes, ok, All}
use mathlib.Core.List.{head-eq_of_cons-eq, tail-eq_of_cons-eq}
use trackward.ChainCore.Hashing.{Sha256, HashesTo32}
use trackward.ChainCore.Chain.{compute_row_hash}
use trackward.ChainCore.Chain.Evidence.{tail_hash, Broken, tail_hash_injective}
use trackward.ChainCore.Encode.{Rfc3339, sort_by_name}
use trackward.ChainCore.Encode.Values.{IsField}
use trackward.ChainCore.Encode.Binding.{SameFields, canonical_row_bytes_injective}
use trackward.Ledger.Db.{Table}
use trackward.Ledger.Chain.{ChainTable, table_name}
use trackward.Ledger.Chain.Spec.{head_hash, or_genesis, IsChain}

module _ (sha256 : Sha256) (rfc3339 : Rfc3339) (table : ChainTable) where
  -- The encoded rows of a chain, the newest first.
  abbrev row_texts : (c : Table) → IsChain sha256 rfc3339 table c → List Bytes
  row_texts [] chain = []
  row_texts (r ∷ rs) chain = chain.0.row_bytes ∷ row_texts rs chain.1

  head_hash-tail_hash :
      (c : Table) (chain : IsChain sha256 rfc3339 table c)
      → or_genesis (head_hash c) ≡ tail_hash sha256 (row_texts c chain)
  head_hash-tail_hash [] chain = refl
  head_hash-tail_hash (r ∷ rs) chain =
      chain.0.hashed
      ∙ ap (λ p. compute_row_hash sha256 p chain.0.row_bytes)
          (ap or_genesis chain.0.follows ∙ head_hash-tail_hash rs chain.1)

  -- Row by row, the same columns with the same content.
  abbrev pub SameRows : Table → Table → Type 0
  SameRows [] [] = Unit
  SameRows (r ∷ rs) (s ∷ ss) =
      SameFields rfc3339 (sort_by_name r.fields) (sort_by_name s.fields) × SameRows rs ss
  SameRows _ _ = ⊥

  -- Every column of every row has a name of at most 65535 bytes.
  abbrev pub HasFields : Table → Type 0
  HasFields = All (λ r. All IsField r.fields)

  same_texts :
      (c d : Table) (chain : IsChain sha256 rfc3339 table c)
      (chain' : IsChain sha256 rfc3339 table d)
      → HasFields c
      → HasFields d
      → row_texts c chain ≡ row_texts d chain'
      → SameRows c d
  same_texts [] [] chain chain' hc hd e = tt
  same_texts [] (s ∷ ss) chain chain' hc hd e = cc e
  same_texts (r ∷ rs) [] chain chain' hc hd e = cc e
  same_texts (r ∷ rs) (s ∷ ss) chain chain' hc hd e =
      let texts = head-eq_of_cons-eq e in
      (
        (canonical_row_bytes_injective rfc3339 (table_name table) (table_name table) r.fields
            s.fields hc.0 hd.0 chain.0.encoded (chain'.0.encoded ∙ ap ok (sym texts))).1,
        same_texts rs ss chain.1 chain'.1 hc.1 hd.1 (tail-eq_of_cons-eq e),
      )

  -- Two chains that an auditor accepts and that end in the same hash have as many rows, and row by row
  -- the same hashed columns: the same names, types and values, JSON up to its canonical text and times
  -- up to their RFC 3339 text; otherwise SHA-256 is broken. No name of a column has more than 65535
  -- bytes, and values fit their types. What is not hashed is not bound, such as `created_at`.
  pub IsChain-tamper_evident :
      (c d : Table)
      → HashesTo32 sha256
      → HasFields c
      → HasFields d
      → IsChain sha256 rfc3339 table c
      → IsChain sha256 rfc3339 table d
      → head_hash c ≡ head_hash d
      → SameRows c d ⊎ Broken sha256
  IsChain-tamper_evident c d to32 hc hd chain chain' e =
      elim (tail_hash_injective sha256 to32 (row_texts c chain) (row_texts d chain')
        (sym (head_hash-tail_hash c chain) ∙ ap or_genesis e ∙ head_hash-tail_hash d chain')) [
          | inl same ↦ inl (same_texts c d chain chain' hc hd same)
          | inr broken ↦ inr broken
        ]
