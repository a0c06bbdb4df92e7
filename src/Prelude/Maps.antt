-- ===== src/Prelude/Maps.antt =====
-- A map as an association list: `get`, `remove`, and `insert`.
use mathlib.Core.Option.{Option, none, some}
use mathlib.Core.List.{List, [], ◌∷◌}
use trackward.Prelude.Tests.{if◌then◌else◌}
use trackward.Prelude.ByteStrings.{Bytes, bytes_eq}

unfoldable pub lookup {ℓ} : {A : Type ℓ} → Bytes → List (Bytes × A) → Option A
lookup id [] = none
lookup id ((k, a) ∷ kas) = if bytes_eq k id then some a else lookup id kas

unfoldable pub remove {ℓ} : {A : Type ℓ} → Bytes → List (Bytes × A) → List (Bytes × A)
remove id [] = []
remove id ((k, a) ∷ kas) = let rest = remove id kas in if bytes_eq k id then rest else (k, a) ∷ rest

unfoldable pub update {ℓ} : {A : Type ℓ} → Bytes → A → List (Bytes × A) → List (Bytes × A)
unfolding remove
update id a kas = (id, a) ∷ remove id kas
