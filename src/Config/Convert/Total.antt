-- ===== src/Config/Convert/Total.antt =====
-- The conversions of an accepted configuration succeed, and cover its chains.
use pour.Prelude.{
  ℕ, ◌≡◌, true, false, List, [], ◌∷◌, Option, none, some, ok, err, String, string_dec,
}
use mathlib.Core.Logic.{ite}
use mathlib.Core.List.{map}
use pour.Prelude.Dict.{lookup}
use pour.Registry.Types.{Decimals, ChainInfo, ChainOverride}
use pour.Registry.State.{OverrideSet}
use pour.Config.Types.{Parsers, ChainConfig, ChainsConfig}
use pour.Config.Convert.{chain_override, block_time_of, to_override_set, to_standalone_infos}

-- The block time that is read where it can be.
abbrev pub block_time : Parsers → ChainConfig → Option ℕ
block_time P c = elim (block_time_of P c.chain_id c.block_time) [ ok t ↦ t | err _ ↦ none ]

-- The last chain of the list that is to be found in the registry under the id.
abbrev pub last_registry : String → List ChainConfig → Option ChainConfig
last_registry id [] = none
last_registry id (c ∷ cs) = elim (last_registry id cs) [
  | some d ↦ some d
  | none ↦ elim c.standalone [ true ↦ none | false ↦ ite (string_dec id c.chain_id) (some c) none ]
]

-- What a map of overrides holds under an id, with what it held before.
abbrev pub expected : Parsers → Option ChainConfig → Option ChainOverride → Option ChainOverride
expected P none before = before
expected P (some c) before = some (chain_override c (block_time P c))

abbrev pub standalone_ids : List ChainConfig → List String
standalone_ids [] = []
standalone_ids (c ∷ cs) = elim c.standalone [
  | true ↦ c.chain_id ∷ standalone_ids cs
  | false ↦ standalone_ids cs
]

-- What is handed to the registry store.
pub record Converted (P : Parsers) (D : Decimals) (cfg : ChainsConfig) : Type 0 where
  pub overrides : OverrideSet
  pub overrides_given : to_override_set P cfg ≡ ok overrides
  pub covers :
      (id : String) → lookup string_dec id overrides ≡ expected P (last_registry id cfg.chains) none
  pub infos : List (ChainInfo D.Decimal)
  pub infos_given : to_standalone_infos P D cfg.chains ≡ ok infos
  pub info_ids : map (λ (i : ChainInfo D.Decimal). i.chain_id) infos ≡ standalone_ids cfg.chains
