-- ===== src/Config/Sound/Sources.antt =====
-- What the validation of the sources of IBC drips guarantees.
use pour.Prelude.{
  ◌≡◌, ◌≢◌, ◌⊎◌, true, false, ◌&&◌, List, [], ◌∷◌, All, Any, none, arith, inl, inr, Bool-cases,
  String, str_eq, ne_of_test, eq_of_test, eq_iff,
}
use pour.Config.Types.{IbcDripConfig, ChainConfig}
use pour.Config.Validate.{is_empty, has_endpoints}
use pour.Config.Load.{
  is_ibc_only, any_chain, validate_source, validate_sources, validate_ibc_sources,
}
use pour.Config.Checks.{or_else-none, reject-none}

-- No standalone chain that is without a native drip and without endpoints, so that the settings leave it
-- able to send an IBC transfer; whether the chain is enabled is not asked.
abbrev pub CanSend : ChainConfig → Type 0
CanSend s = (s.drip.anonymous ≢ "") ⊎ (s.standalone ≡ false) ⊎ (has_endpoints s ≡ true)

-- The source of an IBC drip is another chain of the configuration, and none of its id is barred.
pub record HasSource (all : List ChainConfig) (id : String) (d : IbcDripConfig) : Type 0 where
  pub not_self : d.source_chain_id ≢ id
  pub listed : Any (λ (s : ChainConfig). s.chain_id ≡ d.source_chain_id) all
  pub can_send : All (λ (s : ChainConfig). s.chain_id ≡ d.source_chain_id → CanSend s) all

any_chain-listed :
    (id : String) (cs : List ChainConfig)
    → any_chain (λ _. true) id cs ≡ true
    → Any (λ (s : ChainConfig). s.chain_id ≡ id) cs
unfolding any_chain
any_chain-listed id [] h = absurd (ground arith)
any_chain-listed id (c ∷ cs) h = elim (Bool-cases (str_eq c.chain_id id)) [
  | inl e ↦ inl (eq_of_test c.chain_id id e)
  | inr e ↦ inr (any_chain-listed id cs (rw e at h))
]

CanSend-of_test : (c : ChainConfig) → is_ibc_only c ≡ false → CanSend c
unfolding is_ibc_only
CanSend-of_test c h = elim (Bool-cases (is_empty c.drip.anonymous)) [
  | inr e ↦ inl (ne_of_test _ _ e)
  | inl e ↦ elim (Bool-cases c.standalone) [
    | inr r ↦ inr (inl r)
    | inl r ↦ elim (Bool-cases (has_endpoints c)) [
      | inl p ↦ inr (inr p)
      | inr p ↦ absurd (ground arith)
    ]
  ]
]

any_chain-CanSend :
    (id : String) (cs : List ChainConfig)
    → any_chain is_ibc_only id cs ≡ false
    → All (λ (s : ChainConfig). s.chain_id ≡ id → CanSend s) cs
unfolding any_chain
any_chain-CanSend id [] h = tt
any_chain-CanSend id (c ∷ cs) h =
    let this : str_eq c.chain_id id && is_ibc_only c ≡ false = ground arith in
    let others : any_chain is_ibc_only id cs ≡ false = ground arith in
    (
      λ same. CanSend-of_test c (rw ((eq_iff c.chain_id id).1 same) at this),
      any_chain-CanSend id cs others,
    )

validate_sources-HasSource :
    (all : List ChainConfig) (id : String) (ds : List IbcDripConfig)
    → validate_sources all id ds ≡ none
    → All (HasSource all id) ds
unfolding validate_sources validate_source
validate_sources-HasSource all id [] h = tt
validate_sources-HasSource all id (d ∷ ds) h =
    let (one, rest) = or_else-none _ _ h in
    let (_, h1) = or_else-none _ _ one in
    let (self, h2) = or_else-none _ _ h1 in
    let (found, sends) = or_else-none _ _ h2 in
    let found_is : any_chain (λ _. true) d.source_chain_id all ≡ true =
      elim (Bool-cases (any_chain (λ _. true) d.source_chain_id all)) [
        | inl e ↦ e
        | inr e ↦ cc (rw e at (reject-none _ _ found))
      ] in
    (
      record {
        not_self = ne_of_test d.source_chain_id id (reject-none _ _ self);
        listed = any_chain-listed d.source_chain_id all found_is;
        can_send = any_chain-CanSend d.source_chain_id all (reject-none _ _ sends);
      },
      validate_sources-HasSource all id ds rest,
    )

pub validate_ibc_sources-HasSource :
    (all cs : List ChainConfig)
    → validate_ibc_sources all cs ≡ none
    → All (λ (c : ChainConfig). All (HasSource all c.chain_id) c.ibc.drips) cs
unfolding validate_ibc_sources
validate_ibc_sources-HasSource all [] h = tt
validate_ibc_sources-HasSource all (c ∷ cs) h =
    let (one, rest) = or_else-none _ _ h in
    (
      validate_sources-HasSource all c.chain_id c.ibc.drips one,
      validate_ibc_sources-HasSource all cs rest,
    )
