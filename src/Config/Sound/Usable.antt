-- ===== src/Config/Sound/Usable.antt =====
-- What the validation of one chain of a configuration guarantees.
use pour.Prelude.{
  ℕ, ◌+◌, ◌≡◌, ◌≢◌, ◌⊎◌, refl, true, List, [], ◌∷◌, All, Option, none, some, arith, Result, ok,
  Result-cases, inl, inr, Option-cases, Bool-cases, String, ne_of_test, eq_of_test, test_of_ne,
  if◌then◌else◌, subst,
}
use mathlib.Core.Option.{or_else}
use pour.Prelude.Int.{ℤ, pos, ltb_ℤ, pos_part}
use pour.Config.Types.{
  Parsers, IbcDripConfig, ChainConfig, ConfigError, bad_block_time, block_time_not_positive,
}
use pour.Config.Defaults.{
  is_enabled, positive_duration, batch_window_duration, refill_interval_or_default,
}
use pour.Config.Validate.{
  is_empty, error_of, validate_block_time, validate_chain, validate_concurrency_fields,
  validate_drip_block, validate_ibc_drip, validate_ibc_drip_entries,
}
use pour.Config.Load.{with_ibc_defaults, validate_chains}
use pour.Config.Convert.{block_time_of}
use pour.Config.Checks.{or_else-none, reject-none, error_of-none, Parses, bad_coin-none}

-- What is paid out on a chain is given by coins.
pub record HasCoins (P : Parsers) (c : ChainConfig) : Type 0 where
  pub native :
      c.drip.anonymous ≢ "" → Parses P c.drip.anonymous × Parses P c.drip.max_per_address_per_day
  pub over_ibc :
      All
        (λ (d : IbcDripConfig). Parses P d.anonymous × Parses P d.max_per_address_per_day)
        c.ibc.drips

-- What holds of a chain by itself.
pub record IsUsable (P : Parsers) (c : ChainConfig) : Type 0 where
  pub id_given : c.chain_id ≢ ""
  pub block_time : (t : Option ℕ) × (block_time_of P c.chain_id c.block_time ≡ ok t)
  pub window : (c.batch_window ≡ "") ⊎ ((d : ℤ) × (batch_window_duration P c ≡ ok d))
  pub refill : (c.refill_interval ≡ "") ⊎ ((d : ℤ) × (refill_interval_or_default P c ≡ ok d))
  pub threshold : (c.refill_threshold ≡ "") ⊎ Parses P c.refill_threshold
  pub coins : is_enabled c ≡ true → HasCoins P c

-- The timeout of the chain's IBC transfers is readable and positive.
abbrev pub HasTimeout : Parsers → ChainConfig → Type 0
HasTimeout P c = (d : ℤ) × (P.parse_duration c.ibc.timeout ≡ some d) × (ltb_ℤ (pos 0) d ≡ true)

validate_ibc_drip_entries-Parses :
    (P : Parsers) (id : String) (ds : List IbcDripConfig)
    → validate_ibc_drip_entries P id ds ≡ none
    → All (λ (d : IbcDripConfig). Parses P d.anonymous × Parses P d.max_per_address_per_day) ds
unfolding validate_ibc_drip_entries validate_ibc_drip
validate_ibc_drip_entries-Parses P id [] h = tt
validate_ibc_drip_entries-Parses P id (d ∷ ds) h =
    let (one, rest) = or_else-none _ _ h in
    let (_, tail) = or_else-none _ _ one in
    let (anonymous, tail2) = or_else-none _ _ tail in
    let (_, max) = or_else-none _ _ tail2 in
    (
      (bad_coin-none P _ _ anonymous, bad_coin-none P _ _ max),
      validate_ibc_drip_entries-Parses P id ds rest,
    )

validate_drip_block-Parses :
    (P : Parsers) (c : ChainConfig)
    → validate_drip_block P c ≡ none
    → c.drip.anonymous ≢ ""
    → Parses P c.drip.anonymous × Parses P c.drip.max_per_address_per_day
unfolding validate_drip_block
validate_drip_block-Parses P c h given =
    let tests = rw (test_of_ne _ _ given) at h in
    let (anonymous, tail) = or_else-none _ _ tests in
    let (_, max) = or_else-none _ _ tail in (bad_coin-none P _ _ anonymous, bad_coin-none P _ _ max)

enabled-HasCoins :
    (P : Parsers) (c : ChainConfig)
    → (if is_enabled c
        then or_else (validate_drip_block P c) (validate_ibc_drip_entries P c.chain_id c.ibc.drips)
        else none)
      ≡ none
    → is_enabled c ≡ true
    → HasCoins P c
enabled-HasCoins P c h on =
    let (block, entries) = or_else-none _ _ (rw on at h) in
    record {
      native = validate_drip_block-Parses P c block;
      over_ibc = validate_ibc_drip_entries-Parses P c.chain_id c.ibc.drips entries;
    }

block_time_of-ok :
    (P : Parsers) (id t : String) (d : ℤ)
    → positive_duration P (bad_block_time id) (block_time_not_positive id) t ≡ ok d
    → block_time_of P id (some t) ≡ ok (some (pos_part d))
unfolding block_time_of
block_time_of-ok P id t d good = ground arith

validate_block_time-ok :
    (P : Parsers) (id : String) (t : Option String)
    → validate_block_time P id t ≡ none
    → (ns : Option ℕ) × (block_time_of P id t ≡ ok ns)
unfolding block_time_of
validate_block_time-ok P id none h = (none, refl)
validate_block_time-ok P id (some t) h =
    let (d, good) = error_of-none _ h in (some (pos_part d), block_time_of-ok P id t d good)

optional-none {ℓ} :
    {A : Type ℓ} (s : String) (o : Option A)
    → (if is_empty s then none else o) ≡ none
    → (s ≡ "") ⊎ (o ≡ none)
optional-none s o h = elim (Bool-cases (is_empty s)) [
  | inl e ↦ inl (eq_of_test s "" e)
  | inr e ↦ inr (rw e at h)
]

duration_given :
    {A : Type 0} (s : String) (r : Result ConfigError A)
    → (if is_empty s then none else error_of r) ≡ none
    → (s ≡ "") ⊎ ((a : A) × (r ≡ ok a))
duration_given s r h = elim (optional-none s (error_of r) h) [
  | inl e ↦ inl e
  | inr e ↦ inr (error_of-none r e)
]

positive_duration-given :
    (P : Parsers) (bad not_positive : ConfigError) (t : String)
    → error_of (positive_duration P bad not_positive t) ≡ none
    → (d : ℤ) × (P.parse_duration t ≡ some d) × (ltb_ℤ (pos 0) d ≡ true)
positive_duration-given P bad not_positive t h = elim (Option-cases (P.parse_duration t)) [
  | inl e ↦ absurd (ground arith)
  | inr (d, e) ↦ (d, e, ground arith)
]

validate_chain-IsUsable :
    (P : Parsers) (i : ℕ) (c : ChainConfig) → validate_chain P i c ≡ none → IsUsable P c
unfolding validate_chain validate_concurrency_fields
validate_chain-IsUsable P i c h =
    let (id, h1) = or_else-none _ _ h in
    let (block, h2) = or_else-none _ _ h1 in
    let (_, h3) = or_else-none _ _ h2 in
    let (concurrency, h4) = or_else-none _ _ h3 in
    let (_, coins) = or_else-none _ _ h4 in
    let (_, c1) = or_else-none _ _ concurrency in
    let (window, c2) = or_else-none _ _ c1 in
    let (_, c3) = or_else-none _ _ c2 in
    let (_, c4) = or_else-none _ _ c3 in
    let (threshold, interval) = or_else-none _ _ c4 in
    record {
      id_given = ne_of_test c.chain_id "" (reject-none _ _ id);
      block_time = validate_block_time-ok P c.chain_id c.block_time block;
      window = duration_given c.batch_window (batch_window_duration P c) window;
      refill = duration_given c.refill_interval (refill_interval_or_default P c) interval;
      threshold = elim (optional-none c.refill_threshold _ threshold) [
        | inl e ↦ inl e
        | inr e ↦ inr (bad_coin-none P _ _ e)
      ];
      coins = enabled-HasCoins P c coins;
    }

validate_chain-HasTimeout :
    (P : Parsers) (i : ℕ) (c : ChainConfig) → validate_chain P i c ≡ none → HasTimeout P c
unfolding validate_chain
validate_chain-HasTimeout P i c h =
    let (_, h1) = or_else-none _ _ h in
    let (_, h2) = or_else-none _ _ h1 in
    let (timeout, _) = or_else-none _ _ h2 in positive_duration-given P _ _ c.ibc.timeout timeout

-- What the validation of one chain gives holds of all chains, with their defaults.
validate_chains-All :
    (P : Parsers) (Q : ChainConfig → Type 0)
    → ((i : ℕ) (c : ChainConfig) → validate_chain P i c ≡ none → Q c)
    → (i : ℕ) (cs done : List ChainConfig) → validate_chains P i cs ≡ ok done
    → All Q done
unfolding validate_chains
validate_chains-All P Q holds i [] [] h = tt
validate_chains-All P Q holds i [] (c ∷ cs) h = cc
validate_chains-All P Q holds i (c ∷ cs) done h =
    elim (Option-cases (validate_chain P i (with_ibc_defaults P c))) [
      | inr (e, bad) ↦ absurd (ground arith)
      | inl good ↦ elim (Result-cases (validate_chains P (i + 1) cs)) [
        | inr (e, bad) ↦ absurd (ground arith)
        | inl (tail, rest) ↦
            (let done_is : with_ibc_defaults P c ∷ tail ≡ done = ground arith in
              subst (All Q) done_is (
                holds i (with_ibc_defaults P c) good,
                validate_chains-All P Q holds (i + 1) cs tail rest,
              ))
      ]
    ]

pub validate_chains-IsUsable :
    (P : Parsers) (i : ℕ) (cs done : List ChainConfig)
    → validate_chains P i cs ≡ ok done
    → All (IsUsable P) done
validate_chains-IsUsable P = validate_chains-All P (IsUsable P) (validate_chain-IsUsable P)

pub validate_chains-HasTimeout :
    (P : Parsers) (i : ℕ) (cs done : List ChainConfig)
    → validate_chains P i cs ≡ ok done
    → All (HasTimeout P) done
validate_chains-HasTimeout P = validate_chains-All P (HasTimeout P) (validate_chain-HasTimeout P)
