-- ===== src/Manager/Rounds.antt =====
-- The loop of `reconcile` over the enabled chains, round by round.
use pour.Prelude.{
  ◌≡◌, sym, ap, ◌∙◌, Bool, true, false, List, [], ◌∷◌, Option, none, some, String, string_dec,
  subst, if◌then◌else◌,
}
use mathlib.Core.Logic.{if_pos, if_neg}
use pour.Prelude.Dict.{
  lookup, insert, lookup-insert_self, lookup-insert_ne, NodupKeys, NodupKeys-insert,
}
use pour.Registry.Types.{ChainInfo}
use pour.Chain.Open.{Clients, OpenChain, OpenError}
use pour.Config.Types.{Parsers}
use pour.Manager.Reconcile.{Manager, Connections, enabled_of, drip_for, open_enabled}
use pour.Manager.Round.{SameClient, IsCurrent, open_enabled-Round}

NodupKeys-if :
    {V : Type 0} (b : Bool) (x y : List (String × V))
    → NodupKeys string_dec x
    → NodupKeys string_dec y
    → NodupKeys string_dec (if b then x else y)
NodupKeys-if true x y h k = h
NodupKeys-if false x y h k = k

pub enabled_of-NodupKeys :
    {Decimal : Type 0} (chains : List (String × ChainInfo Decimal))
    → NodupKeys string_dec (enabled_of chains)
unfolding enabled_of
enabled_of-NodupKeys [] = tt
enabled_of-NodupKeys ((k, info) ∷ rest) =
    NodupKeys-if info.enabled _ _
      (NodupKeys-insert string_dec info.chain_id info (enabled_of rest) (enabled_of-NodupKeys rest))
      (enabled_of-NodupKeys rest)

module _ (P : Parsers) {Decimal : Type 0} (X : Clients Decimal) where
  open X use {World, Client, close}

  -- A key that is not enabled is active as before.
  pub open_enabled-absent :
      (id : String) (rest : List (String × ChainInfo Decimal))
      (active : List (String × OpenChain Decimal Client)) (m m' : Manager Decimal Client)
      (s s' : Connections World Client)
      → open_enabled P X rest active m s ≡ (none, m', s')
      → lookup string_dec id rest ≡ none
      → (lookup string_dec id m'.chains ≡ lookup string_dec id active)
  unfolding open_enabled
  open_enabled-absent id [] active m m' s s' h absent =
      ap
        (λ (r : Option OpenError × Manager Decimal Client × Connections World Client).
          lookup string_dec id r.1.chains)
        (sym h)
  open_enabled-absent id ((k, info) ∷ rest) active m m' s s' h absent =
      let r = open_enabled-Round P X k info rest active m m' s s' h in
      elim (string_dec id k) [
        | yes p ↦ cc (rw (if_pos _ p) at absent)
        | no p ↦
            open_enabled-absent id rest (insert string_dec k r.chain active) r.manager m'
              r.connections s' r.continues (rw (if_neg _ p) at absent)
            ∙ lookup-insert_ne string_dec id k r.chain active p
      ]

  -- No client is closed in a loop without an error.
  pub open_enabled-closed :
      (rest : List (String × ChainInfo Decimal)) (active : List (String × OpenChain Decimal Client))
      (m m' : Manager Decimal Client) (s s' : Connections World Client)
      → open_enabled P X rest active m s ≡ (none, m', s')
      → s'.closed ≡ s.closed
  unfolding open_enabled
  open_enabled-closed [] active m m' s s' h =
      ap (λ (r : Option OpenError × Manager Decimal Client × Connections World Client). r.2.closed)
        (sym h)
  open_enabled-closed ((k, info) ∷ rest) active m m' s s' h =
      let r = open_enabled-Round P X k info rest active m m' s s' h in
      open_enabled-closed rest (insert string_dec k r.chain active) r.manager m' r.connections s'
        r.continues
      ∙ r.none_closed

  IsCurrent-before :
      (m1 m : Manager Decimal Client) (id : String) (info : ChainInfo Decimal)
      (c : OpenChain Decimal Client)
      → m1.drips ≡ m.drips
      → (SameClient P X (lookup string_dec id m1.chains) c
          → SameClient P X (lookup string_dec id m.chains) c)
      → IsCurrent P X m1 id info c
      → IsCurrent P X m id info c
  unfolding drip_for
  IsCurrent-before m1 m id info c drips clients i = record {
    info_is = i.info_is;
    drip_is = i.drip_is ∙ rw drips;
    client_is = clients i.client_is;
  }

  pub open_enabled-IsCurrent :
      (id : String) (current : ChainInfo Decimal) (rest : List (String × ChainInfo Decimal))
      (active : List (String × OpenChain Decimal Client)) (m m' : Manager Decimal Client)
      (s s' : Connections World Client)
      → NodupKeys string_dec rest
      → open_enabled P X rest active m s ≡ (none, m', s')
      → lookup string_dec id rest ≡ some current
      → (c : OpenChain Decimal Client) × (lookup string_dec id m'.chains ≡ some c)
        × IsCurrent P X m id current c
  open_enabled-IsCurrent id current [] active m m' s s' once h found = cc
  open_enabled-IsCurrent id current ((k, info) ∷ rest) active m m' s s' (fresh, once) h found =
      let r = open_enabled-Round P X k info rest active m m' s s' h in
      elim (string_dec id k) [
        | yes p ↦
            (let info_is : info ≡ current = cc (rw (if_pos _ p) at found) in
              let left =
                open_enabled-absent id rest (insert string_dec k r.chain active) r.manager m'
                  r.connections s' r.continues (rw p fresh) in
              (
                r.chain,
                left ∙ rw p (lookup-insert_self string_dec k r.chain active),
                subst (λ i. IsCurrent P X m id i r.chain) info_is (rw p r.current),
              ))
        | no p ↦
            (let (c, there, is) =
                open_enabled-IsCurrent id current rest (insert string_dec k r.chain active)
                  r.manager m' r.connections s' once r.continues (rw (if_neg _ p) at found) in
              (
                c,
                there,
                IsCurrent-before r.manager m id current c r.drips_kept (r.clients_kept id c) is,
              ))
      ]
