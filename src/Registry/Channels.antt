-- ===== src/Registry/Channels.antt =====
-- pkg/chainregistry/ibc.go and the channels of types.go: the ICS20 channels between two chains.
pub mod Selection
use pour.Prelude.{
  ℕ, suc, Bool, true, false, not, ◌&&◌, ◌||◌, List, [], ◌∷◌, ltb, length, Option, none, some,
  str_eq, if◌then◌else◌, String, ◌⊎◌, inl, inr,
}

pub record IbcChannel : Type 0 where
  pub chain_name_a : String
  pub chain_name_b : String
  pub channel_a : String
  pub channel_b : String
  pub port_a : String
  pub port_b : String
  pub ordering : String
  pub version : String
  pub status : String
  pub preferred : Bool

-- `ChannelFor`: the channel, port and peer on the side of the given chain.
unfoldable pub channel_for : IbcChannel → String → Option (String × String × String)
channel_for c name =
    if str_eq name c.chain_name_a
    then some (c.channel_a, c.port_a, c.chain_name_b)
    else if str_eq name c.chain_name_b
    then some (c.channel_b, c.port_b, c.chain_name_a)
    else none

pub record RawIbcChannel : Type 0 where
  pub channel_1 : String
  pub port_1 : String
  pub channel_2 : String
  pub port_2 : String
  pub ordering : String
  pub version : String
  pub status : String
  pub preferred : Bool

pub record RawIbcFile : Type 0 where
  pub chain_name_1 : String
  pub chain_name_2 : String
  pub channels : List RawIbcChannel

-- The loop of `parseIBCFile`: only ICS20 channels are kept.
unfoldable pub parse_channels : String → String → List RawIbcChannel → List IbcChannel
parse_channels name_1 name_2 [] = []
parse_channels name_1 name_2 (ch ∷ chs) =
    let rest = parse_channels name_1 name_2 chs in
    if str_eq ch.version "ics20-1"
    then record {
      chain_name_a = name_1;
      chain_name_b = name_2;
      channel_a = ch.channel_1;
      channel_b = ch.channel_2;
      port_a = ch.port_1;
      port_b = ch.port_2;
      ordering = ch.ordering;
      version = ch.version;
      status = ch.status;
      preferred = ch.preferred;
    }
      ∷ rest
    else rest

unfoldable pub parse_ibc_file : RawIbcFile → List IbcChannel
unfolding parse_channels
parse_ibc_file raw = parse_channels raw.chain_name_1 raw.chain_name_2 raw.channels

-- Does the loop of `SelectChannel` pass the test that `continue`s past a channel?
unfoldable pub usable : String → String → IbcChannel → Bool
unfolding channel_for
usable from to c = elim (channel_for c from) [
  | none ↦ false
  | some (_, _, peer) ↦ str_eq peer to && str_eq c.status "live"
]

-- The loop of `SelectChannel`: the first preferred channel, or the list `live`.
unfoldable pub scan : String → String → List IbcChannel → IbcChannel ⊎ List IbcChannel
unfolding usable
scan from to [] = inr []
scan from to (c ∷ cs) =
    let rest = scan from to cs in
    if usable from to c
    then (if c.preferred then inl c else elim rest [ inl p ↦ inl p | inr live ↦ inr (c ∷ live) ])
    else rest

-- `SelectChannel`: the channel, and whether the choice was ambiguous.
unfoldable pub select_channel : List IbcChannel → String → String → Option (IbcChannel × Bool)
unfolding scan
select_channel cs from to = elim (scan from to cs) [
  | inl p ↦ some (p, false)
  | inr [] ↦ none
  | inr (c ∷ live) ↦ some (c, ltb 1 (suc (length live)))
]
