-- ===== src/Registry/Decoders.antt =====
-- What the decoders make of the registry's topics: the gateways that they accept, after each
-- publication of the registry.
pub mod Steps
pub mod Invariant
pub mod Rejection
use meshtastic_things.Prelude.{String, Bool, true, false, Option, none, some, List, [], ◌∷◌, ◌++◌}
use meshtastic_things.Dict.{Dict}
use meshtastic_things.Decode.{GatewayState}
use meshtastic_things.Config.{Event, Record, LiteState, lite_start, lite_replay}
use meshtastic_things.Registry.Models.{
  Message, keys, node_rejections, owner_auth_revocations, quality_config, variant_config, World,
}

-- The records of the two topics that the decoders consume.
abbrev pub config_records : List Message → List Record
config_records [] = []
config_records (keys e ∷ log) = (false, e) ∷ config_records log
config_records (node_rejections e ∷ log) = (true, e) ∷ config_records log
config_records (owner_auth_revocations h ∷ log) = config_records log
config_records (quality_config e ∷ log) = config_records log
config_records (variant_config e ∷ log) = config_records log

-- The state of a decoder that has read all of a log.
unfoldable pub decoder : List Message → LiteState
decoder log = lite_replay (config_records log) lite_start

abbrev pub gateways : List Message → Dict GatewayState
gateways log = (decoder log).gateway_state
