-- ===== src/Sustained/Config.antt =====
-- Config and New of pkg/analyzer/sustained/tracker.go. The fields of type int are natural numbers, where zero
-- stands for every value that is not positive, save hold_seconds, where `none` is a negative value, and
-- minimum_resources and minimum_sections, where New replaces zero alone: a configuration in which one of those two is
-- negative has no model here. Products with window_seconds do not wrap here: windows are of
-- fewer than 2 ^ 31 seconds.
use packetyeeter.Common.{
  ℕ, ◌*◌, Bool, true, false, Option, none, some, if◌then◌else◌, ltb, ◌==◌, nat_key,
}

pub record Config : Type 0 where
  pub enabled : Bool
  pub enforce : Bool
  pub window_seconds : ℕ
  pub evaluation_interval_seconds : ℕ
  pub publish_interval_seconds : ℕ
  pub minimum_requests : ℕ
  pub minimum_bytes : ℕ
  pub minimum_resources : ℕ
  pub minimum_sections : ℕ
  pub maximum_resources_per_section_percent : ℕ
  pub maximum_clients : ℕ
  pub maximum_resources_per_client : ℕ
  pub hold_seconds : Option ℕ
  pub maximum_hold_seconds : ℕ
  pub release_factor_percent : ℕ
  pub reputation_factor : ℕ

abbrev pub default_config : Config
default_config = record {
  enabled = false;
  enforce = false;
  window_seconds = 300;
  evaluation_interval_seconds = 10;
  publish_interval_seconds = 60;
  minimum_requests = 1000;
  minimum_bytes = 5_368_709_120;
  minimum_resources = 500;
  minimum_sections = 100;
  maximum_resources_per_section_percent = 120;
  maximum_clients = 20_000;
  maximum_resources_per_client = 500;
  hold_seconds = some 600;
  maximum_hold_seconds = 1200;
  release_factor_percent = 100;
  reputation_factor = 4;
}

-- The configuration with its defaults applied; the holds are filled in.
pub record Settings : Type 0 where
  pub config : Config
  pub hold : ℕ
  pub maximum_hold : ℕ
  pub hold_disabled : Bool

abbrev or_default : ℕ → ℕ → ℕ
or_default given default = if given == 0 then default else given

abbrev is_negative : Option ℕ → Bool
is_negative none = true
is_negative (some n) = false

abbrev hold_or : Option ℕ → ℕ → ℕ
hold_or none default = default
hold_or (some n) default = or_default n default

abbrev with_defaults : Config → Config
with_defaults cfg = record cfg {
  window_seconds = or_default cfg.window_seconds default_config.window_seconds;
  evaluation_interval_seconds =
      or_default cfg.evaluation_interval_seconds default_config.evaluation_interval_seconds;
  publish_interval_seconds =
      or_default cfg.publish_interval_seconds default_config.publish_interval_seconds;
  minimum_requests = or_default cfg.minimum_requests default_config.minimum_requests;
  minimum_bytes = or_default cfg.minimum_bytes default_config.minimum_bytes;
  minimum_resources = or_default cfg.minimum_resources default_config.minimum_resources;
  minimum_sections = or_default cfg.minimum_sections default_config.minimum_sections;
  maximum_resources_per_section_percent =
      or_default cfg.maximum_resources_per_section_percent
        default_config.maximum_resources_per_section_percent;
  maximum_clients = or_default cfg.maximum_clients default_config.maximum_clients;
  maximum_resources_per_client =
      or_default cfg.maximum_resources_per_client
        (or_default cfg.minimum_resources default_config.minimum_resources);
  release_factor_percent =
      or_default cfg.release_factor_percent default_config.release_factor_percent;
  reputation_factor = or_default cfg.reputation_factor default_config.reputation_factor;
}

unfoldable pub settle : Config → Settings
settle given =
    let cfg = with_defaults given in
    let hold = hold_or given.hold_seconds (2 * cfg.window_seconds) in
    let maximum = or_default given.maximum_hold_seconds (4 * cfg.window_seconds) in
    record {
      config = cfg;
      hold = hold;
      maximum_hold = if ltb maximum hold then hold else maximum;
      hold_disabled = is_negative given.hold_seconds;
    }
