-- ===== src/ScrubRules/Tests.antt =====
-- Runs of scrubrules.go and its theorems at concrete inputs.
use packetyeeter.Common.{ℕ, ◌≡◌, refl, String, true, false, Option, some, List, [], ◌∷◌, ◌≤◌, any}
use packetyeeter.Common.Result.{Result, ok, err}
use packetyeeter.Common.Sort.{sort}
use packetyeeter.ScrubRules.Types.{
  Prefix, PortRange, ProtoRule, Rule, ScrubRule, rate_limit, rule_max_ranges,
}
use packetyeeter.ScrubRules.Ports.{port_ranges}
use packetyeeter.ScrubRules.Ports.Coverage.{
  in_range, IsSeparated, port_ranges_covers, port_ranges-IsSeparated,
}
use packetyeeter.ScrubRules.Parse.{ParseError, parse, parse_body, empty_body}

abbrev range : ℕ → ℕ → PortRange
range a b = record { from = a; to = b }

abbrev given : List PortRange
given = range 80 90 ∷ range 10 20 ∷ range 21 30 ∷ range 85 100 ∷ []

abbrev written : List PortRange
written = range 10 30 ∷ range 80 100 ∷ []

port_ranges_run : port_ranges given ≡ ok written
unfolding port_ranges sort
port_ranges_run = refl

port_ranges_covers_example : any (in_range 25) written ≡ any (in_range 25) given
port_ranges_covers_example = port_ranges_covers 25 given written port_ranges_run

port_ranges-IsSeparated_example : IsSeparated written × (2 ≤ rule_max_ranges)
port_ranges-IsSeparated_example = port_ranges-IsSeparated given written port_ranges_run

abbrev parse_prefix : String → Option Prefix
parse_prefix s = some (record { is4 = true; addr = 0x0a000102; bits = 24 })

abbrev limit_tcp : ProtoRule
limit_tcp = record {
  id = "edge/1";
  dst_prefix = "10.0.1.2/24";
  protocols = 6 ∷ [];
  src_ports = [];
  dst_ports = given;
  pkt_len = some (range 40 1500);
  tcp_flags_mask = 0x12;
  tcp_flags_value = 0x02;
  fragment = some false;
  src_prefixes = "10.0.1.2/24" ∷ [];
  action = rate_limit;
  rate_pps = 2500;
  expires_at = some 1000;
  priority = 5;
}

abbrev body_of : Result ParseError ScrubRule → ScrubRule
body_of (ok b) = b
body_of (err e) = empty_body

abbrev parsed : Rule
parsed = record {
  id = "edge/1";
  priority = 5;
  dst = record { is4 = true; addr = 0x0a000100; bits = 24 };
  expires = 1000;
  body = body_of (parse_body parse_prefix limit_tcp true);
}

parse_run : parse parse_prefix limit_tcp 10 ≡ ok parsed
unfolding parse parse_body sort
parse_run = refl
