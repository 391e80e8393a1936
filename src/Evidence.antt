-- ===== src/Evidence.antt =====
-- The evidenceSet of pkg/analyzer/scrub_trust.go: recently seen addresses, bounded in age and in size. An
-- absent address is `none`; an absent set is left out by the callers.
pub mod Laws
mod Tests
use packetyeeter.Common.{
  ℕ, ◌+◌, [], String, Bool, true, false, not, Option, none, some, if◌then◌else◌, ltb, leb, length,
  keep, ◌&&◌, string_key,
}
use packetyeeter.Common.Assoc.{Map, get, put, has}
use packetyeeter.Sampling.{evict_oldest}

abbrev pub scrub_evidence_refresh : ℕ
scrub_evidence_refresh = 1_000_000_000

pub record EvidenceSet : Type 0 where
  pub seen : Map String ℕ
  pub ttl : ℕ
  pub cap : ℕ

abbrev pub new_evidence_set : ℕ → ℕ → EvidenceSet
new_evidence_set ttl max_entries = record { seen = []; ttl = ttl; cap = max_entries }

abbrev pub seen_when : String → ℕ → ℕ
seen_when key at = at

-- now.Sub(last) < d
abbrev pub within : ℕ → ℕ → ℕ → Bool
within now last d = ltb now (last + d)

abbrev is_fresh : ℕ → Option ℕ → Bool
is_fresh now none = false
is_fresh now (some last) = within now last scrub_evidence_refresh

abbrev pub with_room : String → EvidenceSet → Map String ℕ
with_room key e =
    if not (has key e.seen) && leb e.cap (length e.seen)
    then evict_oldest seen_when e.seen
    else e.seen

pub add_at : Option String → ℕ → EvidenceSet → EvidenceSet
add_at none now e = e
add_at (some key) now e =
    if is_fresh now (get key e.seen) then e else record e { seen = put key now (with_room key e) }

-- The set and how many entries remain.
pub purge : ℕ → EvidenceSet → EvidenceSet × ℕ
purge now e =
    let seen = keep (λ p. within now p.1 e.ttl) e.seen in (record e { seen = seen }, length seen)

abbrev is_live : ℕ → ℕ → Option ℕ → Bool
is_live now ttl none = false
is_live now ttl (some at) = within now at ttl

pub has_at : Option String → ℕ → EvidenceSet → Bool
has_at none now e = false
has_at (some key) now e = is_live now e.ttl (get key e.seen)
