-- ===== src/Sustained/Client.antt =====
-- clientWindow of pkg/analyzer/sustained/tracker.go: what one client did in the window. A time that may be zero
-- is an option. A bucket's start counts seconds from the zero time, where the code counts them from 1970.
use packetyeeter.Common.{
  ℕ, ◌+◌, ◌-◌, ◌*◌, ◌/◌, ◌%◌, ◌^◌, Bool, true, false, not, Option, none, some, List, [], ◌∷◌,
  if◌then◌else◌, ltb, leb, length, keep, nat_key,
}
use packetyeeter.Common.Assoc.{Map, get, put, delete}
use packetyeeter.Sustained.Resources.{BoundedSet, Observed, observe, prune, new_bounded_set}

abbrev pub second : ℕ
second = 1_000_000_000

abbrev pub bucket_size : ℕ
bucket_size = 10 * second

pub record Bucket : Type 0 where
  pub requests : ℕ
  pub bytes : ℕ

pub record ClientWindow : Type 0 where
  pub buckets : Map ℕ Bucket
  pub resources : BoundedSet
  pub section_refs : Map ℕ ℕ
  pub last_seen : ℕ
  pub last_publish : Option ℕ
  pub deferred_since : Option ℕ
  pub selected_since : Option ℕ

abbrev pub new_client : ℕ → ℕ → ClientWindow
new_client limit now = record {
  buckets = [];
  resources = new_bounded_set limit;
  section_refs = [];
  last_seen = now;
  last_publish = none;
  deferred_since = none;
  selected_since = none;
}

abbrev pub section_count : ClientWindow → ℕ
section_count c = length c.section_refs

-- A missing key reads as zero.
abbrev pub or_zero : Option ℕ → ℕ
or_zero none = 0
or_zero (some n) = n

abbrev pub refs_of : ℕ → Map ℕ ℕ → ℕ
refs_of section refs = or_zero (get section refs)

unfoldable pub release_section : ℕ → Map ℕ ℕ → Map ℕ ℕ
release_section section refs =
    if leb (refs_of section refs) 1
    then delete section refs
    else put section (refs_of section refs - 1) refs

abbrev pub release_evicted : Option ℕ → Map ℕ ℕ → Map ℕ ℕ
release_evicted none refs = refs
release_evicted (some section) refs = release_section section refs

abbrev pub is_evicted : Option ℕ → Bool
is_evicted none = false
is_evicted (some section) = true

abbrev pub admit : ℕ → Observed → ClientWindow → ClientWindow × Bool
admit section o c =
    let released = release_evicted o.evicted c.section_refs in
    if not o.added then (record c { resources = o.set }, false) else (
      record c {
        resources = o.set;
        section_refs = put section (refs_of section released + 1) released;
      },
      is_evicted o.evicted,
    )

-- Whether the resource evicted another one.
unfoldable pub observe_resource : ℕ → ℕ → ℕ → ClientWindow → ClientWindow × Bool
unfolding observe release_section
observe_resource resource section now c = admit section (observe resource section now c.resources) c

-- The sums wrap at 64 bits.
unfoldable pub totals : Map ℕ Bucket → ℕ × ℕ
totals [] = (0, 0)
totals ((start, b) ∷ rest) =
    let sum = totals rest in ((b.requests + sum.0) % 2 ^ 64, (b.bytes + sum.1) % 2 ^ 64)

abbrev pub bucket_start : ℕ → ℕ
bucket_start now = (now - now % bucket_size) / second

abbrev pub or_empty : Option Bucket → Bucket
or_empty none = record { requests = 0; bytes = 0 }
or_empty (some b) = b

abbrev pub bucket_for : ℕ → Map ℕ Bucket → Bucket
bucket_for now buckets = or_empty (get (bucket_start now) buckets)

abbrev pub count_request : ℕ → ClientWindow → ClientWindow
count_request now c =
    let b = bucket_for now c.buckets in
    record c {
      buckets =
          put (bucket_start now) (record b { requests = (b.requests + 1) % 2 ^ 64 }) c.buckets;
    }

abbrev pub count_bytes : ℕ → ℕ → ClientWindow → ClientWindow
count_bytes bytes now c =
    let b = bucket_for now c.buckets in
    record c {
      buckets = put (bucket_start now) (record b { bytes = (b.bytes + bytes) % 2 ^ 64 }) c.buckets;
    }

-- A bucket stays while its end is after the cutoff.
abbrev pub is_current : ℕ → ℕ → ℕ × Bucket → Bool
is_current window now p = ltb now (p.0 * second + bucket_size + window)

unfoldable pub release_each : List ℕ → Map ℕ ℕ → Map ℕ ℕ
unfolding release_section
release_each [] refs = refs
release_each (section ∷ rest) refs = release_each rest (release_section section refs)

-- `prune` of a client, with the window in nanoseconds.
unfoldable pub prune_client : ℕ → ℕ → ClientWindow → ClientWindow
unfolding prune release_each
prune_client window now c =
    let pruned = prune window now c.resources in
    record c {
      buckets = keep (is_current window now) c.buckets;
      resources = pruned.0;
      section_refs = release_each pruned.1 c.section_refs;
    }
