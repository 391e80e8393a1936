-- ===== src/Sustained/Observing.antt =====
-- observeResource and the counters keep a client's window well-formed.
use packetyeeter.Common.{
  ℕ, suc, ◌+◌, ◌≤◌, ◌≡◌, refl, sym, subst, inl, inr, List, [], ◌∷◌, ◌++◌, arith, length,
  length-append, Bool-cases, nat_key,
}
use packetyeeter.Common.Assoc.{Map, put, IsUnique-put}
use packetyeeter.Sustained.Resources.{ResourceEntry, has_key, refresh, is_full, observe}
use packetyeeter.Sustained.Client.{
  ClientWindow, observe_resource, count_request, count_bytes, bucket_start, refs_of,
  release_section,
}
use packetyeeter.Sustained.Refs.{IsCounted, acquire-IsCounted, release-IsCounted, IsCounted-same}
use packetyeeter.Sustained.Window.{
  IsWindow, sections_of, sections_of-append, AreOnce, AreOnce-snoc, AreSeen, AreSeen-snoc,
  AreSeen-later, missing_key, length-refresh, count-refresh, AreOnce-refresh, AreSeen-refresh,
}

pub nonempty {ℓ} :
    {A : Type ℓ} (xs : List A) → 1 ≤ length xs → (x : A) × (rest : List A) × (xs ≡ x ∷ rest)
nonempty [] h = absurd (omega arith)
nonempty (x ∷ rest) h = (x, rest, refl)

abbrev pub seen_now : ℕ → ClientWindow → ClientWindow
seen_now now c = record c { last_seen = now }

abbrev pub entry_of : ℕ → ℕ → ℕ → ResourceEntry
entry_of resource section now = record { key = resource; section = section; seen = now }

module _ (limit resource section now : ℕ) (c : ClientWindow) (v : IsWindow limit c)
    (later : c.last_seen ≤ now) where
  refreshed-IsWindow : IsWindow limit (
      seen_now now (record c {
        resources = record c.resources { order = refresh resource now c.resources.order };
      }))
  refreshed-IsWindow = record {
    counted =
        IsCounted-same _ _ c.section_refs (λ s. count-refresh s resource now c.resources.order)
          v.counted;
    limited = v.limited;
    capped = omega (arith, v.capped, length-refresh resource now c.resources.order);
    once = AreOnce-refresh resource now c.resources.order v.once;
    seen =
        AreSeen-refresh resource now c.resources.order
          (AreSeen-later c.last_seen now c.resources.order later v.seen);
    starts = v.starts;
  }

  -- A new entry at the front, after `order`, whose sections `refs` counts.
  pushed-IsWindow :
      (order : List ResourceEntry) (refs : Map ℕ ℕ)
      → IsCounted (sections_of order) refs
      → AreOnce (order ++ (entry_of resource section now) ∷ [])
      → AreSeen c.last_seen order
      → length order + 1 ≤ limit
      → IsWindow limit (
          seen_now now (record c {
            resources = record c.resources {
              order = order ++ (entry_of resource section now) ∷ [];
            };
            section_refs = put section (refs_of section refs + 1) refs;
          }))
  pushed-IsWindow order refs counted once seen room = record {
    counted =
        subst (λ z. IsCounted z (put section (refs_of section refs + 1) refs))
          (sym (sections_of-append order ((entry_of resource section now) ∷ [])))
          (acquire-IsCounted section (sections_of order) refs counted);
    limited = v.limited;
    capped = omega (arith, length-append order ((entry_of resource section now) ∷ []));
    once = once;
    seen =
        AreSeen-snoc now order (entry_of resource section now)
          (AreSeen-later c.last_seen now order later seen) refl;
    starts = v.starts;
  }

  pub observe_resource-IsWindow :
      1 ≤ limit → IsWindow limit (seen_now now (observe_resource resource section now c).0)
  unfolding observe_resource observe
  observe_resource-IsWindow room = elim (Bool-cases (has_key resource c.resources.order)) [
    | inl known ↦ rw known refreshed-IsWindow
    | inr new ↦
        let once : AreOnce (c.resources.order ++ (entry_of resource section now) ∷ []) =
          AreOnce-snoc c.resources.order (entry_of resource section now) v.once
            (missing_key resource c.resources.order new) in
        elim (Bool-cases (is_full c.resources)) [
          | inr space ↦
              rw (new, space)
                (pushed-IsWindow c.resources.order c.section_refs v.counted once v.seen
                  (ground (arith, v.limited, v.capped)))
          | inl full ↦
              let (oldest, order, e) = nonempty c.resources.order (ground (arith, full)) in
              let counted : IsCounted (oldest.section ∷ sections_of order) c.section_refs =
                subst (λ z. IsCounted (sections_of z) c.section_refs) e v.counted in
              let once' : AreOnce (oldest ∷ order ++ (entry_of resource section now) ∷ []) =
                subst (λ z. AreOnce (z ++ (entry_of resource section now) ∷ [])) e once in
              let seen : AreSeen c.last_seen (oldest ∷ order) =
                subst (AreSeen c.last_seen) e v.seen in
              let size : suc (length order) ≤ limit = subst (λ z. length z ≤ limit) e v.capped in
              rw (new, full, e)
                (pushed-IsWindow order (release_section oldest.section c.section_refs)
                  (release-IsCounted oldest.section (sections_of order) c.section_refs counted)
                  once'.1 seen.2 (omega (arith, size)))
        ]
  ]

-- Counting a request or bytes touches the buckets alone.
pub count_request-IsWindow :
    (limit now : ℕ) (c : ClientWindow) → IsWindow limit c → IsWindow limit (count_request now c)
count_request-IsWindow limit now c v = record {
  counted = v.counted;
  limited = v.limited;
  capped = v.capped;
  once = v.once;
  seen = v.seen;
  starts = IsUnique-put (bucket_start now) _ c.buckets v.starts;
}

pub count_bytes-IsWindow :
    (limit bytes now : ℕ) (c : ClientWindow)
    → IsWindow limit c
    → c.last_seen ≤ now
    → IsWindow limit (seen_now now (count_bytes bytes now c))
count_bytes-IsWindow limit bytes now c v later = record {
  counted = v.counted;
  limited = v.limited;
  capped = v.capped;
  once = v.once;
  seen = AreSeen-later c.last_seen now c.resources.order later v.seen;
  starts = IsUnique-put (bucket_start now) _ c.buckets v.starts;
}
