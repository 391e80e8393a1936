-- ===== src/Sustained/Retained.antt =====
-- The bounded set of resources holds what an unlimited one would hold last.
use packetyeeter.Common.{
  ℕ, suc, ◌-◌, ◌≤◌, ◌≡◌, refl, sym, ap, ◌∙◌, subst, inl, inr, true, false, none, List, [], ◌∷◌,
  ◌++◌, arith, if◌then◌else◌, length, drop, All-append, length-append, nat_key, Bool-cases,
}
use packetyeeter.Sustained.Resources.{
  ResourceEntry, BoundedSet, has_key, refresh, make_space, is_full, observe, new_bounded_set,
}
use packetyeeter.Sustained.Window.{
  AreOnce, AreOnce-refresh, AreOnce-snoc, missing_key, length-refresh, All-refresh,
}
use packetyeeter.Sustained.Observing.{entry_of, nonempty}
use packetyeeter.Sustained.Newest.{
  IsNewest, AreSections, refresh-late, refresh_early, not_older, append_assoc, length-lose,
  All-left, has_key-append, lose, newest-drop,
}

-- What is observed of a client: the hash of a resource and a clock, in this order.
abbrev pub observe_all : (ℕ → ℕ) → List (ℕ × ℕ) → BoundedSet → BoundedSet
observe_all section_of [] s = s
observe_all section_of ((key, now) ∷ seen) s =
    observe_all section_of seen (observe key (section_of key) now s).set

-- What one observation does to the limited and to the unlimited set.
module _ (section_of : ℕ → ℕ) (limit key now : ℕ) (room : 1 ≤ limit) where
  abbrev entry : ResourceEntry
  entry = entry_of key (section_of key) now

  -- The oldest of a full set goes over to the older entries.
  moved :
      (older newest all : List ResourceEntry)
      → length newest ≡ limit
      → all ≡ (older ++ newest) ++ entry ∷ []
      → AreOnce all
      → IsNewest limit all ((make_space newest).0 ++ entry ∷ [])
  moved older newest all full split once =
      let (oldest, rest, e) = nonempty newest (omega (arith, full)) in
      let size : suc (length rest) ≡ limit = subst (λ z. length z ≡ limit) e full in
      rw e (record {
        older = older ++ oldest ∷ [];
        split =
            split
            ∙ rw e (
                append_assoc older (oldest ∷ rest) (entry ∷ [])
                ∙ sym (append_assoc older (oldest ∷ []) (rest ++ entry ∷ [])));
        once = once;
        full = λ h. length-append rest (entry ∷ []) ∙ omega (arith, size);
        capped = omega (arith, length-append rest (entry ∷ []), size);
      })

  module _ (all newest : List ResourceEntry) (n : IsNewest limit all newest)
      (sections : AreSections section_of all) where
    known-IsNewest :
        has_key key newest ≡ true → IsNewest limit (refresh key now all) (refresh key now newest)
    known-IsNewest h = record {
      older = n.older;
      split =
          ap (refresh key now) n.split
          ∙ refresh-late key now n.older newest
              (not_older key n.older newest (subst AreOnce n.split n.once) h);
      once = AreOnce-refresh key now all n.once;
      full = λ o. length-refresh key now newest ∙ n.full o;
      capped = omega (arith, length-refresh key now newest, n.capped);
    }

    known_older :
        has_key key n.older ≡ true
        → IsNewest limit (refresh key now all) ((make_space newest).0 ++ entry ∷ [])
    known_older h =
        let some_older : 1 ≤ length n.older = omega (arith, length-lose key n.older h) in
        moved (lose key n.older) newest (refresh key now all) (n.full some_older)
          (ap (refresh key now) n.split
            ∙ refresh_early section_of key now n.older newest
                (All-left (λ e. e.section ≡ section_of e.key) n.older newest
                  (subst (AreSections section_of) n.split sections))
                h)
          (AreOnce-refresh key now all n.once)

    new_entry :
        has_key key all ≡ false
        → IsNewest limit (all ++ entry ∷ []) (
            (if is_full (record { order = newest; limit = limit })
              then make_space newest
              else (newest, none)).0
            ++ entry ∷ [])
    new_entry h =
        let once = AreOnce-snoc all entry n.once (missing_key key all h) in
        elim (Bool-cases (is_full (record { order = newest; limit = limit }))) [
          | inl full ↦ rw full (
              moved n.older newest (all ++ entry ∷ []) (ground (arith, n.capped, full))
                (ap (λ z. z ++ entry ∷ []) n.split) once)
          | inr space ↦ rw space (record {
            older = n.older;
            split = ap (λ z. z ++ entry ∷ []) n.split ∙ append_assoc n.older newest (entry ∷ []);
            once = once;
            full = λ o. absurd (ground (arith, n.full o, space));
            capped = ground (arith, length-append newest (entry ∷ []), space);
          })
        ]

    observe-IsNewest :
        IsNewest limit
          (observe key (section_of key) now (record { order = all; limit = 0 })).set.order
          (observe key (section_of key) now (record { order = newest; limit = limit })).set.order
    unfolding observe
    observe-IsNewest = elim (Bool-cases (has_key key newest)) [
      | inl known ↦
          let there : has_key key all ≡ true =
            ground (arith, ap (has_key key) n.split ∙ has_key-append key n.older newest, known) in
          rw (known, there) (known-IsNewest known)
      | inr missing ↦ elim (Bool-cases (has_key key n.older)) [
        | inl old ↦
            let there : has_key key all ≡ true =
              ground (arith, ap (has_key key) n.split ∙ has_key-append key n.older newest, old) in
            let full : is_full (record { order = newest; limit = limit }) ≡ true =
              ground (arith, n.full (omega (arith, length-lose key n.older old)), room) in
            rw (missing, there, full) (known_older old)
        | inr new ↦
            let absent : has_key key all ≡ false =
              ground (
                arith,
                ap (has_key key) n.split ∙ has_key-append key n.older newest,
                missing,
                new,
              ) in
            rw (missing, absent) (new_entry absent)
      ]
    ]

limit-observe :
    (key section now : ℕ) (s : BoundedSet) → (observe key section now s).set.limit ≡ s.limit
unfolding observe
limit-observe key section now s = ground arith

observe-AreSections :
    (section_of : ℕ → ℕ) (key now : ℕ) (all : List ResourceEntry)
    → AreSections section_of all
    → AreSections section_of
        (observe key (section_of key) now (record { order = all; limit = 0 })).set.order
unfolding observe
observe-AreSections section_of key now all h = elim (Bool-cases (has_key key all)) [
  | inl known ↦ rw known (All-refresh (λ e. e.section ≡ section_of e.key) key now all (λ e q. q) h)
  | inr new ↦ rw new (All-append (λ e. e.section ≡ section_of e.key) all _ h (refl, tt))
]

all-IsNewest :
    (section_of : ℕ → ℕ) (limit : ℕ) (seen : List (ℕ × ℕ)) (all newest : List ResourceEntry)
    → 1 ≤ limit
    → IsNewest limit all newest
    → AreSections section_of all
    → IsNewest limit
        (observe_all section_of seen (record { order = all; limit = 0 })).order
        (observe_all section_of seen (record { order = newest; limit = limit })).order
all-IsNewest section_of limit [] all newest room n s = n
all-IsNewest section_of limit ((key, now) ∷ seen) all newest room n s =
    let u = (observe key (section_of key) now (record { order = all; limit = 0 })).set in
    let b = (observe key (section_of key) now (record { order = newest; limit = limit })).set in
    let more =
      all-IsNewest section_of limit seen u.order b.order room
        (observe-IsNewest section_of limit key now room all newest n s)
        (observe-AreSections section_of key now all s) in
    let hu = sym (limit-observe key (section_of key) now (record { order = all; limit = 0 })) in
    let hb =
      sym (limit-observe key (section_of key) now (record { order = newest; limit = limit })) in
    subst
      (λ l.
        IsNewest limit (observe_all section_of seen (record { order = u.order; limit = l })).order
          (observe_all section_of seen b).order)
      hu
      (subst
        (λ l.
          IsNewest limit (observe_all section_of seen (record { order = u.order; limit = 0 })).order
            (observe_all section_of seen (record { order = b.order; limit = l })).order)
        hb more)

-- If every resource lies in one section: after any observations, a set with a positive limit holds exactly the last
-- entries, in the same order and as many as the limit, of the set that observed the same without a limit.
pub observe_all-drop :
    (section_of : ℕ → ℕ) (limit : ℕ) (seen : List (ℕ × ℕ))
    → 1 ≤ limit
    → (observe_all section_of seen (new_bounded_set limit)).order
      ≡ drop
          (length (observe_all section_of seen (new_bounded_set 0)).order - limit)
          (observe_all section_of seen (new_bounded_set 0)).order
observe_all-drop section_of limit seen room = newest-drop limit _ _ (
    all-IsNewest section_of limit seen [] [] room
      (record {
        older = [];
        split = refl;
        once = tt;
        full = λ h. absurd (omega (arith, h));
        capped = omega arith;
      })
      tt)
