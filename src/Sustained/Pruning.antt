-- ===== src/Sustained/Pruning.antt =====
-- Pruning keeps a client's window well-formed, and drops exactly what has left the window.
use packetyeeter.Common.{
  ℕ, ◌+◌, ◌≤◌, ◌≡◌, refl, sym, ap, subst, inl, inr, Bool, false, not, List, [], ◌∷◌, ◌++◌, arith,
  ltb, length, All, keep, Bool-cases, nat_key,
}
use packetyeeter.Common.Assoc.{IsUnique-keep}
use packetyeeter.Sustained.Resources.{ResourceEntry, prune_order, prune}
use packetyeeter.Sustained.Client.{ClientWindow, prune_client, is_current}
use packetyeeter.Sustained.Refs.{IsCounted, release_each-IsCounted}
use packetyeeter.Sustained.Window.{IsWindow, sections_of, AreOnce, AreSeen}

abbrev pub in_window : ℕ → ℕ → ResourceEntry → Bool
in_window window now e = not (ltb (e.seen + window) now)

module _ (window now : ℕ) where
  split_order :
      (order : List ResourceEntry)
      → sections_of order
        ≡ (prune_order window now order).1 ++ sections_of (prune_order window now order).0
  unfolding prune_order
  split_order [] = refl
  split_order (e ∷ order) = elim (Bool-cases (ltb (e.seen + window) now)) [
    | inl old ↦ rw old (ap (λ zs. e.section ∷ zs) (split_order order))
    | inr young ↦ rw young refl
  ]

  AreOnce-prune :
      (order : List ResourceEntry) → AreOnce order → AreOnce (prune_order window now order).0
  unfolding prune_order
  AreOnce-prune [] h = tt
  AreOnce-prune (e ∷ order) h = ground (arith, AreOnce-prune order h.1)

  AreSeen-prune :
      (last : ℕ) (order : List ResourceEntry)
      → AreSeen last order
      → AreSeen last (prune_order window now order).0
  unfolding prune_order
  AreSeen-prune last [] h = tt
  AreSeen-prune last (e ∷ order) h = ground (arith, AreSeen-prune last order h.2)

  length-prune :
      (order : List ResourceEntry) → length (prune_order window now order).0 ≤ length order
  unfolding prune_order
  length-prune [] = omega arith
  length-prune (e ∷ order) = ground (arith, length-prune order)

  keep_young :
      (at : ℕ) (order : List ResourceEntry)
      → ltb (at + window) now ≡ false
      → All (λ e. at ≤ e.seen) order
      → keep (in_window window now) order ≡ order
  keep_young at [] h k = refl
  keep_young at (e ∷ order) h k =
      let young : ltb (e.seen + window) now ≡ false = ground (arith, k.0) in
      rw young (ap (λ zs. e ∷ zs) (keep_young at order h k.1))

  -- On resources in the order they were seen, the loop that stops early drops all that left the window.
  pub prune_order-keep :
      (last : ℕ) (order : List ResourceEntry)
      → AreSeen last order
      → (prune_order window now order).0 ≡ keep (in_window window now) order
  unfolding prune_order
  prune_order-keep last [] h = refl
  prune_order-keep last (e ∷ order) h = elim (Bool-cases (ltb (e.seen + window) now)) [
    | inl old ↦ rw old (prune_order-keep last order h.2)
    | inr young ↦ rw young (ap (λ zs. e ∷ zs) (sym (keep_young e.seen order young h.1)))
  ]

  pub prune_client-IsWindow :
      (limit : ℕ) (c : ClientWindow) → IsWindow limit c → IsWindow limit (prune_client window now c)
  unfolding prune_client prune
  prune_client-IsWindow limit c v = record {
    counted =
        release_each-IsCounted (prune_order window now c.resources.order).1 _ c.section_refs
          (subst (λ z. IsCounted z c.section_refs) (split_order c.resources.order) v.counted);
    limited = v.limited;
    capped = omega (arith, v.capped, length-prune c.resources.order);
    once = AreOnce-prune c.resources.order v.once;
    seen = AreSeen-prune c.last_seen c.resources.order v.seen;
    starts = IsUnique-keep (is_current window now) c.buckets v.starts;
  }
