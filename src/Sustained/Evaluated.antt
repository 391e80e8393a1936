-- ===== src/Sustained/Evaluated.antt =====
-- An evaluation keeps the tracker well-formed.
use packetyeeter.Common.{
  ℕ, ◌≤◌, ◌≡◌, refl, sym, ap, ◌∙◌, subst, inl, inr, String, Bool, true, false, not, ◌||◌, [], ◌∷◌,
  arith, if◌then◌else◌, length, All, Bool-cases, Option-cases, ◌==◌, string_key, eq_iff, nat_key,
}
use packetyeeter.Common.Assoc.{Map, has, Misses, IsUnique, get-Misses, get-has-false}
use packetyeeter.Sustained.Client.{ClientWindow}
use packetyeeter.Sustained.Config.{Settings}
use packetyeeter.Sustained.Tracker.{Tracker}
use packetyeeter.Sustained.Evaluate.{Evaluation, evaluate_client, evaluate_each, evaluate, too_soon}
use packetyeeter.Sustained.Order.{AreSame, in_order, in_order-without}
use packetyeeter.Sustained.Invariant.{IsClient, IsTracker, limit_of}
use packetyeeter.Sustained.Round.{evaluate_client-Round}

missing : (k : String) (m : Map String ClientWindow) → Misses k m → has k m ≡ false
missing k [] h = refl
missing k ((j, c) ∷ m) h = ground (arith, eq_iff j k, missing k m h.1)

missing_at :
    (k ip : String) (m : Map String ClientWindow) → Misses k m → (k == ip) ≡ true → has ip m ≡ false
missing_at k ip m h q = subst (λ j. has j m ≡ false) ((eq_iff k ip).0 q) (missing k m h)

-- Whether an address is in the order and in the map, before and after a round for another or for the same one.
listed :
    (same in_map in_order first gone : Bool)
    → ((if same then true else in_map) ≡ true → in_order ≡ true)
    → (same ≡ true → in_map ≡ false)
    → first ≡ (if same then gone else in_order)
    → in_map ≡ true
    → first ≡ true
listed same in_map in_order first gone h apart e q = ground arith

removed :
    (same in_map after in_order first final : Bool)
    → (same ≡ true → in_map ≡ false)
    → (same ≡ true → after ≡ false)
    → first ≡ (if same then false else in_order)
    → final ≡ (if in_map then after else first)
    → final ≡ (if (if same then true else in_map) then after else in_order)
removed same in_map after in_order first final apart gone e q = ground arith

remained :
    (same in_map after in_order first final : Bool)
    → ((if same then true else in_map) ≡ true → in_order ≡ true)
    → (same ≡ true → in_map ≡ false)
    → first ≡ in_order
    → final ≡ (if in_map then after else first)
    → final ≡ (if (if same then true else in_map) then (if same then true else after) else in_order)
remained same in_map after in_order first final h apart e q = ground arith

module _ (good : String → Bool) (s : Settings) (now : ℕ) where
  evaluate_each-Misses :
      (k : String) (m : Map String ClientWindow) (e : Evaluation)
      → Misses k m
      → Misses k (evaluate_each good s now m e).0
  unfolding evaluate_each
  evaluate_each-Misses k [] e h = tt
  evaluate_each-Misses k ((ip, c) ∷ m) e h =
      let one = evaluate_client good s now ip c e in
      let more = evaluate_each-Misses k m one.1 h.1 in
      elim (Option-cases one.0) [ inl out ↦ rw out more | inr (c', stays) ↦ rw stays (h.0, more) ]

  evaluate_each-IsUnique :
      (m : Map String ClientWindow) (e : Evaluation)
      → IsUnique m
      → IsUnique (evaluate_each good s now m e).0
  unfolding evaluate_each
  evaluate_each-IsUnique [] e h = tt
  evaluate_each-IsUnique ((ip, c) ∷ m) e h =
      let one = evaluate_client good s now ip c e in
      let more = evaluate_each-IsUnique m one.1 h.1 in
      elim (Option-cases one.0) [
        | inl out ↦ rw out more
        | inr (c', stays) ↦ rw stays (evaluate_each-Misses ip m one.1 h.0, more)
      ]

  evaluate_each-length :
      (m : Map String ClientWindow) (e : Evaluation)
      → length (evaluate_each good s now m e).0 ≤ length m
  unfolding evaluate_each
  evaluate_each-length [] e = omega arith
  evaluate_each-length ((ip, c) ∷ m) e =
      let one = evaluate_client good s now ip c e in
      let more = evaluate_each-length m one.1 in
      elim (Option-cases one.0) [
        | inl out ↦ rw out (omega (arith, more))
        | inr (c', stays) ↦ rw stays (omega (arith, more))
      ]

  evaluate_each-windows :
      (limit clock : ℕ) (m : Map String ClientWindow) (e : Evaluation)
      → All (λ p. IsClient limit clock p.1) m
      → All (λ p. IsClient limit clock p.1) (evaluate_each good s now m e).0
  unfolding evaluate_each
  evaluate_each-windows limit clock [] e h = tt
  evaluate_each-windows limit clock ((ip, c) ∷ m) e h =
      let one = evaluate_client good s now ip c e in
      let more = evaluate_each-windows limit clock m one.1 h.1 in
      elim (evaluate_client-Round good s now limit clock ip c e h.0) [
        | inl (out, left) ↦ rw out more
        | inr (c', stays, w, left) ↦ rw stays (w, more)
      ]

  -- An address of the map stays in the order exactly when it stays in the map.
  evaluate_each-order :
      (limit clock : ℕ) (ip : String) (m : Map String ClientWindow) (e : Evaluation)
      → IsUnique m
      → All (λ p. IsClient limit clock p.1) m
      → (has ip m ≡ true → in_order ip e.order ≡ true)
      → in_order ip (evaluate_each good s now m e).1.order
        ≡ (if has ip m then has ip (evaluate_each good s now m e).0 else in_order ip e.order)
  unfolding evaluate_each
  evaluate_each-order limit clock ip [] e u w h = refl
  evaluate_each-order limit clock ip ((k, c) ∷ m) e u w h =
      let one = evaluate_client good s now k c e in
      let after = (evaluate_each good s now m one.1).0 in
      let not_there = missing_at k ip m u.0 in
      let not_after = missing_at k ip after (evaluate_each-Misses k m one.1 u.0) in
      elim (evaluate_client-Round good s now limit clock k c e w.0) [
        | inl (out, left) ↦
            let first = ap (in_order ip) left ∙ in_order-without ip k e.order in
            let more = evaluate_each-order limit clock ip m one.1 u.1 w.1 (
              listed (k == ip) (has ip m) (in_order ip e.order) (in_order ip one.1.order) false h
                not_there first) in
            rw out (
              removed (k == ip) (has ip m) (has ip after) (in_order ip e.order) _ _ not_there
                not_after first more)
        | inr (c', stays, v, left) ↦
            let first = ap (in_order ip) left in
            let more =
              evaluate_each-order limit clock ip m one.1 u.1 w.1
                (λ q. first ∙ h (ground (arith, q))) in
            rw stays (
              remained (k == ip) (has ip m) (has ip after) (in_order ip e.order) _ _ h not_there
                first more)
      ]

  evaluate_each-AreSame :
      (limit clock : ℕ) (m : Map String ClientWindow) (e : Evaluation)
      → IsUnique m
      → All (λ p. IsClient limit clock p.1) m
      → AreSame e.order m
      → AreSame (evaluate_each good s now m e).1.order (evaluate_each good s now m e).0
  evaluate_each-AreSame limit clock m e u w same ip =
      let o = evaluate_each-order limit clock ip m e u w (λ q. same ip ∙ q) in
      elim (Bool-cases (has ip m)) [
        | inl there ↦ rw there at o
        | inr out ↦
            (rw out at o)
            ∙ same ip
            ∙ out
            ∙ sym (
                missing ip _
                  (evaluate_each-Misses ip m e (get-Misses ip m (get-has-false ip m out))))
      ]

pub evaluate-IsTracker :
    (good : String → Bool) (clock now : ℕ) (t : Tracker)
    → IsTracker clock t
    → IsTracker clock (evaluate good now t).0
unfolding evaluate
evaluate-IsTracker good clock now t v =
    elim (Bool-cases (not t.settings.config.enabled || too_soon now t t.last_evaluation)) [
      | inl off ↦ rw off v
      | inr on ↦
          let start : Evaluation = record {
            tally = record {
              reputation_deferrals = t.reputation_deferrals;
              long_deferred = 0;
              held = 0;
            };
            emitted = [];
            order = t.client_order;
          } in
          let s = t.settings in
          rw on (record {
            roomy = v.roomy;
            bounded = omega (arith, evaluate_each-length good s now t.clients start, v.bounded);
            unique = evaluate_each-IsUnique good s now t.clients start v.unique;
            windows = evaluate_each-windows good s now (limit_of t) clock t.clients start v.windows;
            same =
                evaluate_each-AreSame good s now (limit_of t) clock t.clients start v.unique
                  v.windows v.same;
          })
    ]
