-- ===== src/RuleEngine/Kernel.antt =====
-- The interface `ruleMaps` of pkg/collector/rules.go. `live` is the trie that XDP reads for a family
-- (true for IPv6); the laws are the documented ones: a swap takes effect as a whole or not at all, and
-- writing a body or a bucket touches no trie.
use packetyeeter.Common.{ℕ, ◌≡◌, ◌≢◌, String, Bool, Option, none, some, List, ap, sym, ◌∙◌}
use packetyeeter.Common.Assoc.{Map}
use packetyeeter.ScrubRules.Types.{Prefix, ScrubRule}

abbrev pub Trie : Type 0
Trie = Map Prefix (List ℕ)

-- An operation returns its error beside the new kernel state.
pub record RuleMaps : Type 1 where
  pub K : Type 0
  pub put_rule_body : ℕ → ScrubRule → K → K × Option String
  pub reset_rule_bucket : ℕ → K → K × Option String
  pub swap_rule_trie : Bool → Trie → K → K × Option String
  pub live : Bool → K → Trie
  pub live-put :
      (fam : Bool) (slot : ℕ) (b : ScrubRule) (k : K)
      → live fam (put_rule_body slot b k).0 ≡ live fam k
  pub live-reset :
      (fam : Bool) (slot : ℕ) (k : K) → live fam (reset_rule_bucket slot k).0 ≡ live fam k
  pub live-swap :
      (fam : Bool) (t : Trie) (k : K)
      → (swap_rule_trie fam t k).1 ≡ none
      → live fam (swap_rule_trie fam t k).0 ≡ t
  pub live-swap_failed :
      (fam v6 : Bool) (t : Trie) (k : K) (e : String)
      → (swap_rule_trie v6 t k).1 ≡ some e
      → live fam (swap_rule_trie v6 t k).0 ≡ live fam k
  pub live-swap_ne :
      (fam v6 : Bool) (t : Trie) (k : K)
      → v6 ≢ fam
      → live fam (swap_rule_trie v6 t k).0 ≡ live fam k

-- The laws at an answer that is known.
module _ (m : RuleMaps) (t : Trie) (k k' : m.K) where
  pub swap-done : (fam : Bool) → m.swap_rule_trie fam t k ≡ (k', none) → m.live fam k' ≡ t
  swap-done fam h =
      ap (λ (p : m.K × Option String). m.live fam p.0) (sym h)
      ∙ m.live-swap fam t k (ap (λ (p : m.K × Option String). p.1) h)

  pub swap-failed :
      (fam v6 : Bool) (e : String)
      → m.swap_rule_trie v6 t k ≡ (k', some e)
      → m.live fam k' ≡ m.live fam k
  swap-failed fam v6 e h =
      ap (λ (p : m.K × Option String). m.live fam p.0) (sym h)
      ∙ m.live-swap_failed fam v6 t k e (ap (λ (p : m.K × Option String). p.1) h)

  pub swap-other :
      (fam v6 : Bool) (o : Option String)
      → v6 ≢ fam
      → m.swap_rule_trie v6 t k ≡ (k', o)
      → m.live fam k' ≡ m.live fam k
  swap-other fam v6 o ne h =
      ap (λ (p : m.K × Option String). m.live fam p.0) (sym h) ∙ m.live-swap_ne fam v6 t k ne
