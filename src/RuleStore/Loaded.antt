-- ===== src/RuleStore/Loaded.antt =====
-- What load puts into the store is accepted.
use Prim.Native.String.{String}
use packetyeeter.Common.{
  ℕ, ◌≡◌, refl, sym, ◌∙◌, inl, inr, Bool, true, false, ◌&&◌, Option, none, some, [], ◌∷◌, arith,
  if◌then◌else◌, All, Bool-cases, ◌==◌, string_key, eq_iff, nat_key,
}
use packetyeeter.Common.Assoc.{Map, All-put}
use packetyeeter.Common.Result.{Result, ok, err}
use packetyeeter.Common.Sort.{sort}
use packetyeeter.ScrubRules.Types.{Prefix, ProtoRule}
use packetyeeter.RuleStore.{RuleSet, Scopes, StoreError, replace}
use packetyeeter.RuleStore.Accepted.{IsAccepted, replace-IsAccepted}
use packetyeeter.RuleStore.Persist.{
  Bytes, PersistedRules, PersistError, SystemCall, Disk, rename_aside, open_file, read_file,
}
use packetyeeter.RuleStore.Restore.{
  in_scope, invalid_scope, is_valid, add_rule, decode_set, restore_set, restore_scopes, or_skip,
  load, load_file, restored, decoded, scope_before,
}

first_of : (a b : Bool) → (a && b) ≡ true → a ≡ true
first_of a b h = ground (arith, h)

module _ (parse_prefix : String → Option Prefix) (proto_size : ProtoRule → ℕ)
    (unmarshal : Bytes → Option ProtoRule) (now : ℕ) where
  decode_set-ids :
      (scope : String) (enc : Map String Bytes) (set : RuleSet)
      → All (λ p. p.1.id ≡ p.0) set
      → All (λ p. p.1.id ≡ p.0) (decode_set parse_prefix proto_size unmarshal scope now enc set)
  unfolding decode_set
  decode_set-ids scope [] set v = v
  decode_set-ids scope ((id, raw) ∷ rest) set v =
      decode_set-ids scope rest _ (added_ids id (unmarshal raw))
    where
      added_ids :
          (id : String) (read : Option ProtoRule)
          → All
              (λ p. p.1.id ≡ p.0)
              (add_rule parse_prefix proto_size unmarshal scope now id read set)
      added_ids id none = v
      added_ids id (some r) =
          elim (Bool-cases
            (r.id == id && in_scope scope id && is_valid parse_prefix proto_size now r)) [
              | inl taken ↦ rw taken (
                  All-put _ id r set
                    (λ j e.
                      (eq_iff r.id id).0 (
                        first_of _ (in_scope scope id)
                          (first_of _ (is_valid parse_prefix proto_size now r) taken))
                      ∙ sym e)
                    v)
              | inr left ↦ rw left v
            ]

  or_skip-IsAccepted :
      (before : Scopes × ℕ) (n : ℕ) (o : Result StoreError Scopes)
      → IsAccepted parse_prefix before.0
      → ((out : Scopes) → o ≡ ok out → IsAccepted parse_prefix out)
      → IsAccepted parse_prefix (or_skip parse_prefix proto_size before n o).0
  or_skip-IsAccepted before n (err e) a k = a
  or_skip-IsAccepted before n (ok out) a k = k out refl

  restore_set-IsAccepted :
      (scope : String) (set : RuleSet) (before : Scopes × ℕ)
      → All (λ p. p.1.id ≡ p.0) set
      → IsAccepted parse_prefix before.0
      → IsAccepted parse_prefix (restore_set parse_prefix proto_size scope now set before).0
  restore_set-IsAccepted scope [] before ids a = a
  restore_set-IsAccepted scope (r ∷ rs) before ids a =
      or_skip-IsAccepted before _ (replace parse_prefix proto_size scope (r ∷ rs) now before.0) a
        (λ out. replace-IsAccepted parse_prefix proto_size scope (r ∷ rs) now before.0 out ids a)

  either :
      (b : Bool) (before taken : Scopes × ℕ)
      → IsAccepted parse_prefix before.0
      → IsAccepted parse_prefix taken.0
      → IsAccepted parse_prefix (if b then before else taken).0
  either false before taken a t = t
  either true before taken a t = a

  restore_scopes-IsAccepted :
      (enc : Map String (Map String Bytes)) (before : Scopes × ℕ)
      → IsAccepted parse_prefix before.0
      → IsAccepted parse_prefix (restore_scopes parse_prefix proto_size unmarshal now enc before).0
  unfolding restore_scopes
  restore_scopes-IsAccepted [] before a = a
  restore_scopes-IsAccepted ((scope, enc) ∷ rest) before a =
      let set = decode_set parse_prefix proto_size unmarshal scope now enc [] in
      let taken = restore_set parse_prefix proto_size scope now set before in
      restore_scopes-IsAccepted rest (if invalid_scope scope then before else taken) (
        either (invalid_scope scope) before taken a
          (restore_set-IsAccepted scope set before (decode_set-ids scope enc [] tt) a))

  module _ (decode_doc : Bytes → Option PersistedRules) (fails : SystemCall → Bool) where
    restored-IsAccepted :
        (read : Result PersistError PersistedRules) (bytes : Bytes) (d : Disk) (scopes : Scopes)
        → IsAccepted parse_prefix scopes
        → IsAccepted parse_prefix
            (restored parse_prefix proto_size unmarshal decode_doc fails now read bytes d scopes).1
    restored-IsAccepted (err e) bytes d scopes a = elim (Bool-cases (fails rename_aside)) [
      | inl stuck ↦ rw stuck a
      | inr moved ↦ rw moved a
    ]
    restored-IsAccepted (ok doc) bytes d scopes a =
        restore_scopes-IsAccepted (sort scope_before doc.scopes) (scopes, 0) a

    load_file-IsAccepted :
        (file : Option Bytes) (d : Disk) (scopes : Scopes)
        → IsAccepted parse_prefix scopes
        → IsAccepted parse_prefix
            (load_file parse_prefix proto_size unmarshal decode_doc fails now file d scopes).1
    load_file-IsAccepted none d scopes a = a
    load_file-IsAccepted (some bytes) d scopes a = elim (Bool-cases (fails open_file)) [
      | inl f ↦ rw f a
      | inr opened ↦ elim (Bool-cases (fails read_file)) [
        | inl f ↦ rw (opened, f) a
        | inr read ↦
            rw (opened, read) (restored-IsAccepted (decoded decode_doc bytes) bytes d scopes a)
      ]
    ]

    -- Whatever the file holds and whichever system call fails, a load keeps it so that every rule of the store is
    -- under its own id and was accepted when it was stored.
    pub load-IsAccepted :
        (d : Disk) (scopes : Scopes)
        → IsAccepted parse_prefix scopes
        → IsAccepted parse_prefix
            (load parse_prefix proto_size unmarshal decode_doc fails now d scopes).1
    unfolding load
    load-IsAccepted d scopes a = load_file-IsAccepted d.file d scopes a
