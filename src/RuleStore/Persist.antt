-- ===== src/RuleStore/Persist.antt =====
-- save of pkg/analyzer/rules_persist.go: the file that keeps the rules over a restart. The encodings of protojson
-- and encoding/json are the parameters `marshal` and `encode_doc`; `fails` says which system calls fail. A file's
-- content is its list of bytes.
use packetyeeter.Common.{
  ℕ, ◌*◌, String, Bool, Option, none, some, List, [], ◌∷◌, if◌then◌else◌, nat_key, string_key,
}
use packetyeeter.Common.Assoc.{Map}
use packetyeeter.Common.Result.{Result, ok, err, ◌>>=◌}
use packetyeeter.ScrubRules.Types.{ProtoRule}
use packetyeeter.RuleStore.{RuleSet, Scopes, max_rule_set_bytes}

abbrev pub max_rule_state_bytes : ℕ
max_rule_state_bytes = 8 * max_rule_set_bytes

abbrev pub Bytes : Type 0
Bytes = List ℕ

pub record PersistedRules : Type 0 where
  pub version : ℕ
  pub saved : ℕ
  pub scopes : Map String (Map String Bytes)

pub data SystemCall : Type 0 where
  create_temp restrict write_temp sync_temp close_temp rename_temp open_file read_file rename_aside
        remove_created :
      SystemCall

pub data PersistError : Type 0 where
  call_failed : SystemCall → PersistError
  encode_rule : String → PersistError
  encode_state decode_state state_too_large : PersistError
  unsupported_version : ℕ → PersistError

-- The directory: the rule state, the temporary file, and what was moved aside at a Unix time.
pub record Disk : Type 0 where
  pub file : Option Bytes
  pub temp : Option Bytes
  pub aside : Map ℕ Bytes

-- The deferred os.Remove of the temporary file, whose error is ignored.
abbrev pub remove_temp : (SystemCall → Bool) → Disk → Disk
remove_temp fails d = if fails remove_created then d else record d { temp = none }

abbrev pub with_temp : Bytes → Disk → Disk
with_temp bytes d = record d { temp = some bytes }

abbrev pub renamed : Bytes → Disk → Disk
renamed bytes d = record d { file = some bytes; temp = none }

module _ (fails : SystemCall → Bool) where
  -- What each call of `save` leaves on the disk, in turn, with `part` what a failing write wrote; and the outcome.
  abbrev pub replace_file : Bytes → Bytes → Disk → List Disk × Result PersistError (Unit {0})
  replace_file bytes part d =
      let created = with_temp [] d in
      let written = with_temp bytes d in
      if fails create_temp
      then (d ∷ [], err (call_failed create_temp))
      else if fails restrict
      then (created ∷ remove_temp fails created ∷ [], err (call_failed restrict))
      else if fails write_temp
      then (
        created ∷ with_temp part d ∷ remove_temp fails (with_temp part d) ∷ [],
        err (call_failed write_temp),
      )
      else if fails sync_temp
      then (created ∷ written ∷ remove_temp fails written ∷ [], err (call_failed sync_temp))
      else if fails close_temp
      then (created ∷ written ∷ remove_temp fails written ∷ [], err (call_failed close_temp))
      else if fails rename_temp
      then (created ∷ written ∷ remove_temp fails written ∷ [], err (call_failed rename_temp))
      else (created ∷ written ∷ renamed bytes written ∷ [], ok tt)

-- The disk after the last call.
abbrev pub last_disk : Disk → List Disk → Disk
last_disk d [] = d
last_disk d (next ∷ states) = last_disk next states

abbrev pub or_error : {A : Type 0} → Option A → PersistError → Result PersistError A
or_error none e = err e
or_error (some a) e = ok a

module _ (marshal : ProtoRule → Option Bytes) where
  unfoldable pub encode_set : RuleSet → Result PersistError (Map String Bytes)
  encode_set [] = ok []
  encode_set ((id, r) ∷ rest) = do
    raw ← or_error (marshal r) (encode_rule id)
    more ← encode_set rest
    ok ((id, raw) ∷ more)

  unfoldable pub encode_scopes : Scopes → Result PersistError (Map String (Map String Bytes))
  unfolding encode_set
  encode_scopes [] = ok []
  encode_scopes ((scope, set) ∷ rest) = do
    enc ← encode_set set
    more ← encode_scopes rest
    ok ((scope, enc) ∷ more)

module _ (marshal : ProtoRule → Option Bytes) (encode_doc : PersistedRules → Option Bytes) where
  -- The bytes of the file that `save` writes.
  unfoldable pub encode_state_of : ℕ → Scopes → Result PersistError Bytes
  unfolding encode_scopes
  encode_state_of now scopes = do
    enc ← encode_scopes marshal scopes
    or_error (encode_doc (record { version = 1; saved = now; scopes = enc })) encode_state

  abbrev pub saved_disk :
      (SystemCall → Bool)
      → Bytes
      → Disk
      → Result PersistError Bytes
      → List Disk × Result PersistError (Unit {0})
  saved_disk fails part d (err e) = (d ∷ [], err e)
  saved_disk fails part d (ok bytes) = replace_file fails bytes part d

  unfoldable pub save :
      (SystemCall → Bool) → Bytes → ℕ → Scopes → Disk → List Disk × Result PersistError (Unit {0})
  unfolding encode_state_of
  save fails part now scopes d = saved_disk fails part d (encode_state_of now scopes)
