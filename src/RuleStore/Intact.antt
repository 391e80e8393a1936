-- ===== src/RuleStore/Intact.antt =====
-- Saving is atomic: whatever fails, the file is the old one or the complete new one.
use packetyeeter.Common.{
  ℕ, ◌≡◌, refl, ◌⊎◌, inl, inr, Bool, false, Option, none, some, All, Bool-cases, [],
}
use packetyeeter.Common.Result.{Result, ok, err}
use packetyeeter.ScrubRules.Types.{ProtoRule}
use packetyeeter.RuleStore.{Scopes}
use packetyeeter.RuleStore.Persist.{
  Bytes, PersistedRules, SystemCall, create_temp, restrict, write_temp, sync_temp, close_temp,
  rename_temp, remove_created, remove_temp, with_temp, PersistError, Disk, replace_file, last_disk,
  encode_state_of, save,
}

-- The file is the one of `d` or holds `bytes`.
abbrev pub IsIntact : Disk → Bytes → Disk → Type 0
IsIntact d bytes s = (s.file ≡ d.file) ⊎ (s.file ≡ some bytes)

-- The save succeeded with `bytes` in the file and nothing temporary, or failed with the old file, and then nothing
-- temporary is left unless it could not be removed.
abbrev pub IsDone :
    (SystemCall → Bool) → Disk → Bytes → Disk → Result PersistError (Unit {0}) → Type 0
IsDone fails d bytes last (ok u) = (last.file ≡ some bytes) × (last.temp ≡ none)
IsDone fails d bytes last (err e) =
    (last.file ≡ d.file) × (fails remove_created ≡ false → last.temp ≡ none)

remove_temp-file : (fails : SystemCall → Bool) (d : Disk) → (remove_temp fails d).file ≡ d.file
remove_temp-file fails d = elim (Bool-cases (fails remove_created)) [
  | inl stays ↦ rw stays refl
  | inr goes ↦ rw goes refl
]

remove_temp-temp :
    (fails : SystemCall → Bool) (d : Disk)
    → fails remove_created ≡ false
    → (remove_temp fails d).temp ≡ none
remove_temp-temp fails d h = rw h refl

replace_file-IsIntact :
    (fails : SystemCall → Bool) (bytes part : Bytes) (d : Disk)
    → d.temp ≡ none
    → let out = replace_file fails bytes part d in
      All (IsIntact d bytes) out.0 × IsDone fails d bytes (last_disk d out.0) out.1
replace_file-IsIntact fails bytes part d clean = elim (Bool-cases (fails create_temp)) [
  | inl f1 ↦ rw f1 ((inl refl, tt), (refl, λ h. clean))
  | inr o1 ↦ elim (Bool-cases (fails restrict)) [
    | inl f2 ↦
        rw (o1, f2)
          (
            (inl refl, (inl (remove_temp-file fails (with_temp [] d)), tt)),
            (remove_temp-file fails (with_temp [] d), remove_temp-temp fails (with_temp [] d)),
          )
    | inr o2 ↦ elim (Bool-cases (fails write_temp)) [
      | inl f3 ↦
          rw (o1, o2, f3)
            (
              (inl refl, (inl refl, (inl (remove_temp-file fails (with_temp part d)), tt))),
              (
                remove_temp-file fails (with_temp part d),
                remove_temp-temp fails (with_temp part d),
              ),
            )
      | inr o3 ↦ elim (Bool-cases (fails sync_temp)) [
        | inl f4 ↦
            rw (o1, o2, o3, f4)
              (
                (inl refl, (inl refl, (inl (remove_temp-file fails (with_temp bytes d)), tt))),
                (
                  remove_temp-file fails (with_temp bytes d),
                  remove_temp-temp fails (with_temp bytes d),
                ),
              )
        | inr o4 ↦ elim (Bool-cases (fails close_temp)) [
          | inl f5 ↦
              rw (o1, o2, o3, o4, f5)
                (
                  (inl refl, (inl refl, (inl (remove_temp-file fails (with_temp bytes d)), tt))),
                  (
                    remove_temp-file fails (with_temp bytes d),
                    remove_temp-temp fails (with_temp bytes d),
                  ),
                )
          | inr o5 ↦ elim (Bool-cases (fails rename_temp)) [
            | inl f6 ↦
                rw (o1, o2, o3, o4, o5, f6)
                  (
                    (inl refl, (inl refl, (inl (remove_temp-file fails (with_temp bytes d)), tt))),
                    (
                      remove_temp-file fails (with_temp bytes d),
                      remove_temp-temp fails (with_temp bytes d),
                    ),
                  )
            | inr o6 ↦
                rw (o1, o2, o3, o4, o5, o6) ((inl refl, (inl refl, (inr refl, tt))), (refl, refl))
          ]
        ]
      ]
    ]
  ]
]

-- If the rules can be encoded as `bytes` and no temporary file is left over: after every system call of a save,
-- whichever of them fails and whatever a failing write leaves behind, the file is the one before the save or holds
-- exactly `bytes`; the save succeeds only with `bytes` in the file and no temporary file, and fails only with the file of
-- before, and then with no temporary file unless its removal fails.
pub save-IsIntact :
    (marshal : ProtoRule → Option Bytes) (encode_doc : PersistedRules → Option Bytes)
    (fails : SystemCall → Bool) (part : Bytes) (now : ℕ) (scopes : Scopes) (d : Disk)
    (bytes : Bytes)
    → encode_state_of marshal encode_doc now scopes ≡ ok bytes
    → d.temp ≡ none
    → let out = save marshal encode_doc fails part now scopes d in
      All (IsIntact d bytes) out.0 × IsDone fails d bytes (last_disk d out.0) out.1
unfolding save
save-IsIntact marshal encode_doc fails part now scopes d bytes encoded clean =
    rw encoded (replace_file-IsIntact fails bytes part d clean)
