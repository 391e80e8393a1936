-- ===== src/GrpcTls/Reload.antt =====
-- fileSource of pkg/grpctls/reload.go. What the disk shows is a value that the caller passes.
use packetyeeter.Common.{
  ℕ, Bool, true, false, ◌&&◌, Option, none, some, List, [], ◌∷◌, if◌then◌else◌, ◌==◌, nat_key, ◌≡◌,
  refl, beq_self, Bool-cases, inl, inr,
}

pub record FileStamp : Type 0 where
  pub mod_time : ℕ
  pub size : ℕ

-- `stamps` is what statFiles returns, and `parsed` what reading and parsing the files gives.
pub record Disk (T : Type 0) : Type 0 where
  pub stamps : Option (List FileStamp)
  pub parsed : Option T

pub record FileSource (T : Type 0) : Type 0 where
  pub stamps : List FileStamp
  pub current : T

pub stamps_equal : List FileStamp → List FileStamp → Bool
stamps_equal [] [] = true
stamps_equal [] (b ∷ bs) = false
stamps_equal (a ∷ as') [] = false
stamps_equal (a ∷ as') (b ∷ bs) =
    let rest = stamps_equal as' bs in
    if a.mod_time == b.mod_time && a.size == b.size then rest else false

module _ {T : Type 0} where
  pub new_file_source : Disk T → Option (FileSource T)
  new_file_source d = elim d.stamps [
    | none ↦ none
    | some stamps ↦ elim d.parsed [
      | none ↦ none
      | some v ↦ some (record { stamps = stamps; current = v })
    ]
  ]

  -- A file that cannot be read or parsed keeps what was loaded before.
  abbrev pub reloaded : Option T → List FileStamp → FileSource T → FileSource T
  reloaded none stamps s = record s { stamps = stamps }
  reloaded (some v) stamps s = record { stamps = stamps; current = v }

  abbrev pub with_stat : Option (List FileStamp) → Option T → FileSource T → FileSource T
  with_stat none parsed s = s
  with_stat (some stamps) parsed s =
      if stamps_equal stamps s.stamps then s else reloaded parsed stamps s

  -- `get`, whose result is the `current` of the source after it; `peek` is `current`.
  unfoldable pub get : Disk T → FileSource T → FileSource T
  unfolding stamps_equal
  get d s = with_stat d.stamps d.parsed s

pub stamps_equal_self : (as' : List FileStamp) → stamps_equal as' as' ≡ true
unfolding stamps_equal
stamps_equal_self [] = refl
stamps_equal_self (a ∷ as') = rw (beq_self a.mod_time, beq_self a.size) (stamps_equal_self as')

-- A second `get` with nothing changed on disk changes nothing: a broken file is parsed once per change.
pub get-get : {T : Type 0} (d : Disk T) (s : FileSource T) → get d (get d s) ≡ get d s
unfolding get
get-get d s = go d.stamps d.parsed s
  where
    go :
        {T : Type 0} (o : Option (List FileStamp)) (p : Option T) (s : FileSource T)
        → with_stat o p (with_stat o p s) ≡ with_stat o p s
    go none p s = refl
    go (some stamps) p s = elim (Bool-cases (stamps_equal stamps s.stamps)) [
      | inl same ↦ rw (same, same) refl
      | inr changed ↦ rw changed (again p)
    ]
      where
        again :
            (q : Option _) → with_stat (some stamps) q (reloaded q stamps s) ≡ reloaded q stamps s
        again none = rw (stamps_equal_self stamps) refl
        again (some v) = rw (stamps_equal_self stamps) refl
