-- ===== src/Store/Once.antt =====
-- store.go: readVarsFile, over the calls of a process.
use syver.Prelude.{
  ◌≤◌, String, str_eq, eq_of_str_eq, str_eq_self, str_eq_of_ne, ◌≡◌, ◌≢◌, refl, sym, subst, ◌⊎◌,
  inl, inr, Bool, true, false, List, [], ◌∷◌, All, Option, none, some, Result, update, Bool-cases,
  arith,
}
use syver.Store.Vars.{
  VarsFiles, no_vars_files, Disk, read_fresh, from_cache, read_vars_file, read_all,
}

ne_of_str_eq : (s t : String) → str_eq s t ≡ false → s ≢ t
ne_of_str_eq s t h e = cc (e, h, str_eq_self t)

module _ (disk : Disk) (path : String) where
  -- A path that is no regular file was not read yet, or was read once, and what it answered is kept.
  abbrev Kept : VarsFiles → Type 0
  Kept s =
      ((s.cache path ≡ none) × (s.reads path ≡ 0))
      ⊎ ((s.cache path ≡ some (disk.read 0 path)) × (s.reads path ≡ 1))

  module _ (special : disk.plain path ≡ false) where
    abbrev Answered : String → Result String String × VarsFiles → Type 0
    Answered other (r, s) = (other ≡ path → r ≡ disk.read 0 path) × Kept s

    read-here : (s : VarsFiles) → Kept s → Answered path (read_vars_file disk path s)
    unfolding read_vars_file
    read-here s (inl (empty, never)) =
        rw (empty, special, never, str_eq_self path) ((λ h. refl), inr (refl, refl))
    read-here s (inr (filled, once)) = rw filled ((λ h. refl), inr (filled, once))

    fresh-elsewhere :
        (regular : Bool) (other : String) (s : VarsFiles)
        → other ≢ path
        → Kept s
        → Answered other (read_fresh disk regular other s)
    unfolding update
    fresh-elsewhere true other s ne h = ((λ e. absurd (ne e)), rw (str_eq_of_ne other path ne) h)
    fresh-elsewhere false other s ne h = ((λ e. absurd (ne e)), rw (str_eq_of_ne other path ne) h)

    cached-elsewhere :
        (c : Option (Result String String)) (other : String) (s : VarsFiles)
        → other ≢ path
        → Kept s
        → Answered other (from_cache disk c other s)
    cached-elsewhere (some r) other s ne h = ((λ e. absurd (ne e)), h)
    cached-elsewhere none other s ne h = fresh-elsewhere (disk.plain other) other s ne h

    read-Answered :
        (other : String) (s : VarsFiles) → Kept s → Answered other (read_vars_file disk other s)
    unfolding read_vars_file
    read-Answered other s h = elim (Bool-cases (str_eq other path)) [
      | inl same ↦
          subst (λ p. Answered p (read_vars_file disk p s)) (sym (eq_of_str_eq other path same))
            (read-here s h)
      | inr differ ↦ cached-elsewhere (s.cache other) other s (ne_of_str_eq other path differ) h
    ]

    read_all-Answered :
        (paths : List String) (s : VarsFiles)
        → Kept s
        → (All (λ a. a.0 ≡ path → a.1 ≡ disk.read 0 path) (read_all disk paths s).0)
          × Kept (read_all disk paths s).1
    unfolding read_all
    read_all-Answered [] s h = (tt, h)
    read_all-Answered (other ∷ paths) s h =
        let (answered, kept) = read-Answered other s h in
        let (rest, last) = read_all-Answered paths (read_vars_file disk other s).1 kept in
        ((answered, rest), last)

  -- Over any calls of a process, a path that is no regular file is read at most once, and each call
  -- for it answers what that first read gave.
  pub read_all-once :
      (paths : List String)
      → disk.plain path ≡ false
      → (All (λ a. a.0 ≡ path → a.1 ≡ disk.read 0 path) (read_all disk paths no_vars_files).0)
        × ((read_all disk paths no_vars_files).1.reads path ≤ 1)
  read_all-once paths special =
      let (answers, kept) = read_all-Answered special paths no_vars_files (inl (refl, refl)) in
      (
        answers,
        elim kept [
          | inl (empty, never) ↦ omega (arith, never)
          | inr (filled, once) ↦ omega (arith, once)
        ],
      )
