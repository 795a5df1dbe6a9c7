-- ===== src/Store/Loops.antt =====
-- store.go: mergeJSONData on includes that are nested too deep, or without end.
use syver.Prelude.{
  ℕ, zero, suc, String, concat, ◌≡◌, refl, subst, false, List, [], ◌∷◌, Memᴰ, Result, ok, err,
  ◌>>=◌, ◌⊎◌, inl, inr,
}
use syver.Store.{Include, SyverConfig, merge_syver}
use syver.Store.Merge.{
  Files, during, err_max_depth, include_path, matches_of, merge_match, merge_matches, merge_include,
  merge_includes, merge_json_data,
}

abbrev pub Fails : {A : Type 0} → Result String A → Type 0
Fails r = (e : String) × (r ≡ err e)

>>=-Fails :
    {A B : Type 0} (x : Result String A) (f : A → Result String B) → Fails x → Fails (x >>= f)
>>=-Fails (ok a) f (e, h) = cc
>>=-Fails (err e') f h = (e', refl)

later-Fails :
    {A B : Type 0} (x : Result String A) (f : A → Result String B)
    → ((a : A) → Fails (f a))
    → Fails (x >>= f)
later-Fails (ok a) f k = k a
later-Fails (err e) f k = (e, refl)

during-Fails :
    {A : Type 0} (context : String) (x : Result String A) → Fails x → Fails (during context x)
during-Fails context (ok a) (e, h) = cc
during-Fails context (err e') h = (concat context e', refl)

module _ (files : Files) where
  -- A spec that stands in the given folder includes a file, which holds a spec of its own.
  pub record Loads (c : SyverConfig) (path : String) (match : String) (j : SyverConfig)
      : Type 0 where
    pub include : Include
    pub matches : List String
    pub listed : Memᴰ include (files.sorted c.syverfiles)
    pub taken : include.skip ≡ false
    pub expanded : matches_of files (include_path files path include) ≡ ok matches
    pub matched : Memᴰ match matches
    pub read : files.read_json match ≡ ok j

  -- Includes that are nested to a number of levels.
  abbrev pub Nested : ℕ → SyverConfig → String → Type 0
  Nested zero c path = Unit
  Nested (suc levels) c path =
      (match : String) × (j : SyverConfig) × (Loads c path match j)
      × Nested levels j (files.dir match)

  module _ (next : SyverConfig → String → Result String SyverConfig) where
    merge_match-Fails :
        (match : String) (j : SyverConfig)
        → files.read_json match ≡ ok j
        → Fails (next j (files.dir match))
        → Fails (merge_match files next match)
    unfolding merge_match
    merge_match-Fails match j read h = rw read (during-Fails _ _ h)

    merge_matches-Fails :
        (match : String) (matches : List String) (before : SyverConfig)
        → Memᴰ match matches
        → Fails (merge_match files next match)
        → Fails (merge_matches files next matches before)
    unfolding merge_matches
    merge_matches-Fails match [] before mem h = elim mem [ ]
    merge_matches-Fails match (m ∷ ms) before (Memᴰ.head e) h =
        >>=-Fails _ _ (subst (λ x. Fails (merge_match files next x)) e h)
    merge_matches-Fails match (m ∷ ms) before (Memᴰ.tail mem) h =
        later-Fails _ _ λ j. merge_matches-Fails match ms (merge_syver before j) mem h

    merge_include-Fails :
        (path match : String) (g : Include) (matches : List String) (before : SyverConfig)
        → g.skip ≡ false
        → matches_of files (include_path files path g) ≡ ok matches
        → Memᴰ match matches
        → Fails (merge_match files next match)
        → Fails (merge_include files next path g before)
    unfolding merge_include
    merge_include-Fails path match g matches before taken expanded mem h =
        rw (taken, expanded) (merge_matches-Fails match matches before mem h)

    merge_includes-Fails :
        (path : String) (g : Include) (gs : List Include) (before : SyverConfig)
        → Memᴰ g gs
        → ((ret : SyverConfig) → Fails (merge_include files next path g ret))
        → Fails (merge_includes files next path gs before)
    unfolding merge_includes
    merge_includes-Fails path g [] before mem h = elim mem [ ]
    merge_includes-Fails path g (g' ∷ gs) before (Memᴰ.head e) h =
        >>=-Fails _ _ (subst (λ x. Fails (merge_include files next path x before)) e (h before))
    merge_includes-Fails path g (g' ∷ gs) before (Memᴰ.tail mem) h =
        later-Fails _ _ λ ret. merge_includes-Fails path g gs ret mem h

  Nested-Fails :
      (levels : ℕ) (c : SyverConfig) (path : String)
      → Nested levels c path
      → Fails (merge_json_data files levels c path)
  unfolding merge_json_data
  Nested-Fails zero c path nested = (err_max_depth, refl)
  Nested-Fails (suc levels) c path (match, j, loads, nested) =
      merge_includes-Fails (merge_json_data files levels) path loads.include _ _ loads.listed λ ret.
        merge_include-Fails (merge_json_data files levels) path match loads.include loads.matches
          ret loads.taken loads.expanded loads.matched
          (merge_match-Fails (merge_json_data files levels) match j loads.read
            (Nested-Fails levels j (files.dir match) nested))

  -- From a spec in its folder, one or more includes lead to another.
  pub data Leads : SyverConfig → String → SyverConfig → String → Type 0 where
    at_once :
        {c j : SyverConfig} {path match : String}
        → Loads c path match j
        → Leads c path j (files.dir match)
    onward :
        {c j d : SyverConfig} {path match folder : String}
        → Loads c path match j
        → Leads j (files.dir match) d folder
        → Leads c path d folder

  cycle-Nested :
      (levels : ℕ) (c d : SyverConfig) (path folder : String)
      → Leads c path d folder
      → Leads d folder d folder
      → Nested levels c path
  cycle-Nested zero c d path folder there back = tt
  cycle-Nested (suc levels) c d path folder (at_once {j = j} {match = match} loads) back =
      (match, j, loads, cycle-Nested levels j j (files.dir match) (files.dir match) back back)
  cycle-Nested (suc levels) c d path folder (onward {j = j} {match = match} loads rest) back =
      (match, j, loads, cycle-Nested levels j d (files.dir match) folder rest back)

  -- The merge of a spec fails, whatever the number of levels that are left, when its includes are
  -- nested at least that deep, each file of a chain including the next, or when they lead to a file
  -- that stands on a cycle: its own includes, or those of the files it includes, lead back to it.
  pub merge_json_data-Fails :
      (levels : ℕ) (c : SyverConfig) (path : String)
      → Nested levels c path
        ⊎ ((d : SyverConfig) × (folder : String) × Leads c path d folder × Leads d folder d folder)
      → Fails (merge_json_data files levels c path)
  merge_json_data-Fails levels c path (inl nested) = Nested-Fails levels c path nested
  merge_json_data-Fails levels c path (inr (d, folder, there, back)) =
      Nested-Fails levels c path (cycle-Nested levels c d path folder there back)
