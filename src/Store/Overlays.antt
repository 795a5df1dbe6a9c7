-- ===== src/Store/Overlays.antt =====
-- store.go: mergeJSONData lays each spec over those loaded before it.
use syver.Prelude.{
  ℕ, zero, suc, String, ◌≡◌, refl, sym, ◌∙◌, ap, subst, Bool, true, false, List, [], ◌∷◌, ◌++◌,
  Option, none, some, Result, ok, if◌then◌else◌,
}
use syver.Value.{Value}
use syver.Store.{Include, SyverConfig, new_syver_config, merge_syver, merge_maps, override}
use syver.Store.Merge.{
  Files, during, include_path, matches_of, merge_match, merge_matches, merge_include,
  merge_includes, merge_json_data,
}
use syver.Store.Layers.{
  match_layers, matches_layers, include_layers, includes_layers, layers, part, last_value, Both,
  Overlay, Extends, >>=-Both, Both-refl, Both-right, during-Both,
}

override_assoc : (a b c : Option Value) → override a (override b c) ≡ override (override a b) c
override_assoc none b c = refl
override_assoc (some v) b c = refl

override-none : (a : Option Value) → override a none ≡ a
override-none none = refl
override-none (some v) = refl

last_value-append :
    (discovered : Bool) (cs ds : List SyverConfig) (type key : String)
    → last_value discovered (cs ++ ds) type key
      ≡ override (last_value discovered ds type key) (last_value discovered cs type key)
last_value-append discovered [] ds type key =
    sym (override-none (last_value discovered ds type key))
last_value-append discovered (c ∷ cs) ds type key =
    ap (λ v. override v (part discovered c type key)) (last_value-append discovered cs ds type key)
    ∙ sym (
        override_assoc (last_value discovered ds type key) (last_value discovered cs type key)
          (part discovered c type key))

Extends-append :
    (a b c : SyverConfig) (cs ds : List SyverConfig)
    → Extends a b cs
    → Extends b c ds
    → Extends a c (cs ++ ds)
Extends-append a b c cs ds h k discovered type key =
    k discovered type key
    ∙ ap (override (last_value discovered ds type key)) (h discovered type key)
    ∙ override_assoc (last_value discovered ds type key) (last_value discovered cs type key)
        (part discovered a type key)
    ∙ ap (λ v. override v (part discovered a type key))
        (sym (last_value-append discovered cs ds type key))

merge_syver-Extends :
    (before c : SyverConfig) (cs : List SyverConfig)
    → Overlay c cs
    → Extends before (merge_syver before c) cs
unfolding merge_syver merge_maps
merge_syver-Extends before c cs h false type key =
    ap (λ v. override v (before.resources type key)) (h false type key)
merge_syver-Extends before c cs h true type key =
    ap (λ v. override v (before.discovery type key)) (h true type key)

module _ (files : Files) where
  module _ (next : SyverConfig → String → Result String SyverConfig)
      (next_layers : SyverConfig → String → Result String (List SyverConfig))
      (same : (c : SyverConfig) (path : String)
        → Both Overlay (next c path) (next_layers c path)) where
    match-Both :
        (match : String)
        → Both Overlay (merge_match files next match) (match_layers files next_layers match)
    unfolding merge_match match_layers
    match-Both match =
        >>=-Both (λ a b. a ≡ b) Overlay _ _ _ _ (Both-refl _)
          λ a b e.
            subst
              (λ c.
                Both Overlay (during "could not write json data: " (next a (files.dir match)))
                  (during "could not write json data: " (next_layers c (files.dir match))))
              e (during-Both Overlay _ _ _ (same a (files.dir match)))

    matches-Both :
        (matches : List String) (before : SyverConfig)
        → Both
            (Extends before)
            (merge_matches files next matches before)
            (matches_layers files next_layers matches)
    unfolding merge_matches matches_layers
    matches-Both [] before = λ discovered type key. refl
    matches-Both (match ∷ matches) before =
        >>=-Both Overlay (Extends before) _ _ _ _ (match-Both match) λ j first over.
          Both-right (Extends (merge_syver before j)) (Extends before) _ _ (λ rest. first ++ rest)
            (matches-Both matches (merge_syver before j))
            λ c rest h.
              Extends-append before (merge_syver before j) c first rest
                (merge_syver-Extends before j first over) h

    if_skipped :
        (b : Bool) (before : SyverConfig) (x : Result String SyverConfig)
        (y : Result String (List SyverConfig))
        → Both (Extends before) x y
        → Both (Extends before) (if b then ok before else x) (if b then ok [] else y)
    if_skipped true before x y h = λ discovered type key. refl
    if_skipped false before x y h = h

    include-Both :
        (path : String) (g : Include) (before : SyverConfig)
        → Both
            (Extends before)
            (merge_include files next path g before)
            (include_layers files next_layers path g)
    unfolding merge_include include_layers
    include-Both path g before = if_skipped g.skip before _ _ (
        >>=-Both (λ a b. a ≡ b) (Extends before) _ _ _ _
          (Both-refl (matches_of files (include_path files path g)))
          λ a b e.
            subst
              (λ ms.
                Both (Extends before) (merge_matches files next a before)
                  (matches_layers files next_layers ms))
              e (matches-Both a before))

    includes-Both :
        (path : String) (gs : List Include) (before : SyverConfig)
        → Both
            (Extends before)
            (merge_includes files next path gs before)
            (includes_layers files next_layers path gs)
    unfolding merge_includes includes_layers
    includes-Both path [] before = λ discovered type key. refl
    includes-Both path (g ∷ gs) before =
        >>=-Both (Extends before) (Extends before) _ _ _ _ (include-Both path g before)
          λ ret first h.
            Both-right (Extends ret) (Extends before) _ _ (λ rest. first ++ rest)
              (includes-Both path gs ret) λ c rest k. Extends-append before ret c first rest h k

  root-Overlay :
      (c ret : SyverConfig) (rest : List SyverConfig)
      → Extends (merge_syver new_syver_config c) ret rest
      → Overlay ret (c ∷ rest)
  unfolding merge_syver merge_maps
  root-Overlay c ret rest h false type key =
      h false type key ∙ ap (override (last_value false rest type key)) (override-none _)
  root-Overlay c ret rest h true type key =
      h true type key ∙ ap (override (last_value true rest type key)) (override-none _)

  -- Merging a spec fails with the error that loading the specs one after another, each before those
  -- that it includes, meets first; and where that loads a list of specs, the merged spec has under
  -- each type and key, of the resources and of the discoverable ones, the value of the last spec of
  -- the list that has one.
  pub merge_json_data-Overlay :
      (levels : ℕ) (c : SyverConfig) (path : String)
      → Both Overlay (merge_json_data files levels c path) (layers files levels c path)
  unfolding merge_json_data layers
  merge_json_data-Overlay zero c path = refl
  merge_json_data-Overlay (suc levels) c path =
      Both-right (Extends (merge_syver new_syver_config c)) Overlay _ _ (λ rest. c ∷ rest)
        (includes-Both (merge_json_data files levels) (layers files levels)
          (merge_json_data-Overlay levels) path (files.sorted c.syverfiles)
          (merge_syver new_syver_config c))
        λ ret rest h. root-Overlay c ret rest h
