-- ===== src/Matchers/Compile/Laws.antt =====
-- resource/gomega.go: what the matcher of a spec value is made of.
use syver.Prelude.{String, str_eq, ◌≡◌, subst, ◌||◌, Result, ok, err, ◌>>=◌}
use syver.Value.{
  Value, Values, none_left, item, Entries, end, entry, nil, bool, int, float, str, strings, list,
  table,
}
use syver.Matchers.Transforms.{to_array, gjson}
use syver.Matchers.{
  SyverMatcher, SyverMatchers, matchers, have_key, contain_elements, consist_of, negation,
  conjunction, disjunction, with_safe_transform,
}
use syver.Matchers.Compile.{
  Prints, Compiled, matcher_named, matcher_to_gomega_matcher, slice_to_gomega, each_matcher,
  path_matchers, each_path,
}
use syver.Matchers.Compile.Empty.{Vacuous, Vacuous-Fails}
use syver.Matchers.Compile.Cases.{
  Asserts, Sound, EachSound, if-Sound, of_text-Sound, len_of-Sound, patterns_of-Sound,
  wrapped-Sound, grouped-Sound, nonempty_group-Sound, element_of-Sound,
}

module _ (prints : Prints) where
  matcher_named-Sound :
      (key : String) (value : Value) (sub : Compiled)
      (elements : String → Result String SyverMatchers) (paths : Result String SyverMatchers)
      → Sound sub
      → ((name : String) → EachSound (elements name))
      → EachSound paths
      → Sound (matcher_named prints key value sub elements paths)
  unfolding matcher_named
  matcher_named-Sound key value sub elements paths one each all =
      if-Sound (str_eq key "equal") _ _ tt (
        if-Sound (str_eq key "have-prefix") _ _ (of_text-Sound prints key _ value λ s. tt) (
          if-Sound (str_eq key "have-suffix") _ _ (of_text-Sound prints key _ value λ s. tt) (
            if-Sound (str_eq key "match-regexp") _ _ (of_text-Sound prints key _ value λ s. tt) (
              if-Sound (str_eq key "contain-substring") _ _
                (of_text-Sound prints key _ value λ s. tt)
                (if-Sound (str_eq key "have-len") _ _ (len_of-Sound prints value) (
                  if-Sound (str_eq key "have-patterns") _ _ (patterns_of-Sound prints value) (
                    if-Sound (str_eq key "have-key") _ _
                      (wrapped-Sound prints have_key sub (λ m s. s) one)
                      (if-Sound (str_eq key "contain-element") _ _
                        (element_of-Sound prints value sub one)
                        (if-Sound (str_eq key "contain-elements") _ _
                          (nonempty_group-Sound prints key
                            (λ ms. with_safe_transform to_array (contain_elements ms))
                            (elements "contains-elements") (λ m ms s. s) (each "contains-elements"))
                          (if-Sound (str_eq key "not") _ _
                            (wrapped-Sound prints negation sub (λ m s. s) one)
                            (if-Sound (str_eq key "consist-of") _ _
                              (grouped-Sound prints consist_of (elements key) (λ ms s. s)
                                (each key))
                              (if-Sound (str_eq key "and") _ _
                                (nonempty_group-Sound prints key conjunction (elements key)
                                  (λ m ms s. s) (each key))
                                (if-Sound (str_eq key "or") _ _
                                  (nonempty_group-Sound prints key disjunction (elements key)
                                    (λ m ms s. s) (each key))
                                  (if-Sound
                                    (str_eq key "gt"
                                      || str_eq key "ge"
                                      || str_eq key "lt"
                                      || str_eq key "le")
                                    _ _ tt
                                    (if-Sound (str_eq key "semver-constraint") _ _
                                      (of_text-Sound prints key _ value λ s. tt)
                                      (if-Sound (str_eq key "gjson") _ _
                                        (nonempty_group-Sound prints key conjunction paths
                                          (λ m ms s. s) all)
                                        tt))))))))))))))))

  more-EachSound :
      (make : SyverMatcher → SyverMatcher) (first : Compiled) (rest : Result String SyverMatchers)
      → ((m : SyverMatcher) → Asserts m → Asserts (make m))
      → Sound first
      → EachSound rest
      → EachSound (first >>= λ m. rest >>= λ ms. ok (matchers (make m) ms))
  more-EachSound make (err e) rest h s r = tt
  more-EachSound make (ok m) (err e) h s r = tt
  more-EachSound make (ok m) (ok ms) h s r = (h m s, r)

  mutual
    unfolding matcher_to_gomega_matcher

    matcher-Sound : (v : Value) → Sound (matcher_to_gomega_matcher prints v)
    matcher-Sound (str s) = tt
    matcher-Sound (float x) = tt
    matcher-Sound (int i) = tt
    matcher-Sound (bool b) = tt
    matcher-Sound (list vs) =
        grouped-Sound prints contain_elements (each_matcher prints vs) (λ ms s. s)
          (each_matcher-Sound vs)
    matcher-Sound nil = tt
    matcher-Sound (strings ss) = tt
    matcher-Sound (table end) = tt
    matcher-Sound (table (entry key value end)) =
        matcher_named-Sound key value _ _ _ (matcher-Sound value) (slice-Sound value)
          (paths-Sound value)
    matcher-Sound (table (entry key value (entry key' value' es))) = tt

    slice-Sound : (v : Value) (name : String) → EachSound (slice_to_gomega prints v name)
    slice-Sound (list vs) name = each_matcher-Sound vs
    slice-Sound nil name = tt
    slice-Sound (bool b) name = tt
    slice-Sound (int i) name = tt
    slice-Sound (float x) name = tt
    slice-Sound (str s) name = tt
    slice-Sound (strings ss) name = tt
    slice-Sound (table es) name = tt

    each_matcher-Sound : (vs : Values) → EachSound (each_matcher prints vs)
    each_matcher-Sound none_left = tt
    each_matcher-Sound (item v vs) =
        more-EachSound (λ m. m) (matcher_to_gomega_matcher prints v) (each_matcher prints vs)
          (λ m s. s) (matcher-Sound v) (each_matcher-Sound vs)

    paths-Sound : (v : Value) → EachSound (path_matchers prints v)
    paths-Sound (table es) = each_path-Sound es
    paths-Sound nil = tt
    paths-Sound (bool b) = tt
    paths-Sound (int i) = tt
    paths-Sound (float x) = tt
    paths-Sound (str s) = tt
    paths-Sound (strings ss) = tt
    paths-Sound (list vs) = tt

    each_path-Sound : (es : Entries) → EachSound (each_path prints es)
    each_path-Sound end = tt
    each_path-Sound (entry path v es) =
        more-EachSound (λ m. with_safe_transform (gjson path) m)
          (matcher_to_gomega_matcher prints v) (each_path prints es) (λ m s. s) (matcher-Sound v)
          (each_path-Sound es)

  not-Vacuous :
      (v : Value) (m : SyverMatcher) → matcher_to_gomega_matcher prints v ≡ ok m → ¬ Vacuous v
  not-Vacuous v m h vacuous = let (e, failed) = Vacuous-Fails prints v vacuous in cc (h, failed)

  -- A spec value that makes a matcher has in it no empty table for a matcher, no empty `and`, `or` or
  -- `contain-elements` and no `gjson` without a path, at any depth: these are errors of the spec. And
  -- the matcher it makes has no empty `and` and no empty `or`, at any depth.
  pub matcher_to_gomega_matcher-Asserts :
      (v : Value) (m : SyverMatcher)
      → matcher_to_gomega_matcher prints v ≡ ok m
      → (¬ Vacuous v) × Asserts m
  matcher_to_gomega_matcher-Asserts v m h = (not-Vacuous v m h, subst Sound h (matcher-Sound v))
