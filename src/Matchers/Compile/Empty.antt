-- ===== src/Matchers/Compile/Empty.antt =====
-- resource/gomega.go: the values of a spec that assert nothing.
use syver.Prelude.{String, ◌≡◌, refl, Result, ok, err, ◌>>=◌}
use syver.Value.{
  Value, Values, none_left, item, Entries, end, entry, list, table, str, int, float, bool, nil,
  strings,
}
use syver.Matchers.Compile.{
  Prints, Compiled, element_of, matcher_named, matcher_to_gomega_matcher, slice_to_gomega,
  each_matcher, path_matchers, each_path,
}

-- The keys with a list of matchers, which for the first three must not be empty.
pub data Group : String → Type 0 where
  all_of : Group "and"
  one_of : Group "or"
  each_among : Group "contain-elements"

-- The keys with one matcher.
pub data Wrapper : String → Type 0 where
  negated : Wrapper "not"
  some_key : Wrapper "have-key"
  some_element : Wrapper "contain-element"

mutual
  -- A value with an empty table for a matcher, an empty `and`, `or` or `contain-elements`, or a
  -- `gjson` without a path: it is one itself, or one of the matchers in it is.
  pub data Vacuous : Value → Type 0 where
    no_matcher : Vacuous (table end)
    no_member : {key : String} → Group key → Vacuous (table (entry key (list none_left) end))
    no_path : Vacuous (table (entry "gjson" (table end) end))
    inside :
        {key : String} {v : Value} → Wrapper key → Vacuous v → Vacuous (table (entry key v end))
    member :
        {key : String} {vs : Values}
        → Group key
        → AnyVacuous vs
        → Vacuous (table (entry key (list vs) end))
    of_bag : {vs : Values} → AnyVacuous vs → Vacuous (table (entry "consist-of" (list vs) end))
    listed : {vs : Values} → AnyVacuous vs → Vacuous (list vs)
    at_path : {es : Entries} → AnyPathVacuous es → Vacuous (table (entry "gjson" (table es) end))

  pub data AnyVacuous : Values → Type 0 where
    first : {v : Value} {vs : Values} → Vacuous v → AnyVacuous (item v vs)
    behind : {v : Value} {vs : Values} → AnyVacuous vs → AnyVacuous (item v vs)

  pub data AnyPathVacuous : Entries → Type 0 where
    first_path :
        {path : String} {v : Value} {es : Entries} → Vacuous v → AnyPathVacuous (entry path v es)
    later_path :
        {path : String} {v : Value} {es : Entries}
        → AnyPathVacuous es
        → AnyPathVacuous (entry path v es)

abbrev pub Fails : {A : Type 0} → Result String A → Type 0
Fails r = (e : String) × (r ≡ err e)

>>=-Fails :
    {A B : Type 0} (x : Result String A) (f : A → Result String B) → Fails x → Fails (x >>= f)
>>=-Fails (ok a) f (e, h) = cc
>>=-Fails (err e') f h = (e', refl)

-- After a first part that may fail.
then-Fails :
    {A B : Type 0} (x : Result String A) (f : A → Result String B)
    → ((a : A) → Fails (f a))
    → Fails (x >>= f)
then-Fails (ok a) f k = k a
then-Fails (err e) f k = (e, refl)

module _ (prints : Prints) where
  element_of-Fails : (v : Value) (sub : Compiled) → Fails sub → Fails (element_of prints v sub)
  element_of-Fails nil sub h = (_, refl)
  element_of-Fails (bool b) sub h = (_, refl)
  element_of-Fails (int i) sub h = >>=-Fails sub _ h
  element_of-Fails (float x) sub h = >>=-Fails sub _ h
  element_of-Fails (str s) sub h = >>=-Fails sub _ h
  element_of-Fails (strings ss) sub h = (_, refl)
  element_of-Fails (list vs) sub h = (_, refl)
  element_of-Fails (table es) sub h = >>=-Fails sub _ h

  empty-Fails :
      (key : String)
      → Group key
      → Fails (matcher_to_gomega_matcher prints (table (entry key (list none_left) end)))
  unfolding matcher_to_gomega_matcher matcher_named slice_to_gomega each_matcher
  empty-Fails _ all_of = (_, refl)
  empty-Fails _ one_of = (_, refl)
  empty-Fails _ each_among = (_, refl)

  group-Fails :
      (key : String) (vs : Values)
      → Group key
      → Fails (each_matcher prints vs)
      → Fails (matcher_to_gomega_matcher prints (table (entry key (list vs) end)))
  unfolding matcher_to_gomega_matcher matcher_named slice_to_gomega
  group-Fails _ vs all_of h = >>=-Fails (each_matcher prints vs) _ h
  group-Fails _ vs one_of h = >>=-Fails (each_matcher prints vs) _ h
  group-Fails _ vs each_among h = >>=-Fails (each_matcher prints vs) _ h

  wrapper-Fails :
      (key : String) (v : Value)
      → Wrapper key
      → Fails (matcher_to_gomega_matcher prints v)
      → Fails (matcher_to_gomega_matcher prints (table (entry key v end)))
  unfolding matcher_to_gomega_matcher matcher_named
  wrapper-Fails _ v negated h = >>=-Fails (matcher_to_gomega_matcher prints v) _ h
  wrapper-Fails _ v some_key h = >>=-Fails (matcher_to_gomega_matcher prints v) _ h
  wrapper-Fails _ v some_element h = element_of-Fails v (matcher_to_gomega_matcher prints v) h

  bag-Fails :
      (vs : Values)
      → Fails (each_matcher prints vs)
      → Fails (matcher_to_gomega_matcher prints (table (entry "consist-of" (list vs) end)))
  unfolding matcher_to_gomega_matcher matcher_named slice_to_gomega
  bag-Fails vs h = >>=-Fails (each_matcher prints vs) _ h

  paths-Fails :
      (es : Entries)
      → Fails (each_path prints es)
      → Fails (matcher_to_gomega_matcher prints (table (entry "gjson" (table es) end)))
  unfolding matcher_to_gomega_matcher matcher_named path_matchers
  paths-Fails es h = >>=-Fails (each_path prints es) _ h

  no_path-Fails : Fails (matcher_to_gomega_matcher prints (table (entry "gjson" (table end) end)))
  unfolding matcher_to_gomega_matcher matcher_named path_matchers each_path
  no_path-Fails = (_, refl)

  list-Fails :
      (vs : Values)
      → Fails (each_matcher prints vs)
      → Fails (matcher_to_gomega_matcher prints (list vs))
  unfolding matcher_to_gomega_matcher
  list-Fails vs h = >>=-Fails (each_matcher prints vs) _ h

  table-Fails : Fails (matcher_to_gomega_matcher prints (table end))
  unfolding matcher_to_gomega_matcher
  table-Fails = (_, refl)

  item-Fails :
      (v : Value) (vs : Values)
      → Fails (matcher_to_gomega_matcher prints v)
      → Fails (each_matcher prints (item v vs))
  unfolding each_matcher
  item-Fails v vs h = >>=-Fails (matcher_to_gomega_matcher prints v) _ h

  items-Fails :
      (v : Value) (vs : Values)
      → Fails (each_matcher prints vs)
      → Fails (each_matcher prints (item v vs))
  unfolding each_matcher
  items-Fails v vs h =
      then-Fails (matcher_to_gomega_matcher prints v) _ λ m. >>=-Fails (each_matcher prints vs) _ h

  path-Fails :
      (path : String) (v : Value) (es : Entries)
      → Fails (matcher_to_gomega_matcher prints v)
      → Fails (each_path prints (entry path v es))
  unfolding each_path
  path-Fails path v es h = >>=-Fails (matcher_to_gomega_matcher prints v) _ h

  later_path-Fails :
      (path : String) (v : Value) (es : Entries)
      → Fails (each_path prints es)
      → Fails (each_path prints (entry path v es))
  unfolding each_path
  later_path-Fails path v es h =
      then-Fails (matcher_to_gomega_matcher prints v) _ λ m. >>=-Fails (each_path prints es) _ h

  mutual
    pub Vacuous-Fails : (v : Value) → Vacuous v → Fails (matcher_to_gomega_matcher prints v)
    Vacuous-Fails _ no_matcher = table-Fails
    Vacuous-Fails _ (no_member {key = key} group) = empty-Fails key group
    Vacuous-Fails _ no_path = no_path-Fails
    Vacuous-Fails _ (inside {key = key} {v = v} wrapper h) =
        wrapper-Fails key v wrapper (Vacuous-Fails v h)
    Vacuous-Fails _ (member {key = key} {vs = vs} group h) =
        group-Fails key vs group (any-Fails vs h)
    Vacuous-Fails _ (of_bag {vs = vs} h) = bag-Fails vs (any-Fails vs h)
    Vacuous-Fails _ (listed {vs = vs} h) = list-Fails vs (any-Fails vs h)
    Vacuous-Fails _ (at_path {es = es} h) = paths-Fails es (any_path-Fails es h)

    any-Fails : (vs : Values) → AnyVacuous vs → Fails (each_matcher prints vs)
    any-Fails _ (first {v = v} {vs = vs} h) = item-Fails v vs (Vacuous-Fails v h)
    any-Fails _ (behind {v = v} {vs = vs} h) = items-Fails v vs (any-Fails vs h)

    any_path-Fails : (es : Entries) → AnyPathVacuous es → Fails (each_path prints es)
    any_path-Fails _ (first_path {path = path} {v = v} {es = es} h) =
        path-Fails path v es (Vacuous-Fails v h)
    any_path-Fails _ (later_path {path = path} {v = v} {es = es} h) =
        later_path-Fails path v es (any_path-Fails es h)
