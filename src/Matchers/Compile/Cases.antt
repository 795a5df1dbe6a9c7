-- ===== src/Matchers/Compile/Cases.antt =====
-- resource/gomega.go: the cases of matcherToGomegaMatcher, and what makes a matcher assert something.
use syver.Prelude.{String, Bool, true, false, Result, ok, err, if◌then◌else◌}
use syver.Value.{Value, nil, bool, int, float, str, strings, list, table}
use syver.Matchers.Transforms.{to_array}
use syver.Matchers.{
  SyverMatcher, SyverMatchers, no_matchers, matchers, have_key, contain_element, contain_elements,
  consist_of, negation, conjunction, disjunction, with_safe_transform,
}
use syver.Matchers.Compile.{
  Prints, Compiled, of_text, len_of, patterns_of, element_of, wrapped, grouped, nonempty_group,
}

-- No `and` and no `or` of the matcher is empty, at any depth.
abbrev mutual
  pub Asserts : SyverMatcher → Type 0
  Asserts (have_key m) = Asserts m
  Asserts (contain_element m) = Asserts m
  Asserts (contain_elements ms) = EachAsserts ms
  Asserts (consist_of ms) = EachAsserts ms
  Asserts (negation m) = Asserts m
  Asserts (conjunction no_matchers) = ⊥
  Asserts (conjunction (matchers m ms)) = Asserts m × EachAsserts ms
  Asserts (disjunction no_matchers) = ⊥
  Asserts (disjunction (matchers m ms)) = Asserts m × EachAsserts ms
  Asserts (with_safe_transform t m) = Asserts m
  Asserts _ = Unit

  pub EachAsserts : SyverMatchers → Type 0
  EachAsserts no_matchers = Unit
  EachAsserts (matchers m ms) = Asserts m × EachAsserts ms

abbrev pub Sound : Compiled → Type 0
Sound (err e) = Unit
Sound (ok m) = Asserts m

abbrev pub EachSound : Result String SyverMatchers → Type 0
EachSound (err e) = Unit
EachSound (ok ms) = EachAsserts ms

pub if-Sound : (b : Bool) (x y : Compiled) → Sound x → Sound y → Sound (if b then x else y)
if-Sound true x y p q = p
if-Sound false x y p q = q

module _ (prints : Prints) where
  pub of_text-Sound :
      (name : String) (make : String → SyverMatcher) (v : Value)
      → ((s : String) → Asserts (make s))
      → Sound (of_text prints name make v)
  of_text-Sound name make (str s) h = h s
  of_text-Sound name make nil h = tt
  of_text-Sound name make (bool b) h = tt
  of_text-Sound name make (int i) h = tt
  of_text-Sound name make (float x) h = tt
  of_text-Sound name make (strings ss) h = tt
  of_text-Sound name make (list vs) h = tt
  of_text-Sound name make (table es) h = tt

  pub len_of-Sound : (v : Value) → Sound (len_of prints v)
  len_of-Sound (float x) = tt
  len_of-Sound (int i) = tt
  len_of-Sound nil = tt
  len_of-Sound (bool b) = tt
  len_of-Sound (str s) = tt
  len_of-Sound (strings ss) = tt
  len_of-Sound (list vs) = tt
  len_of-Sound (table es) = tt

  pub patterns_of-Sound : (v : Value) → Sound (patterns_of prints v)
  patterns_of-Sound (list vs) = tt
  patterns_of-Sound nil = tt
  patterns_of-Sound (bool b) = tt
  patterns_of-Sound (int i) = tt
  patterns_of-Sound (float x) = tt
  patterns_of-Sound (str s) = tt
  patterns_of-Sound (strings ss) = tt
  patterns_of-Sound (table es) = tt

  pub wrapped-Sound :
      (make : SyverMatcher → SyverMatcher) (sub : Compiled)
      → ((m : SyverMatcher) → Asserts m → Asserts (make m))
      → Sound sub
      → Sound (wrapped prints make sub)
  wrapped-Sound make (err e) h s = tt
  wrapped-Sound make (ok m) h s = h m s

  pub grouped-Sound :
      (make : SyverMatchers → SyverMatcher) (subs : Result String SyverMatchers)
      → ((ms : SyverMatchers) → EachAsserts ms → Asserts (make ms))
      → EachSound subs
      → Sound (grouped prints make subs)
  grouped-Sound make (err e) h s = tt
  grouped-Sound make (ok ms) h s = h ms s

  pub nonempty_group-Sound :
      (name : String) (make : SyverMatchers → SyverMatcher) (subs : Result String SyverMatchers)
      → ((m : SyverMatcher) (ms : SyverMatchers)
          → EachAsserts (matchers m ms)
          → Asserts (make (matchers m ms)))
      → EachSound subs
      → Sound (nonempty_group prints name make subs)
  nonempty_group-Sound name make (err e) h s = tt
  nonempty_group-Sound name make (ok no_matchers) h s = tt
  nonempty_group-Sound name make (ok (matchers m ms)) h s = h m ms s

  pub element_of-Sound : (v : Value) (sub : Compiled) → Sound sub → Sound (element_of prints v sub)
  element_of-Sound (table es) sub s =
      wrapped-Sound (λ m. with_safe_transform to_array (contain_element m)) sub (λ m sound. sound) s
  element_of-Sound (str t) sub s =
      wrapped-Sound (λ m. with_safe_transform to_array (contain_element m)) sub (λ m sound. sound) s
  element_of-Sound (float x) sub s =
      wrapped-Sound (λ m. with_safe_transform to_array (contain_element m)) sub (λ m sound. sound) s
  element_of-Sound (int i) sub s =
      wrapped-Sound (λ m. with_safe_transform to_array (contain_element m)) sub (λ m sound. sound) s
  element_of-Sound nil sub s = tt
  element_of-Sound (bool b) sub s = tt
  element_of-Sound (strings ss) sub s = tt
  element_of-Sound (list vs) sub s = tt
