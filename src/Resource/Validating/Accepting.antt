-- ===== src/Resource/Validating/Accepting.antt =====
-- What ValidateValue accepts.
use syver.Prelude.{String, ◌≡◌, refl, sym, subst, ◌↔◌, true, Result, ok, err}
use syver.Value.{Value, str, nil, bool, int, float, strings, list, table}
use syver.Resource.Validating.{
  Actual, Matcher, as_text, prepare, with_value, read_all, value_method, reader_method,
  other_signature,
}

module _ (matcher_of : Value → Result String Matcher) (have_patterns : Value → Matcher)
    (expected : Value) where
  -- What a stream's text is held against: the patterns of a list, the matcher of anything else.
  abbrev pub StreamMatcher : Value → Matcher → Type 0
  StreamMatcher (Value.list vs) m = m ≡ have_patterns (Value.list vs)
  StreamMatcher v m = matcher_of v ≡ ok m

  -- The value was found, a stream having been opened and read to its end; there is a matcher for what
  -- is expected; and it accepts the value.
  abbrev pub Accepted : Actual → Type 0
  Accepted (value_method answer) =
      (found : Value) × (m : Matcher) × (answer ≡ ok found)
      × (matcher_of expected ≡ ok m)
      × ((m.match found).0 ≡ true)
  Accepted (reader_method opened) =
      (text : String) × (m : Matcher) × (opened ≡ ok (ok text))
      × StreamMatcher expected m
      × ((m.match (str text)).0 ≡ true)
  Accepted other_signature = ⊥

  -- The value and the matcher are there, and the one accepts the other.
  abbrev Passing : Result String (Value × Matcher) → Type 0
  Passing r = (found : Value) × (m : Matcher) × (r ≡ ok (found, m)) × ((m.match found).0 ≡ true)

  same_pair : {x y : Value × Matcher} → Path (Result String (Value × Matcher)) (ok x) (ok y) → x ≡ y
  same_pair e = cc

  same_matcher : {x y : Matcher} → Path (Result String Matcher) (ok x) (ok y) → x ≡ y
  same_matcher e = cc

  same_value : {x y : Value} → Path (Result String Value) (ok x) (ok y) → x ≡ y
  same_value e = cc

  same_text :
      {x y : String} → Path (Result String (Result String String)) (ok (ok x)) (ok (ok y)) → x ≡ y
  same_text e = cc

  with_value-Passing :
      (found : Value) (r : Result String Matcher)
      → Passing (with_value matcher_of have_patterns found r)
        ↔ ((m : Matcher) × (r ≡ ok m) × ((m.match found).0 ≡ true))
  with_value-Passing found (err e) = ((λ (_, _, h, _). cc), (λ (_, h, _). cc))
  with_value-Passing found (ok m) = (
    (λ (found', m', e, h).
        (m, refl, subst (λ (q : Value × Matcher). (q.1.match q.0).0 ≡ true) (sym (same_pair e)) h)),
    (λ (m', e, h). (
      found,
      m,
      refl,
      subst (λ (n : Matcher). (n.match found).0 ≡ true) (sym (same_matcher e)) h,
    )),
  )

  -- What `prepare` makes of an attribute passes exactly when the attribute is accepted.
  value-Accepted :
      (answer : Result String Value)
      → Passing (prepare matcher_of have_patterns expected (value_method answer))
        ↔ Accepted (value_method answer)
  unfolding prepare
  value-Accepted (err e) = ((λ (_, _, h, _). cc), (λ (_, _, h, _, _). cc))
  value-Accepted (ok found) =
      let (to, from) = with_value-Passing found (matcher_of expected) in
      (
        (λ h. let (m, e, accepted) = to h in (found, m, refl, e, accepted)),
        (λ (found', m, same, e, accepted).
            from
              (m, e, subst (λ (x : Value). (m.match x).0 ≡ true) (sym (same_value same)) accepted)),
      )

  -- A stream that was read, for what is expected of it.
  text-Accepted :
      (text : String) (m : Matcher) (text' : String)
      → Path (Result String (Result String String)) (ok (ok text)) (ok (ok text'))
      → (m.match (str text')).0 ≡ true
      → (m.match (str text)).0 ≡ true
  text-Accepted text m text' same h =
      subst (λ (x : String). (m.match (str x)).0 ≡ true) (sym (same_text same)) h

  plain_stream-Accepted :
      (opened : Result String (Result String String))
      → Passing (prepare matcher_of have_patterns expected (value_method (read_all opened))) ↔ (
          (text : String) × (m : Matcher) × (opened ≡ ok (ok text))
          × (matcher_of expected ≡ ok m)
          × ((m.match (str text)).0 ≡ true))
  unfolding prepare
  plain_stream-Accepted (err e) = ((λ (_, _, h, _). cc), (λ (_, _, h, _, _). cc))
  plain_stream-Accepted (ok (err e)) = ((λ (_, _, h, _). cc), (λ (_, _, h, _, _). cc))
  plain_stream-Accepted (ok (ok text)) =
      let (to, from) = with_value-Passing (str text) (matcher_of expected) in
      (
        (λ h. let (m, e, accepted) = to h in (text, m, refl, e, accepted)),
        (λ (text', m, same, e, accepted). from (m, e, text-Accepted text m text' same accepted)),
      )

  list_stream-Accepted :
      (opened : Result String (Result String String))
      → Passing (prepare matcher_of have_patterns expected (reader_method opened)) ↔ (
          (text : String) × (m : Matcher) × (opened ≡ ok (ok text))
          × (m ≡ have_patterns expected)
          × ((m.match (str text)).0 ≡ true))
  unfolding prepare
  list_stream-Accepted (err e) = ((λ (_, _, h, _). cc), (λ (_, _, h, _, _). cc))
  list_stream-Accepted (ok (err e)) = ((λ (_, _, h, _). cc), (λ (_, _, h, _, _). cc))
  list_stream-Accepted (ok (ok text)) = (
    (λ (found, m, same, h). (
      text,
      have_patterns expected,
      refl,
      refl,
      subst (λ (q : Value × Matcher). (q.1.match q.0).0 ≡ true) (sym (same_pair same)) h,
    )),
    (λ (text', m, same, e, accepted). (
      str text,
      have_patterns expected,
      refl,
      subst (λ (n : Matcher). (n.match (str text)).0 ≡ true) e
          (text-Accepted text m text' same accepted),
    )),
  )

module _ (matcher_of : Value → Result String Matcher) (have_patterns : Value → Matcher) where
  pub prepare-Accepted :
      (expected : Value) (actual : Actual)
      → Passing matcher_of have_patterns expected
          (prepare matcher_of have_patterns expected (as_text expected actual))
        ↔ Accepted matcher_of have_patterns expected actual
  unfolding as_text prepare
  prepare-Accepted expected (value_method answer) =
      value-Accepted matcher_of have_patterns expected answer
  prepare-Accepted expected other_signature = ((λ (_, _, h, _). cc), (λ h. elim h [ ]))
  prepare-Accepted (list vs) (reader_method opened) =
      list_stream-Accepted matcher_of have_patterns (list vs) opened
  prepare-Accepted nil (reader_method opened) =
      plain_stream-Accepted matcher_of have_patterns nil opened
  prepare-Accepted (bool b) (reader_method opened) =
      plain_stream-Accepted matcher_of have_patterns (bool b) opened
  prepare-Accepted (int i) (reader_method opened) =
      plain_stream-Accepted matcher_of have_patterns (int i) opened
  prepare-Accepted (float x) (reader_method opened) =
      plain_stream-Accepted matcher_of have_patterns (float x) opened
  prepare-Accepted (str t) (reader_method opened) =
      plain_stream-Accepted matcher_of have_patterns (str t) opened
  prepare-Accepted (strings ss) (reader_method opened) =
      plain_stream-Accepted matcher_of have_patterns (strings ss) opened
  prepare-Accepted (table es) (reader_method opened) =
      plain_stream-Accepted matcher_of have_patterns (table es) opened
