-- ===== src/Serve/Content.antt =====
-- serve.go: the content type that a request asks for, and the one that the answer has.
-- strings.EqualFold is a parameter.
use syver.Prelude.{
  String, concat, str_eq, ◌≡◌, refl, Bool, ◌||◌, List, [], ◌∷◌, ◌++◌, All, Option, none, some,
  Result, ok, err, if◌then◌else◌,
}
use Prim.Native.Char.{code}
use syver.Prelude.{◌==◌}
use syver.Outputs.Options.{get_outputer, trim_start, trim_end}

abbrev pub media_type_prefix_goss : String
media_type_prefix_goss = "application/vnd.goss-"

abbrev pub media_type_prefix_syver : String
media_type_prefix_syver = "application/vnd.syver-"

-- `strings.HasPrefix` and `strings.TrimPrefix`: what follows the prefix.
unfoldable pub after_prefix : String → String → Option String
after_prefix String.[] s = some s
after_prefix (String.◌∷◌ c p) String.[] = none
after_prefix (String.◌∷◌ c p) (String.◌∷◌ d s) = if code c == code d then after_prefix p s else none

-- A name of a format and a prefix: what a candidate asks for.
abbrev Asked : Type 0
Asked = String × String

module _ (equal_fold : String → String → Bool) where
  abbrev by_syver : String → Option String → Asked
  by_syver candidate (some name) = (name, media_type_prefix_syver)
  by_syver candidate none =
      if equal_fold "application/json" candidate || equal_fold "text/json" candidate
      then ("json", media_type_prefix_goss)
      else ("", media_type_prefix_goss)

  abbrev by_goss : String → Option String → Asked
  by_goss candidate (some name) = (name, media_type_prefix_goss)
  by_goss candidate none = by_syver candidate (after_prefix media_type_prefix_syver candidate)

  -- The `switch` of the loop.
  unfoldable pub asked_by : String → Asked
  unfolding after_prefix trim_start trim_end
  asked_by accept_candidate =
      let candidate = trim_end (trim_start accept_candidate) in
      by_goss candidate (after_prefix media_type_prefix_goss candidate)

  -- The name of the format, `none` where no candidate names one, and `matchedPrefix`.
  abbrev pub Negotiated : Type 0
  Negotiated = Option String × String

  abbrev found : Result String String → Asked → Negotiated → Negotiated
  found (ok name) asked rest = (some name, asked.1)
  found (err e) asked rest = rest

  unfoldable pub negotiate_from : List String → String → Negotiated
  unfolding asked_by get_outputer
  negotiate_from [] matched_prefix = (none, matched_prefix)
  negotiate_from (candidate ∷ candidates) matched_prefix =
      let asked = asked_by candidate in
      found (get_outputer asked.0) asked (negotiate_from candidates asked.1)

  unfoldable pub negotiate_response_content_type : List String → Negotiated
  unfolding negotiate_from
  negotiate_response_content_type accept_header =
      negotiate_from accept_header media_type_prefix_goss

  -- The candidates that name no format before the first that does.
  abbrev pub NamesNone : (candidates : List String) → Type 0
  NamesNone candidates = All (λ c. (e : String) × (get_outputer (asked_by c).0 ≡ err e)) candidates

  -- The first candidate of the header that names a format decides the format and the prefix, whatever
  -- stands before it and behind it.
  pub negotiate_from-first :
      (before after : List String) (candidate name matched_prefix : String)
      → NamesNone before
      → get_outputer (asked_by candidate).0 ≡ ok name
      → negotiate_from (before ++ candidate ∷ after) matched_prefix
        ≡ (some name, (asked_by candidate).1)
  unfolding negotiate_from
  negotiate_from-first [] after candidate name matched_prefix none_before names = rw names refl
  negotiate_from-first (c ∷ before) after candidate name matched_prefix ((e, bad), rest) names =
      rw bad (negotiate_from-first before after candidate name (asked_by c).1 rest names)

-- `responseContentType`
unfoldable pub response_content_type : String → String → String
response_content_type output_name matched_prefix =
    if str_eq output_name "json"
    then "application/json"
    else if str_eq output_name "prometheus"
    then "text/plain; version=0.0.4"
    else concat matched_prefix output_name
