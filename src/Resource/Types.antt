-- ===== src/Resource/Types.antt =====
-- resource/: the Validate methods of the resource types, as the statements that they run. A `matcher`
-- field of a type is a value of the spec, `nil` where it is absent. What the constructors of the
-- package system give (`sys.NewFile`, ...) is a parameter: the answer of each of its methods, by name.
pub mod Files
pub mod Hosts
pub mod Networks
pub mod Laws
mod Tests
use syver.Prelude.{ℕ, String, concat, str_eq, Bool, not, ◌&&◌, List, Result, if◌then◌else◌, zero}
use syver.Value.{Value, ℤ, pos, negsuc}
use syver.Resource.{Read}
use syver.Resource.Validating.{Actual, Matcher}
use syver.Resource.Statements.{Statement, Sheet, Numerals, validate}

-- The answers of a system resource, by the name of the method.
abbrev pub System : Type 0
System = String → Actual

-- The fields that the types share: the key, the name that overrides it, the title and `skip`.
pub record Common : Type 0 where
  pub id : String
  pub name : String
  pub title : String
  pub skip : Bool

-- `GetPath`, `GetName`, ...: what the check is about.
unfoldable pub target : Common → String
target c = if str_eq c.name "" then c.id else c.name

-- `ID`
unfoldable pub id_of : Common → String
id_of c =
    if not (str_eq c.name "") && not (str_eq c.name c.id)
    then concat c.id (concat ": " c.name)
    else c.id

-- A timeout in milliseconds: 0 stands for the default.
unfoldable pub timeout_or : ℕ → ℤ → ℤ
timeout_or default (pos zero) = pos default
timeout_or default timeout = timeout

-- The description of an attribute in a warning.
abbrev pub describe : String → String → String
describe id attribute = concat id (concat ": " attribute)

-- The package's own functions that a check goes through, and the warnings given so far.
pub record Checks : Type 0 where
  pub numerals : Numerals
  pub matcher_of : Value → Result String Matcher
  pub have_patterns : Value → Matcher

unfoldable pub validate_type :
    Checks → String → Common → List Statement → List String → Result String Sheet
unfolding id_of
validate_type checks type_name c statements warned =
    validate checks.numerals checks.matcher_of checks.have_patterns type_name
      (record { id = id_of c; title = c.title }) c.skip statements warned
