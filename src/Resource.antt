-- ===== src/Resource.antt =====
-- resource/resource.go and resource/key.go: what the schedulers see of a resource.
pub mod Results
pub mod Reason
pub mod Skips
pub mod Validating
pub mod Numbers
pub mod Statements
pub mod Types
mod Tests
use syver.Prelude.{String, concat, List, Option, none, some, Bool, true}

-- The answers of `ResourceRead`.
pub record Read : Type 0 where
  pub id : String
  pub title : String

-- An implementation of `Resource`: `id_field` is its field `id`, if it has one that is a text,
-- and `read` its `ResourceRead`, if it implements that.
pub record Resource : Type 0 where
  pub type_key : String
  pub type_name : String
  pub id_field : Option String
  pub read : Option Read
  pub depends_on : List String
  pub skip : Bool

abbrev read_id : Option Read → String
read_id (some r) = r.id
read_id none = ""

-- `YAMLKey`
unfoldable pub yaml_key : Resource → String
yaml_key res = elim res.id_field [ some id ↦ id | none ↦ read_id res.read ]

-- `Ref`
unfoldable pub ref_of : Resource → String
ref_of res = concat res.type_key (concat ":" (yaml_key res))

-- `SetSkip`
unfoldable pub set_skip : Resource → Resource
set_skip res = record res { skip = true }
