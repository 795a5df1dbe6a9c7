-- ===== src/Resource/Types/Laws.antt =====
-- resource/: when the Validate methods of the types return, and what they report.
use syver.Prelude.{
  String, ◌≡◌, true, List, [], ◌∷◌, ◌++◌, Result, ok, All, All-append, if◌then◌else◌,
}
use syver.Value.{Value, ℤ, pos, negsuc}
use syver.Resource.Statements.{Sheet, is_set, Statement}
use syver.Resource.Statements.Shape.{properties, asserted, asserted_by, validate-properties}
use syver.Resource.Statements.Returning.{IsNumber, Fine, validate-Returns}
use syver.Resource.Types.{System, Common, Checks, validate_type, target}
use syver.Resource.Types.Hosts.{
  User, Command, user_validate, user_statements, command_validate, command_statements,
  timeout_warnings, command_timeout,
}
use syver.Resource.Types.Files.{File, file_validate, file_statements}

-- The names of the values that are set.
abbrev pub present : List (String × Value) → List String
present [] = []
present ((name, v) ∷ rest) = (if is_set v then name ∷ [] else []) ++ present rest

module _ (checks : Checks) where
  abbrev Returned : Result String Sheet → Type 0
  Returned r = (s : Sheet) × (r ≡ ok s)

  validate_type-Returned :
      (type_name : String) (c : Common) (sts : List Statement) (warned : List String)
      → All Fine sts
      → Returned (validate_type checks type_name c sts warned)
  unfolding validate_type
  validate_type-Returned type_name c sts warned fine =
      validate-Returns checks.numerals checks.matcher_of checks.have_patterns type_name _ c.skip sts
        warned fine

  -- A user whose `uid` and `gid`, where set, are no texts or the texts of ints is checked without a
  -- panic.
  pub user_validate-Returned :
      (new_user : String → System) (u : User) (warned : List String)
      → (is_set u.uid ≡ true → IsNumber u.uid)
      → (is_set u.gid ≡ true → IsNumber u.gid)
      → Returned (user_validate checks new_user u warned)
  unfolding user_validate user_statements
  user_validate-Returned new_user u warned uid gid =
      validate_type-Returned "User" u.common (user_statements u (new_user (target u.common))) warned
        (tt, (tt, (uid, (gid, (tt, (tt, (tt, tt)))))))

  timeout_warnings-Fine : (id : String) (timeout : ℤ) → All Fine (timeout_warnings id timeout)
  unfolding timeout_warnings
  timeout_warnings-Fine id (pos n) = tt
  timeout_warnings-Fine id (negsuc n) = (tt, tt)

  -- A command whose `exit-status` is no text or the text of an int is checked without a panic.
  pub command_validate-Returned :
      (new_command : String → ℤ → System) (c : Command) (warned : List String)
      → IsNumber c.exit_status
      → Returned (command_validate checks new_command c warned)
  unfolding command_validate command_statements
  command_validate-Returned new_command c warned status =
      validate_type-Returned "Command" (record c.common { name = "" })
        (command_statements c (new_command (target c.common) (command_timeout c.timeout))) warned
        (All-append Fine (timeout_warnings c.common.id c.timeout) _
          (timeout_warnings-Fine c.common.id c.timeout) (status, (tt, (tt, tt))))

  -- A check of a file that returns reports `exists` first, and then the attributes that the spec
  -- sets, in this order, whatever the system answers.
  pub file_validate-properties :
      (new_file : String → System) (f : File) (warned : List String) (s : Sheet)
      → file_validate checks new_file f warned ≡ ok s
      → properties s.results
        ≡ "exists"
          ∷ present (
              ("mode", f.mode)
              ∷ ("owner", f.owner)
              ∷ ("uid", f.uid)
              ∷ ("group", f.group)
              ∷ ("gid", f.gid)
              ∷ ("acl", f.acl)
              ∷ ("acl-sid", f.acl_sid)
              ∷ ("linkedto", f.linked_to)
              ∷ ("filetype", f.filetype)
              ∷ ("contains", f.contains)
              ∷ ("contents", f.contents)
              ∷ ("size", f.size)
              ∷ ("md5", f.md5)
              ∷ ("sha256", f.sha256)
              ∷ ("sha512", f.sha512)
              ∷ [])
  unfolding file_validate file_statements validate_type asserted asserted_by
  file_validate-properties new_file f warned s h =
      validate-properties checks.numerals checks.matcher_of checks.have_patterns _ _ _ _ warned s h
