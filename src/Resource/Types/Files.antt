-- ===== src/Resource/Types/Files.antt =====
-- resource/file.go, mount.go, package.go, registry.go: files and what is installed.
use syver.Prelude.{String, concat, List, [], ◌∷◌, Result}
use syver.Value.{Value, ℤ}
use syver.Resource.Statements.{
  Statement, Sheet, check, promote, if_set, if_set_warn, if_set_renamed,
}
use syver.Resource.Types.{
  System, Common, target, id_of, timeout_or, describe, Checks, validate_type,
}

pub record File : Type 0 where
  pub common : Common
  pub exists : Value
  pub mode : Value
  pub owner : Value
  pub uid : Value
  pub group : Value
  pub gid : Value
  pub acl : Value
  pub acl_sid : Value
  pub linked_to : Value
  pub filetype : Value
  pub contains : Value
  pub contents : Value
  pub size : Value
  pub md5 : Value
  pub sha256 : Value
  pub sha512 : Value

unfoldable pub file_statements : File → System → List Statement
unfolding id_of
file_statements f sys_file =
    let id = id_of f.common in
    check "exists" f.exists (sys_file "Exists")
    ∷ promote
    ∷ if_set "mode" f.mode (sys_file "Mode")
    ∷ if_set "owner" f.owner (sys_file "Owner")
    ∷ if_set "uid" f.uid (sys_file "Uid")
    ∷ if_set "group" f.group (sys_file "Group")
    ∷ if_set "gid" f.gid (sys_file "Gid")
    ∷ if_set_warn (describe id "file.acl") "acl" f.acl (sys_file "Acl")
    ∷ if_set_warn (describe id "file.acl-sid") "acl-sid" f.acl_sid (sys_file "AclSid")
    ∷ if_set "linkedto" f.linked_to (sys_file "LinkedTo")
    ∷ if_set "filetype" f.filetype (sys_file "Filetype")
    ∷ if_set_renamed (describe id "file.contains") (concat "deprecated-contains:" id) "contains"
        f.contains (sys_file "Contents")
    ∷ if_set_warn (describe id "file.contents") "contents" f.contents (sys_file "Contents")
    ∷ if_set "size" f.size (sys_file "Size")
    ∷ if_set "md5" f.md5 (sys_file "Md5")
    ∷ if_set "sha256" f.sha256 (sys_file "Sha256")
    ∷ if_set "sha512" f.sha512 (sys_file "Sha512")
    ∷ []

pub record Mount : Type 0 where
  pub common : Common
  pub timeout : ℤ
  pub exists : Value
  pub opts : Value
  pub vfs_opts : Value
  pub source : Value
  pub filesystem : Value
  pub usage : Value

unfoldable pub mount_statements : Mount → System → List Statement
unfolding id_of
mount_statements m sys_mount =
    let id = id_of m.common in
    check "exists" m.exists (sys_mount "Exists")
    ∷ promote
    ∷ if_set_warn (describe id "mount.opts") "opts" m.opts (sys_mount "Opts")
    ∷ if_set_warn (describe id "mount.vfs-opts") "vfs-opts" m.vfs_opts (sys_mount "VfsOpts")
    ∷ if_set "source" m.source (sys_mount "Source")
    ∷ if_set "filesystem" m.filesystem (sys_mount "Filesystem")
    ∷ if_set "usage" m.usage (sys_mount "Usage")
    ∷ []

pub record Package : Type 0 where
  pub common : Common
  pub installed : Value
  pub versions : Value

unfoldable pub package_statements : Package → System → List Statement
unfolding id_of
package_statements p sys_pkg =
    check "installed" p.installed (sys_pkg "Installed")
    ∷ promote
    ∷ if_set_warn (describe (id_of p.common) "package.versions") "version" p.versions
        (sys_pkg "Versions")
    ∷ []

pub record Registry : Type 0 where
  pub common : Common
  pub view : String
  pub exists : Value
  pub value : Value
  pub type : Value

unfoldable pub registry_statements : Registry → System → List Statement
registry_statements r sys_registry =
    check "exists" r.exists (sys_registry "Exists")
    ∷ promote
    ∷ if_set "value" r.value (sys_registry "Value")
    ∷ if_set "type" r.type (sys_registry "Type")
    ∷ []

module _ (checks : Checks) where
  unfoldable pub file_validate : (String → System) → File → List String → Result String Sheet
  unfolding target file_statements validate_type
  file_validate new_file f warned =
      validate_type checks "File" f.common (file_statements f (new_file (target f.common))) warned

  unfoldable pub mount_validate : (String → ℤ → System) → Mount → List String → Result String Sheet
  unfolding target timeout_or mount_statements validate_type
  mount_validate new_mount m warned =
      let sys_mount = new_mount (target m.common) (timeout_or 1000 m.timeout) in
      validate_type checks "Mount" m.common (mount_statements m sys_mount) warned

  unfoldable pub package_validate : (String → System) → Package → List String → Result String Sheet
  unfolding target package_statements validate_type
  package_validate new_package p warned =
      let sys_pkg = new_package (target p.common) in
      validate_type checks "Package" p.common (package_statements p sys_pkg) warned

  -- The view is set on the system resource, before its methods answer.
  unfoldable pub registry_validate :
      (String → String → System) → Registry → List String → Result String Sheet
  unfolding target registry_statements validate_type
  registry_validate new_registry r warned =
      let sys_registry = new_registry (target r.common) r.view in
      validate_type checks "Registry" r.common (registry_statements r sys_registry) warned
