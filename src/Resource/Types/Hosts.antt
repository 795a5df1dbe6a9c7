-- ===== src/Resource/Types/Hosts.antt =====
-- resource/user.go, group.go, service.go, process.go, command.go, kernel_param.go, matching.go: what
-- runs on a host, and who.
use syver.Prelude.{zero, String, concat, List, [], ◌∷◌, ◌++◌, Bool, Result, ok, if◌then◌else◌}
use syver.Value.{Value, ℤ, pos, negsuc}
use syver.Resource.Validating.{value_method, reader_method}
use syver.Resource.Statements.{
  Statement, Sheet, check, promote, if_set, if_set_warn, check_number, if_set_number, warn_once,
}
use syver.Resource.Types.{System, Common, target, id_of, describe, Checks, validate_type}

pub record User : Type 0 where
  pub common : Common
  pub exists : Value
  pub uid : Value
  pub gid : Value
  pub home : Value
  pub groups : Value
  pub shell : Value

unfoldable pub user_statements : User → System → List Statement
unfolding id_of
user_statements u sysuser =
    check "exists" u.exists (sysuser "Exists")
    ∷ promote
    ∷ if_set_number (describe u.common.name "user.uid") "uid" u.uid (sysuser "UID")
    ∷ if_set_number (describe u.common.name "user.gid") "gid" u.gid (sysuser "GID")
    ∷ if_set "home" u.home (sysuser "Home")
    ∷ if_set_warn (describe (id_of u.common) "user.groups") "groups" u.groups (sysuser "Groups")
    ∷ if_set "shell" u.shell (sysuser "Shell")
    ∷ []

pub record Group : Type 0 where
  pub common : Common
  pub exists : Value
  pub gid : Value

unfoldable pub group_statements : Group → System → List Statement
unfolding id_of
group_statements g sysgroup =
    check "exists" g.exists (sysgroup "Exists")
    ∷ promote
    ∷ if_set_number (describe (id_of g.common) "group.gid") "gid" g.gid (sysgroup "GID")
    ∷ []

pub record Service : Type 0 where
  pub common : Common
  pub enabled : Value
  pub running : Value
  pub run_levels : Value
  pub masked : Value
  pub start_type : Value
  pub delayed_start : Value
  pub run_as : Value
  pub dependencies : Value
  pub display_name : Value
  pub pid : Value

-- No attribute is mandatory, and none promotes a skip.
unfoldable pub service_statements : Service → System → List Statement
unfolding id_of
service_statements s sysservice =
    let id = id_of s.common in
    if_set "enabled" s.enabled (sysservice "Enabled")
    ∷ if_set "running" s.running (sysservice "Running")
    ∷ if_set_warn (describe id "service.runlevels") "runlevels" s.run_levels
        (sysservice "RunLevels")
    ∷ if_set "masked" s.masked (sysservice "Masked")
    ∷ if_set "start-type" s.start_type (sysservice "StartType")
    ∷ if_set "delayed-start" s.delayed_start (sysservice "DelayedStart")
    ∷ if_set "run-as" s.run_as (sysservice "RunAs")
    ∷ if_set_warn (describe id "service.dependencies") "dependencies" s.dependencies
        (sysservice "Dependencies")
    ∷ if_set "display-name" s.display_name (sysservice "DisplayName")
    ∷ if_set "pid" s.pid (sysservice "Pid")
    ∷ []

pub record Process : Type 0 where
  pub common : Common
  pub running : Value
  pub status : Value
  pub user : Value

unfoldable pub process_statements : Process → System → List Statement
unfolding id_of
process_statements p sys_process =
    let id = id_of p.common in
    check "running" p.running (sys_process "Running")
    ∷ promote
    ∷ if_set_warn (describe id "process.status") "status" p.status (sys_process "Status")
    ∷ if_set_warn (describe id "process.user") "user" p.user (sys_process "User")
    ∷ []

-- Its `ID` is its key alone, whatever `exec` says.
pub record Command : Type 0 where
  pub common : Common
  pub timeout : ℤ
  pub exit_status : Value
  pub stdout : Value
  pub stderr : Value

-- A timeout of zero or less is replaced by the default, and a negative one is warned of.
unfoldable pub command_timeout : ℤ → ℤ
command_timeout (pos zero) = pos 10000
command_timeout (negsuc n) = pos 10000
command_timeout timeout = timeout

unfoldable pub timeout_warnings : String → ℤ → List Statement
timeout_warnings id (pos n) = []
timeout_warnings id (negsuc n) = warn_once (concat "neg-timeout:" id) ∷ []

unfoldable pub command_statements : Command → System → List Statement
unfolding timeout_warnings
command_statements c sys_command =
    let id = c.common.id in
    timeout_warnings id c.timeout
    ++ (check_number (describe id "command.exit-status") "exit-status" c.exit_status
          (sys_command "ExitStatus")
        ∷ if_set_warn (describe id "command.stdout") "stdout" c.stdout (sys_command "Stdout")
        ∷ if_set_warn (describe id "command.stderr") "stderr" c.stderr (sys_command "Stderr")
        ∷ [])

pub record KernelParam : Type 0 where
  pub common : Common
  pub value : Value

unfoldable pub kernel_param_statements : KernelParam → System → List Statement
kernel_param_statements k sys_kernel_param = check "value" k.value (sys_kernel_param "Value") ∷ []

-- `print` is `%v`.
pub record Matching : Type 0 where
  pub common : Common
  pub content : Value
  pub as_reader : Bool
  pub matches : Value

unfoldable pub matching_statements : (Value → String) → Matching → List Statement
matching_statements print a =
    let stub =
      if a.as_reader
      then reader_method (ok (ok (print a.content)))
      else value_method (ok a.content) in
    check "matches" a.matches stub ∷ []

module _ (checks : Checks) where
  unfoldable pub user_validate : (String → System) → User → List String → Result String Sheet
  unfolding target user_statements validate_type
  user_validate new_user u warned =
      validate_type checks "User" u.common (user_statements u (new_user (target u.common))) warned

  unfoldable pub group_validate : (String → System) → Group → List String → Result String Sheet
  unfolding target group_statements validate_type
  group_validate new_group g warned =
      validate_type checks "Group" g.common (group_statements g (new_group (target g.common)))
        warned

  unfoldable pub service_validate : (String → System) → Service → List String → Result String Sheet
  unfolding target service_statements validate_type
  service_validate new_service s warned =
      let sysservice = new_service (target s.common) in
      validate_type checks "Service" s.common (service_statements s sysservice) warned

  unfoldable pub process_validate : (String → System) → Process → List String → Result String Sheet
  unfolding target process_statements validate_type
  process_validate new_process p warned =
      let sys_process = new_process (target p.common) in
      validate_type checks "Process" p.common (process_statements p sys_process) warned

  unfoldable pub command_validate :
      (String → ℤ → System) → Command → List String → Result String Sheet
  unfolding target command_timeout command_statements validate_type
  command_validate new_command c warned =
      let sys_command = new_command (target c.common) (command_timeout c.timeout) in
      validate_type checks "Command" (record c.common { name = "" })
        (command_statements c sys_command) warned

  unfoldable pub kernel_param_validate :
      (String → System) → KernelParam → List String → Result String Sheet
  unfolding target kernel_param_statements validate_type
  kernel_param_validate new_kernel_param k warned =
      let sys_kernel_param = new_kernel_param (target k.common) in
      validate_type checks "KernelParam" k.common (kernel_param_statements k sys_kernel_param)
        warned

  unfoldable pub matching_validate : (Value → String) → Matching → List String → Result String Sheet
  unfolding matching_statements validate_type
  matching_validate print a warned =
      validate_type checks "Matching" (record a.common { name = "" }) (matching_statements print a)
        warned
