-- ===== src/Resource/Types/Networks.antt =====
-- resource/addr.go, port.go, dns.go, interface.go, http.go: what a host offers and reaches.
use syver.Prelude.{String, List, [], ◌∷◌, Result}
use syver.Value.{Value, nil, ℤ}
use syver.Resource.Statements.{Statement, Sheet, check, promote, if_set, if_set_warn}
use syver.Resource.Types.{
  System, Common, target, id_of, timeout_or, describe, Checks, validate_type,
}

pub record Addr : Type 0 where
  pub common : Common
  pub timeout : ℤ
  pub local_address : String
  pub reachable : Value

unfoldable pub addr_statements : Addr → System → List Statement
addr_statements a sys_addr = check "reachable" a.reachable (sys_addr "Reachable") ∷ []

pub record Port : Type 0 where
  pub common : Common
  pub listening : Value
  pub ip : Value
  pub pid : Value

unfoldable pub port_statements : Port → System → List Statement
unfolding id_of
port_statements p sys_port =
    let id = id_of p.common in
    check "listening" p.listening (sys_port "Listening")
    ∷ promote
    ∷ if_set_warn (describe id "port.ip") "ip" p.ip (sys_port "IP")
    ∷ if_set_warn (describe id "port.pid") "pid" p.pid (sys_port "PID")
    ∷ []

pub record Dns : Type 0 where
  pub common : Common
  pub timeout : ℤ
  pub server : String
  pub resolvable : Value
  pub resolveable : Value
  pub addrs : Value

-- The former spelling serves where the present one is absent.
unfoldable pub resolvable_or : Value → Value → Value
resolvable_or nil former = former
resolvable_or resolvable former = resolvable

unfoldable pub dns_statements : Dns → System → List Statement
unfolding id_of resolvable_or
dns_statements d sys_dns =
    check "resolvable" (resolvable_or d.resolvable d.resolveable) (sys_dns "Resolvable")
    ∷ promote
    ∷ if_set_warn (describe (id_of d.common) "dns.addrs") "addrs" d.addrs (sys_dns "Addrs")
    ∷ []

pub record Interface : Type 0 where
  pub common : Common
  pub exists : Value
  pub addrs : Value
  pub mtu : Value

unfoldable pub interface_statements : Interface → System → List Statement
unfolding id_of
interface_statements i sys_interface =
    check "exists" i.exists (sys_interface "Exists")
    ∷ promote
    ∷ if_set_warn (describe (id_of i.common) "interface.addrs") "addrs" i.addrs
        (sys_interface "Addrs")
    ∷ if_set "mtu" i.mtu (sys_interface "MTU")
    ∷ []

-- The fields that only go into the request are those of the constructor, but for the timeout.
pub record Http : Type 0 where
  pub common : Common
  pub timeout : ℤ
  pub status : Value
  pub headers : Value
  pub body : Value

unfoldable pub http_statements : Http → System → List Statement
unfolding id_of
http_statements u sys_http =
    let id = id_of u.common in
    check "status" u.status (sys_http "Status")
    ∷ promote
    ∷ if_set_warn (describe id "http.headers") "Headers" u.headers (sys_http "Headers")
    ∷ if_set_warn (describe id "http.body") "Body" u.body (sys_http "Body")
    ∷ []

module _ (checks : Checks) where
  unfoldable pub addr_validate :
      (String → ℤ → String → System) → Addr → List String → Result String Sheet
  unfolding target timeout_or addr_statements validate_type
  addr_validate new_addr a warned =
      let sys_addr = new_addr (target a.common) (timeout_or 500 a.timeout) a.local_address in
      validate_type checks "Addr" a.common (addr_statements a sys_addr) warned

  unfoldable pub port_validate : (String → System) → Port → List String → Result String Sheet
  unfolding target port_statements validate_type
  port_validate new_port p warned =
      validate_type checks "Port" p.common (port_statements p (new_port (target p.common))) warned

  unfoldable pub dns_validate :
      (String → ℤ → String → System) → Dns → List String → Result String Sheet
  unfolding target timeout_or dns_statements validate_type
  dns_validate new_dns d warned =
      let sys_dns = new_dns (target d.common) (timeout_or 500 d.timeout) d.server in
      validate_type checks "DNS" d.common (dns_statements d sys_dns) warned

  unfoldable pub interface_validate :
      (String → System) → Interface → List String → Result String Sheet
  unfolding target interface_statements validate_type
  interface_validate new_interface i warned =
      let sys_interface = new_interface (target i.common) in
      validate_type checks "Interface" i.common (interface_statements i sys_interface) warned

  unfoldable pub http_validate : (String → ℤ → System) → Http → List String → Result String Sheet
  unfolding target timeout_or http_statements validate_type
  http_validate new_http u warned =
      let sys_http = new_http (target u.common) (timeout_or 5000 u.timeout) in
      validate_type checks "HTTP" u.common (http_statements u sys_http) warned
