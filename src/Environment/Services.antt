-- ===== src/Environment/Services.antt =====
-- pkg/utils/podutils/env.go: the variables of the services that a pod sees.
use clusterrouter.Base.{
  ℕ, zero, suc, ◌+◌, ◌-◌, ◌/◌, ◌%◌, Bool, true, false, not, ◌&&◌, Option, none, some, List, [], ◌∷◌,
  ◌++◌, ite, get, put, if◌then◌else◌, ltb, leb, ◌==◌,
}
use clusterrouter.Expansion.{Bytes}
use clusterrouter.Environment.{bytes_dec, ascii, Env}

-- The port is an `int32` that validation keeps between 1 and 65535; an empty name or protocol is one
-- that is not set.
pub record ServicePort : Type 0 where
  pub name : Bytes
  pub protocol : Bytes
  pub port : ℕ

pub record Service : Type 0 where
  pub name : Bytes
  pub namespace : Bytes
  pub cluster_ip : Bytes
  pub ports : List ServicePort

abbrev pub equals : Bytes → Bytes → Bool
equals s t = ite (bytes_dec s t) true false

-- `IsServiceIPSet`.
unfoldable pub is_service_ip_set : Service → Bool
is_service_ip_set service =
    not (equals service.cluster_ip (ascii "None")) && not (equals service.cluster_ip [])

-- `strings.ToUpper` and `strings.ToLower`, on ASCII: the names of services and ports are DNS labels.
abbrev pub upper : ℕ → ℕ
upper c = if leb b'a' c && leb c b'z' then c - 32 else c

abbrev pub lower : ℕ → ℕ
lower c = if leb b'A' c && leb c b'Z' then c + 32 else c

unfoldable pub to_upper : Bytes → Bytes
to_upper [] = []
to_upper (c ∷ s) = upper c ∷ to_upper s

unfoldable pub to_lower : Bytes → Bytes
to_lower [] = []
to_lower (c ∷ s) = lower c ∷ to_lower s

-- `strings.Replace(str, "-", "_", -1)`.
unfoldable pub underscored : Bytes → Bytes
underscored [] = []
underscored (c ∷ s) = (if c == b'-' then b'_' else c) ∷ underscored s

-- `makeEnvVariableName`.
unfoldable pub make_env_variable_name : Bytes → Bytes
make_env_variable_name str = to_upper (underscored str)

-- `strconv.Itoa`: as many rounds as the number has digits, ten for an `int32`.
unfoldable pub digits : ℕ → ℕ → Bytes → Bytes
digits zero n rest = rest
digits (suc fuel) n rest =
    let d = (b'0' + n % 10) ∷ rest in
    let more = digits fuel (n / 10) d in if ltb n 10 then d else more

unfoldable pub itoa : ℕ → Bytes
itoa n = digits 10 n []

-- `net.JoinHostPort`: an address with a colon is put in brackets.
unfoldable pub has_byte : ℕ → Bytes → Bool
has_byte b [] = false
has_byte b (c ∷ s) = let rest = has_byte b s in if c == b then true else rest

unfoldable pub join_host_port : Bytes → Bytes → Bytes
join_host_port host port =
    if has_byte b':' host then b'[' ∷ (host ++ b']' ∷ b':' ∷ port) else host ++ b':' ∷ port

unfoldable pub protocol_of : ServicePort → Bytes
protocol_of sp = if equals sp.protocol [] then ascii "TCP" else sp.protocol

-- The variables of a port in `makeLinkVariables`.
unfoldable pub url_of : Service → ServicePort → Bytes
url_of service sp =
    to_lower (protocol_of sp) ++ ascii "://" ++ join_host_port service.cluster_ip (itoa sp.port)

unfoldable pub port_variables : Service → ServicePort → Env
port_variables service sp =
    let port_prefix =
      make_env_variable_name service.name
      ++ ascii "_PORT_"
      ++ itoa sp.port
      ++ ascii "_"
      ++ to_upper (protocol_of sp) in
    (port_prefix, url_of service sp)
    ∷ (port_prefix ++ ascii "_PROTO", to_lower (protocol_of sp))
    ∷ (port_prefix ++ ascii "_PORT", itoa sp.port)
    ∷ (port_prefix ++ ascii "_ADDR", service.cluster_ip)
    ∷ []

unfoldable pub all_port_variables : Service → List ServicePort → Env
all_port_variables service [] = []
all_port_variables service (sp ∷ ports) =
    port_variables service sp ++ all_port_variables service ports

-- `makeLinkVariables`: the first port has a variable more.
unfoldable pub make_link_variables : Service → Env
make_link_variables service = elim service.ports [
  | [] ↦ []
  | sp ∷ ports ↦
      (make_env_variable_name service.name ++ ascii "_PORT", url_of service sp)
      ∷ all_port_variables service (sp ∷ ports)
]

unfoldable pub named_port_variables : Bytes → List ServicePort → Env
named_port_variables name [] = []
named_port_variables name (sp ∷ ports) =
    let rest = named_port_variables name ports in
    if equals sp.name []
    then rest
    else (name ++ ascii "_" ++ make_env_variable_name sp.name, itoa sp.port) ∷ rest

-- The variables of one service in `FromServices`; `none` is the panic for a service without ports.
unfoldable pub from_service : Service → Option Env
from_service service = elim service.ports [
  | [] ↦ none
  | sp ∷ ports ↦
      let name = make_env_variable_name service.name ++ ascii "_SERVICE_PORT" in
      some (
        (make_env_variable_name service.name ++ ascii "_SERVICE_HOST", service.cluster_ip)
        ∷ (name, itoa sp.port)
        ∷ (named_port_variables name (sp ∷ ports) ++ make_link_variables service))
]

abbrev append_variables : Option Env → Option Env → Option Env
append_variables none rest = none
append_variables (some e) none = none
append_variables (some e) (some rest) = some (e ++ rest)

-- `FromServices`.
unfoldable pub from_services : List Service → Option Env
unfolding is_service_ip_set from_service
from_services [] = some []
from_services (service ∷ services) =
    let rest = from_services services in
    if is_service_ip_set service then append_variables (from_service service) rest else rest

-- What the loop of `getServiceEnvVarMap` does with a service.
unfoldable pub is_master_service : Service → Bool
is_master_service service =
    equals service.namespace (ascii "default") && equals service.name (ascii "kubernetes")

unfoldable pub add_service :
    Bytes → Bool → Service → List (Bytes × Service) → List (Bytes × Service)
add_service ns enable_service_links service service_map =
    if not (is_service_ip_set service)
    then service_map
    else if is_master_service service
    then elim (get bytes_dec service.name service_map) [
      | some _ ↦ service_map
      | none ↦ put bytes_dec service.name service service_map
    ]
    else if equals service.namespace ns && enable_service_links
    then put bytes_dec service.name service service_map
    else service_map

unfoldable pub select_services :
    Bytes → Bool → List Service → List (Bytes × Service) → List (Bytes × Service)
select_services ns links [] service_map = service_map
select_services ns links (service ∷ services) service_map =
    select_services ns links services (add_service ns links service service_map)

unfoldable pub values_of : List (Bytes × Service) → List Service
values_of [] = []
values_of ((k, service) ∷ m) = service ∷ values_of m

unfoldable pub put_all : Env → Env → Env
put_all [] m = m
put_all ((k, v) ∷ es) m = put_all es (put bytes_dec k v m)

-- `getServiceEnvVarMap`, once the services are listed. The map of services is ranged over in the
-- order in which its keys came; Go's order is any.
unfoldable pub get_service_env_var_map : List Service → Bytes → Bool → Option Env
get_service_env_var_map services ns links =
    elim (from_services (values_of (select_services ns links services []))) [
      | none ↦ none
      | some es ↦ some (put_all es [])
    ]
