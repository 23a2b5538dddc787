-- ===== src/Environment.antt =====
-- pkg/utils/podutils/env.go: the environment that a container gets from its fields `envFrom` and
-- `env` and from the services. Texts are bytes, as in Expansion.antt. The events and the log are not
-- modelled.
pub mod Fields
pub mod Values
pub mod Services
pub mod Populate
pub mod Precedence
pub mod References
pub mod Problems
pub mod Bracketed
pub mod Refused
pub mod Keyed
pub mod Told
pub mod Portless
pub mod Failures
pub mod Visible
pub mod Paths
pub mod All
mod Tests
use Prim.Native.String
use Prim.Native.Char.{code}
use clusterrouter.Base.{
  String, Bool, false, Option, none, some, List, [], ◌∷◌, refl, ap₂, ℕ_discrete,
}
use clusterrouter.Expansion.{Bytes}

unfoldable pub bytes_dec : Discrete Bytes
bytes_dec [] [] = yes refl
bytes_dec [] (d ∷ t) = no (λ e. cc)
bytes_dec (c ∷ s) [] = no (λ e. cc)
bytes_dec (c ∷ s) (d ∷ t) =
    let rest = bytes_dec s t in
    elim (ℕ_discrete c d) [
      | no n ↦ no (λ e. n cc)
      | yes e ↦ elim rest [ yes f ↦ yes (ap₂ (λ x y. x ∷ y) e f) | no n ↦ no (λ e. n cc) ]
    ]

-- The bytes of a text of ASCII characters, for the constants of the code.
unfoldable pub ascii : String → Bytes
ascii String.[] = []
ascii (String.◌∷◌ c s) = code c ∷ ascii s

abbrev pub Env : Type 0
Env = List (Bytes × Bytes)

-- What a lister of the client library answers; a failure is any error but `IsNotFound`.
pub data Fetched (A : Type 0) : Type 0 where
  found : A → Fetched A
  not_found : Fetched A
  failed : Fetched A

pub data EnvError : Type 0 where
  config_map_not_found secret_not_found : Bytes → EnvError
  config_map_unread secret_unread : Bytes → EnvError
  -- The object and the key that it lacks.
  config_map_key_missing secret_key_missing : Bytes → Bytes → EnvError
  unsupported_version unsupported_field invalid_subscript : Bytes → EnvError
  services_unlisted : EnvError
  -- A panic of `Expand`.
  panicked : EnvError

pub data Result (A : Type 0) : Type 0 where
  ok : A → Result A
  error : EnvError → Result A

infixl 5 ◌>>=◌
abbrev pub ◌>>=◌ : {A B : Type 0} → Result A → (A → Result B) → Result B
ok a >>= f = f a
error e >>= f = error e

-- `x != nil && *x`.
abbrev pub is_optional : Option Bool → Bool
is_optional none = false
is_optional (some b) = b

pub record KeyRef : Type 0 where
  pub name : Bytes
  pub key : Bytes
  pub optional : Option Bool

pub record FieldRef : Type 0 where
  pub api_version : Bytes
  pub field_path : Bytes

-- The pointers of the struct: the code takes the first that is not nil.
pub record ValueFrom : Type 0 where
  pub config_map_key_ref : Option KeyRef
  pub secret_key_ref : Option KeyRef
  pub field_ref : Option FieldRef

pub record EnvVar : Type 0 where
  pub name : Bytes
  pub value : Bytes
  pub value_from : Option ValueFrom

pub record SourceRef : Type 0 where
  pub name : Bytes
  pub optional : Option Bool

pub record EnvFromSource : Type 0 where
  pub prefix : Bytes
  pub config_map_ref : Option SourceRef
  pub secret_ref : Option SourceRef

pub record Container : Type 0 where
  pub env_from : List EnvFromSource
  pub env : List EnvVar

pub record Pod : Type 0 where
  pub name : Bytes
  pub namespace : Bytes
  pub uid : Bytes
  pub labels : Env
  pub annotations : Env
  pub node_name : Bytes
  pub service_account_name : Bytes
  pub enable_service_links : Option Bool
  pub init_containers : List Container
  pub containers : List Container
