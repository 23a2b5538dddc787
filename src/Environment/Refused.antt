-- ===== src/Environment/Refused.antt =====
-- pkg/utils/podutils/env.go: which fields of a pod are refused as values.
use clusterrouter.Base.{Option, none, some, List, [], ◌∷◌, ite, if◌then◌else◌, String}
use clusterrouter.Expansion.{Bytes}
use clusterrouter.Environment.{
  bytes_dec, ascii, EnvError, unsupported_version, unsupported_field, invalid_subscript, FieldRef,
}
use clusterrouter.Environment.Fields.{is_one_of, FieldLibrary}
use clusterrouter.Environment.Bracketed.{key_of}

-- The fields that can be read whole; `spec.host` is an older name of `spec.nodeName`.
abbrev pub readable : List String
readable =
    "metadata.annotations" ∷ "metadata.labels" ∷ "metadata.name" ∷ "metadata.namespace"
    ∷ "metadata.uid" ∷ "spec.nodeName" ∷ "spec.serviceAccountName" ∷ "spec.host" ∷ []

module _ (F : FieldLibrary) where
  abbrev pub name_problem : Bytes → Bytes → Option EnvError
  name_problem path name = if F.is_qualified_name name then none else some (invalid_subscript path)

  -- By the key of an annotation and that of a label.
  abbrev pub keyed_problem : Bytes → Option Bytes → Option Bytes → Option EnvError
  keyed_problem path (some k) l = name_problem path (F.to_lower k)
  keyed_problem path none (some k) = name_problem path k
  keyed_problem path none none =
      if is_one_of path readable then none else some (unsupported_field path)

  -- An annotation or a label in brackets must have a qualified name, where letters of an annotation's
  -- name count as small; any other path must be one of the fields that can be read.
  abbrev pub path_problem : Bytes → Option EnvError
  path_problem path =
      keyed_problem path (key_of "metadata.annotations" path) (key_of "metadata.labels" path)

  abbrev pub field_problem : FieldRef → Option EnvError
  field_problem vf =
      ite (bytes_dec vf.api_version (ascii "v1")) (path_problem vf.field_path)
        (some (unsupported_version vf.api_version))
