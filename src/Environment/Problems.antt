-- ===== src/Environment/Problems.antt =====
-- pkg/utils/podutils/env.go: the problems that references have.
use clusterrouter.Base.{
  Bool, Option, none, some, get, ◌≡◌, refl, Bool-cases, inl, inr, if◌then◌else◌,
}
use clusterrouter.Expansion.{Bytes}
use clusterrouter.Environment.{
  bytes_dec, Env, Fetched, found, not_found, failed, EnvError, Result, ok, error, ◌>>=◌,
  is_optional, KeyRef,
}
use clusterrouter.Environment.Values.{unless_optional}
use clusterrouter.Environment.Precedence.{or_else, IsOk}

-- A problem that an optional reference has is none.
abbrev pub unless : Option Bool → EnvError → Option EnvError
unless optional e = if is_optional optional then none else some e

abbrev pub fetch_problem :
    {A : Type 0} → Option Bool → EnvError → EnvError → Fetched A → Option EnvError
fetch_problem optional missing unread (found a) = none
fetch_problem optional missing unread not_found = unless optional missing
fetch_problem optional missing unread failed = unless optional unread

abbrev pub missing_problem : Option Bool → EnvError → Option Bytes → Option EnvError
missing_problem optional no_key (some v) = none
missing_problem optional no_key none = unless optional no_key

abbrev pub key_problem : KeyRef → EnvError → EnvError → EnvError → Fetched Env → Option EnvError
key_problem vf missing unread no_key (found m) =
    missing_problem vf.optional no_key (get bytes_dec vf.key m)
key_problem vf missing unread no_key not_found = unless vf.optional missing
key_problem vf missing unread no_key failed = unless vf.optional unread

abbrev pub error_of : {A : Type 0} → Result A → Option EnvError
error_of (ok a) = none
error_of (error e) = some e

-- With no problem there is a result; a problem is the error.
abbrev pub Ends : {A : Type 0} → Option EnvError → Result A → Type 0
Ends none r = IsOk r
Ends (some e) r = r ≡ error e

pub unless_optional-Ends :
    {A : Type 0} (optional : Option Bool) (a : A) (e : EnvError)
    → Ends (unless optional e) (unless_optional optional a e)
unfolding unless_optional
unless_optional-Ends optional a e = elim (Bool-cases (is_optional optional)) [
  | inl p ↦ rw p (a, refl)
  | inr p ↦ rw p refl
]

pub fetch-Ends :
    {A B : Type 0} (f : A → Result B) (optional : Option Bool) (skipped : B)
    (missing unread : EnvError)
    → ((a : A) → Ends none (f a))
    → (fetched : Fetched A)
    → Ends (fetch_problem optional missing unread fetched) (elim fetched [
      | found a ↦ f a
      | not_found ↦ unless_optional optional skipped missing
      | failed ↦ unless_optional optional skipped unread
    ])
fetch-Ends f optional skipped missing unread h (found a) = h a
fetch-Ends f optional skipped missing unread h not_found =
    unless_optional-Ends optional skipped missing
fetch-Ends f optional skipped missing unread h failed = unless_optional-Ends optional skipped unread

pub step-Ends :
    {A B : Type 0} (o p : Option EnvError) (r : Result A) (f : A → Result B)
    → Ends o r
    → ((a : A) → Ends p (f a))
    → Ends (or_else o p) (r >>= f)
step-Ends none p r f (a, e) h = rw e (h a)
step-Ends (some x) p r f e h = rw e refl
