-- ===== src/Environment/Precedence.antt =====
-- pkg/utils/podutils/env.go: which of its sources gives a variable its value.
use clusterrouter.Base.{
  Bool, Option, none, some, List, [], ◌∷◌, ◌++◌, get, put, get-put, ◌≡◌, ◌≢◌, refl, sym, ap, subst,
  ◌∙◌, if_pos, if_neg, All, Option-cases, inl, inr, arith,
}
use clusterrouter.Expansion.{Bytes}
use clusterrouter.Environment.{bytes_dec, Env, Result, ok, error, ◌>>=◌, EnvVar, Container, Pod}
use clusterrouter.Environment.Fields.{FieldLibrary}
use clusterrouter.Environment.Values.{
  ResourceManager, make_environment_map_based_on_env_from, add_variables, append_services,
  environment_variable_value, put_value, mapping_of,
}
use clusterrouter.Environment.Services.{Service}
use clusterrouter.Environment.Populate.{service_env, make_environment_map, environment_of}

abbrev pub or_else : {A : Type 0} → Option A → Option A → Option A
or_else none o = o
or_else (some v) o = some v

abbrev pub IsOk : {A : Type 0} → Result A → Type 0
IsOk {A} r = (a : A) × (r ≡ ok a)

-- No variable of the list has the name.
abbrev pub Undeclared : Bytes → List EnvVar → Type 0
Undeclared j = All (λ e. e.name ≢ j)

append_services-get :
    (svc_env res : Env) (j : Bytes)
    → get bytes_dec j (append_services svc_env res)
      ≡ or_else (get bytes_dec j res) (get bytes_dec j svc_env)
unfolding append_services get
append_services-get [] res j = elim (Option-cases (get bytes_dec j res)) [
  | inl n ↦ rw n
  | inr (v, s) ↦ rw s
]
append_services-get ((k, v) ∷ svc_env) res j = elim (Option-cases (get bytes_dec k res)) [
  | inl n ↦
      ground (
        arith,
        n,
        append_services-get svc_env (put bytes_dec k v res) j,
        get-put bytes_dec k j v res,
      )
  | inr (w, s) ↦ ground (arith, s, append_services-get svc_env res j)
]

put_value-other :
    (name : Bytes) (v : Option Bytes) (res : Env) (j : Bytes)
    → name ≢ j
    → get bytes_dec j (put_value name v res) ≡ get bytes_dec j res
put_value-other name none res j n = refl
put_value-other name (some v) res j n = get-put bytes_dec name j v res ∙ rw (if_neg _ n)

put_value-same :
    (name : Bytes) (v : Option Bytes) (res : Env)
    → get bytes_dec name (put_value name v res) ≡ or_else v (get bytes_dec name res)
put_value-same name none res = refl
put_value-same name (some v) res = get-put bytes_dec name name v res ∙ rw (if_pos _ refl)

or_else_assoc : {A : Type 0} (a b c : Option A) → or_else (or_else a b) c ≡ or_else a (or_else b c)
or_else_assoc none b c = refl
or_else_assoc (some v) b c = refl

ok_cancel : {A : Type 0} {a b : A} → ok a ≡ ok b → a ≡ b
ok_cancel e = cc

-- A chain that succeeds succeeds at its first step.
ok_step :
    {A B : Type 0} (r : Result A) (f : A → Result B) (b : B)
    → r >>= f ≡ ok b
    → (a : A) × (r ≡ ok a) × (f a ≡ ok b)
ok_step (ok a) f b e = (a, refl, e)
ok_step (error x) f b e = absurd cc

module _ (F : FieldLibrary) (rm : ResourceManager) (pod : Pod) where
  add_variables-other :
      (svc_env : Env) (envs : List EnvVar) (res final : Env)
      → add_variables F rm pod svc_env envs res ≡ ok final
      → (j : Bytes) → Undeclared j envs
      → get bytes_dec j final ≡ get bytes_dec j res
  unfolding add_variables
  add_variables-other svc_env [] res final e j u = ap (get bytes_dec j) (sym (ok_cancel e))
  add_variables-other svc_env (x ∷ envs) res final e j u =
      let (v, _, e') =
        ok_step (environment_variable_value F rm pod (mapping_of svc_env res) x) _ final e in
      add_variables-other svc_env envs (put_value x.name v res) final e' j u.1
      ∙ put_value-other x.name v res j u.0

  -- The loop stands at a variable once it has passed those before it.
  add_variables-split :
      (svc_env : Env) (before : List EnvVar) (x : EnvVar) (behind : List EnvVar) (res final : Env)
      → add_variables F rm pod svc_env (before ++ x ∷ behind) res ≡ ok final
      → (so_far : Env) × (v : Option Bytes) × (add_variables F rm pod svc_env before res
          ≡ ok so_far)
        × (environment_variable_value F rm pod (mapping_of svc_env so_far) x ≡ ok v)
        × (add_variables F rm pod svc_env behind (put_value x.name v so_far) ≡ ok final)
  unfolding add_variables
  add_variables-split svc_env [] x behind res final e =
      let (v, p, e') =
        ok_step (environment_variable_value F rm pod (mapping_of svc_env res) x) _ final e in
      (res, v, refl, p, e')
  add_variables-split svc_env (y ∷ before) x behind res final e =
      let (v, p, e') =
        ok_step (environment_variable_value F rm pod (mapping_of svc_env res) y) _ final e in
      let (so_far, w, q, r, t) =
        add_variables-split svc_env before x behind (put_value y.name v res) final e' in
      (so_far, w, rw p q, r, t)

module _ (F : FieldLibrary) (valid : Bytes → Bool) (rm : ResourceManager)
    (services : Option (List Service)) where
  -- The parts of an environment that was made without an error.
  parts :
      (pod : Pod) (c : Container) (final : Env)
      → environment_of F valid rm services pod c ≡ ok final
      → (base svc_env res : Env) × (make_environment_map_based_on_env_from valid rm pod.namespace c
          ≡ ok base)
        × (service_env F valid rm services pod ≡ ok svc_env)
        × (add_variables F rm pod svc_env c.env base ≡ ok res)
        × (append_services svc_env res ≡ final)
  unfolding environment_of make_environment_map
  parts pod c final e =
      let (base, p, e1) =
        ok_step (make_environment_map_based_on_env_from valid rm pod.namespace c) _ final e in
      let (svc_env, q, e2) = ok_step (service_env F valid rm services pod) _ final e1 in
      let (res, r, e3) = ok_step (add_variables F rm pod svc_env c.env base) _ final e2 in
      (base, svc_env, res, p, q, r, ok_cancel e3)

  -- In an environment that was made, a name that `env` does not declare has the value that `envFrom`
  -- gives it, and only if there is none, the services' value.
  pub environment_of-Undeclared :
      (pod : Pod) (c : Container) (final : Env)
      → environment_of F valid rm services pod c ≡ ok final
      → (j : Bytes) → Undeclared j c.env
      → (base svc_env : Env) × (make_environment_map_based_on_env_from valid rm pod.namespace c
          ≡ ok base)
        × (service_env F valid rm services pod ≡ ok svc_env)
        × (get bytes_dec j final ≡ or_else (get bytes_dec j base) (get bytes_dec j svc_env))
  environment_of-Undeclared pod c final e j u =
      let (base, svc_env, res, p, q, r, t) = parts pod c final e in
      (
        base,
        svc_env,
        p,
        q,
        ap (get bytes_dec j) (sym t)
            ∙ append_services-get svc_env res j
            ∙ ap (λ o. or_else o (get bytes_dec j svc_env))
                (add_variables-other F rm pod svc_env c.env base res r j u),
      )

  -- In an environment that was made, a declared name has the value of its last declaration, which
  -- sees the variables declared before it, those of `envFrom` and those of the services; a reference
  -- without a value leaves what those gave.
  pub environment_of-declared :
      (pod : Pod) (c : Container) (final : Env)
      → environment_of F valid rm services pod c ≡ ok final
      → (before : List EnvVar) (x : EnvVar) (behind : List EnvVar) → c.env ≡ before ++ x ∷ behind
      → Undeclared x.name behind
      → (base svc_env so_far : Env) × (v : Option Bytes) × (make_environment_map_based_on_env_from
            valid rm pod.namespace c
          ≡ ok base)
        × (service_env F valid rm services pod ≡ ok svc_env)
        × (add_variables F rm pod svc_env before base ≡ ok so_far)
        × (environment_variable_value F rm pod (mapping_of svc_env so_far) x ≡ ok v)
        × (get bytes_dec x.name final
            ≡ or_else v (or_else (get bytes_dec x.name so_far) (get bytes_dec x.name svc_env)))
  environment_of-declared pod c final e before x behind d u =
      let (base, svc_env, res, p, q, r, t) = parts pod c final e in
      let (so_far, v, a, b, z) =
        add_variables-split F rm pod svc_env before x behind base res
          (subst (λ l. add_variables F rm pod svc_env l base ≡ ok res) d r) in
      (
        base,
        svc_env,
        so_far,
        v,
        p,
        q,
        a,
        b,
        ap (get bytes_dec x.name) (sym t)
            ∙ append_services-get svc_env res x.name
            ∙ ap (λ o. or_else o (get bytes_dec x.name svc_env))
                (add_variables-other F rm pod svc_env behind (put_value x.name v so_far) res z
                    x.name u
                  ∙ put_value-same x.name v so_far)
            ∙ or_else_assoc v (get bytes_dec x.name so_far) (get bytes_dec x.name svc_env),
      )
