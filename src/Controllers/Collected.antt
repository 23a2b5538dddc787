-- ===== src/Controllers/Collected.antt =====
-- pkg/controllers/common.go: what the collection of objects leaves in the member cluster.
use clusterrouter.Base.{
  String, ◌↔◌, ◌⊎◌, inl, inr, some_cancel, Map, lookup, text_dec, text_differs, ite_iff, and_iff,
  or_iff, ◌≡◌, refl, ap, subst, ◌∙◌, Bool, true, false, ◌&&◌, ◌||◌, Option, none, some, List, [],
  ◌∷◌, if◌then◌else◌, ite, if_pos, if_neg,
}
use clusterrouter.Controllers.Api.{
  Key, key_dec, not_found, already_exists, other, is_not_found, Answer, ok, err,
  failure_unless_gone, Cache, Client, Kind, IsLawful,
}
use clusterrouter.Conversion.{ObjectMeta, value_at, or_blank, is_object_global}
use clusterrouter.Controllers.Common.{is_orphan, collect, gc_objects}

-- The annotation of objects that are marked global.
abbrev pub IsGlobal : ObjectMeta → Type 0
IsGlobal meta = (m : Map String) × (meta.annotations ≡ some m) × (lookup "global" m ≡ some "true")

blank_iff : (o : Option String) → (or_blank o ≡ "true") ↔ (o ≡ some "true")
blank_iff none = (λ h. absurd (text_differs "" "true" refl h), λ h. cc)
blank_iff (some s) = (λ h. ap some h, λ h. some_cancel h)

value_iff :
    (o : Option (Map String))
    → (value_at "global" o ≡ "true")
      ↔ ((m : Map String) × (o ≡ some m) × (lookup "global" m ≡ some "true"))
unfolding lookup
value_iff none = (λ h. absurd (text_differs "" "true" refl h), λ g. cc (g.1))
value_iff (some m) =
    let blank = blank_iff (lookup "global" m) in
    (λ h. (m, refl, blank.0 h), λ g. blank.1 (ap (lookup "global") (some_cancel (g.1)) ∙ g.2))

is_object_global-IsGlobal : (meta : ObjectMeta) → (is_object_global meta ≡ true) ↔ IsGlobal meta
unfolding is_object_global
is_object_global-IsGlobal meta =
    let test = ite_iff (text_dec (value_at "global" meta.annotations) "true") in
    let value = value_iff meta.annotations in (λ h. value.0 (test.0 h), λ g. test.1 (value.1 g))

missing_iff :
    {A : Type 0} (answer : Answer A)
    → (elim answer as (λ _. Bool) [ ok _ ↦ false | err e ↦ is_not_found e ] ≡ true)
      ↔ (answer ≡ err not_found)
missing_iff (ok a) = (λ h. cc, λ h. cc)
missing_iff (err not_found) = (λ h. refl, λ h. refl)
missing_iff (err already_exists) = (λ h. cc, λ h. cc)
missing_iff (err other) = (λ h. cc, λ h. cc)

module _ {A : Type 0} (K : Kind A) (master : Cache A) where
  -- The object is marked global, and the master cluster's lister does not find it.
  abbrev pub IsOrphan : A → Type 0
  IsOrphan a = IsGlobal (K.meta a) × (master (K.key a) ≡ err not_found)

  -- Such an object with the key is listed.
  abbrev pub HasOrphan : Key → List (Option A) → Type 0
  HasOrphan k [] = ⊥
  HasOrphan k (none ∷ objects) = HasOrphan k objects
  HasOrphan k (some a ∷ objects) = (IsOrphan a × (K.key a ≡ k)) ⊎ HasOrphan k objects

  -- The same by the test of the code.
  abbrev has_orphan : Key → List (Option A) → Bool
  has_orphan k [] = false
  has_orphan k (none ∷ objects) = has_orphan k objects
  has_orphan k (some a ∷ objects) =
      is_orphan K master a && ite (key_dec (K.key a) k) true false || has_orphan k objects

  is_orphan-IsOrphan : (a : A) → (is_orphan K master a ≡ true) ↔ IsOrphan a
  unfolding is_orphan
  is_orphan-IsOrphan a =
      let both = and_iff (is_object_global (K.meta a)) _ in
      let global = is_object_global-IsGlobal (K.meta a) in
      let missing = missing_iff (master (K.key a)) in
      (
        λ h. (global.0 (both.0 h).0, missing.0 (both.0 h).1),
        λ o. both.1 (global.1 o.0, missing.1 o.1),
      )

  has_orphan-HasOrphan :
      (k : Key) (objects : List (Option A)) → (has_orphan k objects ≡ true) ↔ HasOrphan k objects
  has_orphan-HasOrphan k [] = (λ h. cc, λ h. absurd h)
  has_orphan-HasOrphan k (none ∷ objects) = has_orphan-HasOrphan k objects
  has_orphan-HasOrphan k (some a ∷ objects) =
      let same = ite (key_dec (K.key a) k) true false in
      let either = or_iff (is_orphan K master a && same) (has_orphan k objects) in
      let both = and_iff (is_orphan K master a) same in
      let orphan = is_orphan-IsOrphan a in
      let keyed = ite_iff (key_dec (K.key a) k) in
      let rest = has_orphan-HasOrphan k objects in
      (
        λ h. elim (either.0 h) [
          | inl e ↦ inl (orphan.0 (both.0 e).0, keyed.0 (both.0 e).1)
          | inr e ↦ inr (rest.0 e)
        ],
        λ o. elim o [
          | inl e ↦ either.1 (inl (both.1 (orphan.1 e.0, keyed.1 e.1)))
          | inr e ↦ either.1 (inr (rest.1 e))
        ],
      )

  abbrev pub listed : Answer (List (Option A)) → List (Option A)
  listed (ok objects) = objects
  listed (err e) = []

module _ {A : Type 0} (K : Kind A) (C : Client A) (master : Cache A) where
  -- One object.
  collect_one :
      IsLawful K C
      → ((s : C.State) (k : Key) → failure_unless_gone (C.delete s k).1 ≡ none)
      → (s : C.State) (a : A) (b : Bool) (k : Key)
      → C.stored (if b then (C.delete s (K.key a)).0 else s) k
        ≡ (if b && ite (key_dec (K.key a) k) true false then none else C.stored s k)
  collect_one lawful reliable s a false k = refl
  collect_one lawful reliable s a true k = elim (key_dec (K.key a) k) [
    | yes e ↦ rw (if_pos (key_dec (K.key a) k) e true false) (
        subst (λ j. C.stored (C.delete s (K.key a)).0 j ≡ none) e
          (lawful.delete_gone s (K.key a) (reliable s (K.key a))))
    | no n ↦ rw (if_neg (key_dec (K.key a) k) n true false) (lawful.delete-others s (K.key a) k n)
  ]

  choice :
      (b c : Bool) (o : Option A)
      → (if c then none else (if b then none else o)) ≡ (if b || c then none else o)
  choice true true o = refl
  choice true false o = refl
  choice false true o = refl
  choice false false o = refl

  collect-stored :
      IsLawful K C
      → ((s : C.State) (k : Key) → failure_unless_gone (C.delete s k).1 ≡ none)
      → (objects : List (Option A)) (s : C.State) (k : Key)
      → C.stored (collect K C master s objects) k
        ≡ (if has_orphan K master k objects then none else C.stored s k)
  unfolding collect
  collect-stored lawful reliable [] s k = refl
  collect-stored lawful reliable (none ∷ objects) s k = collect-stored lawful reliable objects s k
  collect-stored lawful reliable (some a ∷ objects) s k =
      let next = if is_orphan K master a then (C.delete s (K.key a)).0 else s in
      let here = is_orphan K master a && ite (key_dec (K.key a) k) true false in
      collect-stored lawful reliable objects next k
      ∙ ap (λ o. if has_orphan K master k objects then none else o)
          (collect_one lawful reliable s a (is_orphan K master a) k)
      ∙ choice here (has_orphan K master k objects) (C.stored s k)

  -- By whether the test of the code found an orphan.
  collected :
      (k : Key) (objects : List (Option A)) (o p : Option A) (b : Bool)
      → has_orphan K master k objects ≡ b
      → p ≡ (if b then none else o)
      → (HasOrphan K master k objects × (p ≡ none)) ⊎ ((HasOrphan K master k objects → ⊥) × (p ≡ o))
  collected k objects o p true e h = inl ((has_orphan-HasOrphan K master k objects).0 e, h)
  collected k objects o p false e h =
      inr (λ g. orphan_false ((has_orphan-HasOrphan K master k objects).1 g), h)
    where
      orphan_false : has_orphan K master k objects ≡ true → ⊥
      orphan_false t = cc

  -- With a client whose deletes do not fail, the collection removes an object if one of its key is
  -- listed that is marked global and that the master cluster's lister answers to be not found, and
  -- leaves every other object as it is; if the list could not be had it removes nothing.
  pub gc_objects-stored :
      IsLawful K C
      → ((s : C.State) (k : Key) → failure_unless_gone (C.delete s k).1 ≡ none)
      → (s : C.State) (answer : Answer (List (Option A))) (k : Key)
      → let gone = HasOrphan K master k (listed K master answer) in
        let after = C.stored (gc_objects K C master s answer) k in
        (gone × (after ≡ none)) ⊎ ((gone → ⊥) × (after ≡ C.stored s k))
  unfolding gc_objects
  gc_objects-stored lawful reliable s (err e) k = inr (λ g. absurd g, refl)
  gc_objects-stored lawful reliable s (ok objects) k =
      collected k objects (C.stored s k) _ (has_orphan K master k objects) refl
        (collect-stored lawful reliable objects s k)
