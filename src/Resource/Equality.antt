-- ===== src/Resource/Equality.antt =====
-- pkg/common/resource.go: equality of resources.
use clusterrouter.Base.{
  suc, String, ◌≡◌, ◌↔◌, refl, sym, ap, ◌∙◌, Bool, true, false, ◌&&◌, none, some, [], ◌∷◌, Map,
  lookup, delete, lookup-delete, Distinct, text_dec, if_pos, if_neg, length, ◌==◌, arith,
  if◌then◌else◌, Option-cases, Bool-cases, inl, inr, subst, some_cancel,
}
use clusterrouter.Resource.{Quantities, Resource}

module _ (U : Quantities) where
  open U use {Quantity}

  -- The loop of `CustomResources.Equal`.
  unfoldable pub all_equal : Map Quantity → Map Quantity → Bool
  all_equal [] other = true
  all_equal ((k, v) ∷ cr) other =
      let rest = all_equal cr other in
      elim (lookup k other) [ none ↦ false | some v1 ↦ if U.equal v1 v then rest else false ]

  -- `CustomResources.Equal`.
  unfoldable pub custom_equal : Map Quantity → Map Quantity → Bool
  custom_equal cr other = if length cr == length other then all_equal cr other else false

  -- `Resource.Equal`.
  unfoldable pub resource_equal : Resource U → Resource U → Bool
  resource_equal r other =
      U.equal r.cpu other.cpu
      && U.equal r.memory other.memory
      && U.equal r.pods other.pods
      && U.equal r.ephemeral_storage other.ephemeral_storage
      && custom_equal r.custom other.custom

  -- Every entry of the first map is one of the second.
  abbrev Within : Map Quantity → Map Quantity → Type 0
  Within [] other = Unit
  Within ((k, v) ∷ cr) other = (lookup k other ≡ some v) × Within cr other

  all_equal-Within : (cr other : Map Quantity) → (all_equal cr other ≡ true) ↔ Within cr other
  unfolding all_equal
  all_equal-Within [] other = (λ e. tt, λ h. refl)
  all_equal-Within ((k, v) ∷ cr) other =
      let (p, q) = all_equal-Within cr other in
      elim (Option-cases (lookup k other)) [
        | inl n ↦ (λ e. absurd (ground (arith, n, e)), λ h. absurd (ground (arith, n, h.0)))
        | inr (w, s) ↦ elim (Bool-cases (U.equal w v)) [
          | inl same ↦ (
            λ e. (s ∙ ap some ((U.equal_iff w v).0 same), p (ground (arith, e, s, same))),
            λ h. ground (arith, s, same, q h.1),
          )
          | inr other_value ↦ (
            λ e. absurd (ground (arith, e, s, other_value)),
            λ h.
                absurd
                  (ground (arith, other_value, (U.equal_iff w v).1 (some_cancel (sym s ∙ h.0)))),
          )
        ]
      ]

  delete_absent :
      (k : String) (m : Map Quantity) → lookup k m ≡ none → length (delete k m) ≡ length m
  unfolding delete lookup
  delete_absent k [] e = refl
  delete_absent k ((j, w) ∷ m) e = ground (arith, e, delete_absent k m)

  length-delete :
      (k : String) (v : Quantity) (m : Map Quantity)
      → Distinct m
      → lookup k m ≡ some v
      → suc (length (delete k m)) ≡ length m
  unfolding delete lookup
  length-delete k v [] d e = absurd (ground arith)
  length-delete k v ((j, w) ∷ m) d e = elim (text_dec j k) [
    | yes same ↦
        let absent : lookup k m ≡ none = subst (λ i. lookup i m ≡ none) same d.0 in
        ground (arith, same, delete_absent k m absent)
    | no other ↦ ground (arith, other, e, length-delete k v m d.1)
  ]

  delete-Distinct : (k : String) (m : Map Quantity) → Distinct m → Distinct (delete k m)
  unfolding delete lookup
  delete-Distinct k [] d = tt
  delete-Distinct k ((j, w) ∷ m) d = elim (text_dec j k) [
    | yes same ↦ rw (if_pos _ same) (delete-Distinct k m d.1)
    | no other ↦
        rw (if_neg _ other) (lookup-delete k j m ∙ ground (arith, d.0), delete-Distinct k m d.1)
  ]

  Within-delete :
      (k : String) (cr other : Map Quantity)
      → lookup k cr ≡ none
      → Within cr other
      → Within cr (delete k other)
  unfolding lookup
  Within-delete k [] other n h = tt
  Within-delete k ((j, v) ∷ cr) other n h = elim (text_dec j k) [
    | yes same ↦ absurd (ground (arith, same, n))
    | no apart ↦ (
      lookup-delete k j other ∙ ground (arith, apart, h.0),
      Within-delete k cr other (ground (arith, apart, n)) h.1,
    )
  ]

  -- As many entries, and all of the one in the other: no more are left over.
  Within-lookup :
      (cr other : Map Quantity)
      → Distinct cr
      → Distinct other
      → length cr ≡ length other
      → Within cr other
      → (j : String) → lookup j cr ≡ lookup j other
  unfolding lookup
  Within-lookup [] [] d c n h j = refl
  Within-lookup [] (x ∷ other) d c n h j = absurd (omega arith)
  Within-lookup ((k, v) ∷ cr) other d c n h j =
      let ih =
        Within-lookup cr (delete k other) d.1 (delete-Distinct k other c)
          (omega (arith, length-delete k v other c h.0)) (Within-delete k cr other d.0 h.1) j in
      elim (text_dec k j) [
        | yes same ↦ rw (if_pos _ same) (sym (h.0) ∙ ap (λ i. lookup i other) same)
        | no apart ↦ rw (if_neg _ apart) (ih ∙ lookup-delete k j other ∙ rw (if_neg _ apart))
      ]

  Within-undelete :
      (k : String) (cr other : Map Quantity) → Within cr (delete k other) → Within cr other
  Within-undelete k [] other h = tt
  Within-undelete k ((j, v) ∷ cr) other h =
      (ground (arith, h.0, lookup-delete k j other), Within-undelete k cr other h.1)

  lookup-Within :
      (cr other : Map Quantity)
      → Distinct cr
      → Distinct other
      → ((j : String) → lookup j cr ≡ lookup j other)
      → (length cr ≡ length other) × Within cr other
  unfolding lookup
  lookup-Within [] [] d c h = (refl, tt)
  lookup-Within [] ((k, w) ∷ other) d c h = absurd (ground (arith, h k))
  lookup-Within ((k, v) ∷ cr) other d c h =
      let there : lookup k other ≡ some v = sym (h k) ∙ ground arith in
      let (n, within) =
        lookup-Within cr (delete k other) d.1 (delete-Distinct k other c)
          (λ j. ground (arith, h j, lookup-delete k j other, d.0, ap (λ i. lookup i cr))) in
      (
        omega (arith, n, length-delete k v other c there),
        (there, Within-undelete k cr other within),
      )

  custom_equal-lookup :
      (cr other : Map Quantity)
      → Distinct cr
      → Distinct other
      → (custom_equal cr other ≡ true) ↔ ((j : String) → lookup j cr ≡ lookup j other)
  unfolding custom_equal
  custom_equal-lookup cr other d c =
      let (p, q) = all_equal-Within cr other in
      (
        λ e. Within-lookup cr other d c (ground (arith, e)) (p (ground (arith, e))),
        λ h. let (n, within) = lookup-Within cr other d c h in ground (arith, n, q within),
      )

  and_true : (a b : Bool) → (a && b ≡ true) → (a ≡ true) × (b ≡ true)
  and_true true b e = (refl, e)
  and_true false b e = absurd (ground (arith, e))

  -- Two resources are equal exactly if they have the same quantity in every field and the same custom
  -- resources, with the same quantities; the order of these does not count.
  pub resource_equal-lookup :
      (r other : Resource U)
      → Distinct r.custom
      → Distinct other.custom
      → (resource_equal r other ≡ true) ↔ (
          (r.cpu ≡ other.cpu)
          × (r.memory ≡ other.memory)
          × (r.pods ≡ other.pods)
          × (r.ephemeral_storage ≡ other.ephemeral_storage)
          × ((j : String) → lookup j r.custom ≡ lookup j other.custom))
  unfolding resource_equal
  resource_equal-lookup r other d c =
      let (p, q) = custom_equal-lookup r.custom other.custom d c in
      let cpu = U.equal_iff r.cpu other.cpu in
      let memory = U.equal_iff r.memory other.memory in
      let pods = U.equal_iff r.pods other.pods in
      let storage = U.equal_iff r.ephemeral_storage other.ephemeral_storage in
      (
        λ e.
            let (e1, z) = and_true _ _ e in
            let (e2, y) = and_true _ _ e1 in
            let (e3, x) = and_true _ _ e2 in
            let (a, b) = and_true _ _ e3 in (cpu.0 a, memory.0 b, pods.0 x, storage.0 y, p z),
        λ h. rw (cpu.1 h.0, memory.1 h.1, pods.1 h.2, storage.1 h.3, q h.4),
      )
