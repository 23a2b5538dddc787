-- ===== src/Monitor/Runs.antt =====
-- pkg/utils/lock/monitor.go: runs of a variable with its subscriptions.
use clusterrouter.Base.{
  ◌+◌, ◌%◌, ◌<◌, ◌≡◌, refl, sym, ap, ap₂, subst, some_cancel, ◌∙◌, Bool, true, false, some, List,
  [], ◌∷◌, ltb, if◌then◌else◌, length, All-imp, arith, Bool-cases, inl, inr,
}
use clusterrouter.Monitor.{
  two_to_63, two_to_64, is_set, MonitorVariable, Subscription, is_closed, new_monitor_variable, set,
  subscribe, new_value_ready, value,
}
use clusterrouter.Monitor.Steps.{
  head, Run, start, sets, subscribes, reads, turns, Sound, Told, Holds,
}

module _ {V : Type 0} where
  start-Holds : Holds {V = V} [] new_monitor_variable []
  unfolding new_monitor_variable is_closed
  start-Holds = (
    record {
      version = refl;
      latest = refl;
      is_made = omega arith;
      is_open = refl;
      fresh = λ c h. refl;
    },
    tt,
  )

  -- The variable after a call of `Set` that does not panic.
  abbrev after : V → MonitorVariable V → MonitorVariable V
  after v m = record {
    current_value = some v;
    current_version = (m.current_version + 1) % two_to_64;
    version_invalidation_channel = m.made;
    made = m.made + 1;
    closed = m.version_invalidation_channel ∷ m.closed;
  }

  set-after :
      (v : V) (m : MonitorVariable V) (vs : List V) → Sound vs m → set v m ≡ some (after v m)
  unfolding set
  set-after v m vs p = rw (p.is_open)

  sets-Sound :
      (v : V) (m : MonitorVariable V) (vs : List V)
      → length vs + 1 < two_to_63
      → Sound vs m
      → Sound (v ∷ vs) (after v m)
  unfolding is_closed
  sets-Sound v m vs h p = record {
    version = omega (arith, p.version);
    latest = refl;
    is_made = omega arith;
    is_open = ground (arith, p.fresh m.made (omega arith), p.is_made);
    fresh = λ c n. ground (arith, p.fresh c (omega arith), p.is_made);
  }

  all_ready :
      (v : V) (m : MonitorVariable V) (s : Subscription)
      → Told m s
      → new_value_ready (after v m) s ≡ true
  unfolding new_value_ready is_closed
  all_ready v m s t =
      elim (Bool-cases (is_closed s.last_version_read_invalidation_channel m.closed)) [
        | inl e ↦ ground (arith, e)
        | inr e ↦ ground (arith, t.current e)
      ]

  sets-Told :
      (v : V) (m : MonitorVariable V) (s : Subscription)
      → m.current_version + 1 < two_to_63
      → Told m s
      → Told (after v m) s
  sets-Told v m s h t =
      let r = all_ready v m s t in
      record {
        is_known = omega (arith, t.is_known);
        not_ahead = omega (arith, t.not_ahead);
        ready = r ∙ ground (arith, t.not_ahead);
        current = λ e. absurd (ground (arith, r));
      }

  -- The variable after the channel of a new subscription is closed.
  abbrev with_closed : MonitorVariable V → MonitorVariable V
  with_closed m = record m { made = m.made + 1; closed = m.made ∷ m.closed }

  with_closed-Sound : (m : MonitorVariable V) (vs : List V) → Sound vs m → Sound vs (with_closed m)
  unfolding is_closed
  with_closed-Sound m vs p = record {
    version = p.version;
    latest = p.latest;
    is_made = omega (arith, p.is_made);
    is_open = ground (arith, p.is_open, p.is_made);
    fresh = λ c n. ground (arith, p.fresh c (omega arith));
  }

  with_closed-Told : (m : MonitorVariable V) (s : Subscription) → Told m s → Told (with_closed m) s
  unfolding new_value_ready is_closed
  with_closed-Told m s t = record {
    is_known = omega (arith, t.is_known);
    not_ahead = t.not_ahead;
    ready = ground (arith, t.ready, t.is_known);
    current = λ e. ground (arith, t.current, t.is_known);
  }

  -- A new subscription is told at once of a value that has been set before.
  subscribed_to_set :
      (m : MonitorVariable V) (vs : List V) (subs : List Subscription)
      → is_set m.current_version ≡ true
      → Holds vs m subs
      → Holds vs
          (with_closed m)
          (record { last_version_read = 0; last_version_read_invalidation_channel = m.made } ∷ subs)
  unfolding new_value_ready is_closed
  subscribed_to_set m vs subs e (p, told) = (
    with_closed-Sound m vs p,
    (
      record {
        is_known = omega arith;
        not_ahead = omega arith;
        ready = ground (arith, e);
        current = λ c. absurd (ground (arith, c));
      },
      All-imp (Told m) (Told (with_closed m)) (with_closed-Told m) subs told,
    ),
  )

  subscribed_to_unset :
      (m : MonitorVariable V) (vs : List V) (subs : List Subscription)
      → is_set m.current_version ≡ false
      → length vs < two_to_63
      → Holds vs m subs
      → Holds vs m (
          record {
            last_version_read = 0;
            last_version_read_invalidation_channel = m.version_invalidation_channel;
          }
          ∷ subs)
  unfolding new_value_ready is_closed
  subscribed_to_unset m vs subs e h (p, told) = (
    p,
    (
      record {
        is_known = p.is_made;
        not_ahead = omega arith;
        ready = ground (arith, e, p.version, p.is_open);
        current = λ c. refl;
      },
      told,
    ),
  )

  subscribe_lem :
      {b : Bool} (m : MonitorVariable V)
      → is_set m.current_version ≡ b
      → subscribe m ≡ (
          if b
          then (
            record { last_version_read = 0; last_version_read_invalidation_channel = m.made },
            with_closed m,
          )
          else (
            record {
              last_version_read = 0;
              last_version_read_invalidation_channel = m.version_invalidation_channel;
            },
            m,
          ))
  unfolding subscribe
  subscribe_lem m e = rw e

  subscribes-Holds :
      (m : MonitorVariable V) (vs : List V) (subs : List Subscription)
      → length vs < two_to_63
      → Holds vs m subs
      → Holds vs (subscribe m).1 ((subscribe m).0 ∷ subs)
  subscribes-Holds m vs subs h p = elim (Bool-cases (is_set m.current_version)) [
    | inl e ↦
        subst (λ r. Holds vs r.1 (r.0 ∷ subs)) (sym (subscribe_lem m e))
          (subscribed_to_set m vs subs e p)
    | inr e ↦
        subst (λ r. Holds vs r.1 (r.0 ∷ subs)) (sym (subscribe_lem m e))
          (subscribed_to_unset m vs subs e h p)
  ]

  reads-Told : (m : MonitorVariable V) (vs : List V) → Sound vs m → Told m (value m).1
  unfolding value new_value_ready
  reads-Told m vs p = record {
    is_known = p.is_made;
    not_ahead = omega arith;
    ready = ground (arith, p.is_open);
    current = λ c. refl;
  }

  pub Run-Holds :
      {vs : List V} {m : MonitorVariable V} {subs : List Subscription}
      → Run vs m subs
      → length vs < two_to_63
      → Holds vs m subs
  Run-Holds start h = start-Holds
  Run-Holds (sets {vs = vs} {m = m} {m' = m'} {subs = subs} v r e) h =
      let (p, told) = Run-Holds r (omega arith) in
      subst (λ x. Holds (v ∷ vs) x subs) (some_cancel (sym (set-after v m vs p) ∙ e))
        (
          sets-Sound v m vs (omega arith) p,
          All-imp (Told m) (Told (after v m)) (λ s. sets-Told v m s (omega (arith, p.version))) subs
              told,
        )
  Run-Holds (subscribes {vs = vs} {m = m} {subs = subs} r) h =
      subscribes-Holds m vs subs h (Run-Holds r h)
  Run-Holds (reads {vs = vs} {m = m} {subs = subs} r) h =
      let (p, told) = Run-Holds r h in (p, (reads-Told m vs p, told.1))
  Run-Holds (turns r) h = let (p, told) = Run-Holds r h in (p, (told.1.0, (told.0, told.1.1)))

  -- After any run of fewer than 2 ^ 63 calls of `Set`, interleaved in any order with new
  -- subscriptions and reads: `Set` does not panic; the version is the number of the values set; and
  -- a subscription's channel is closed exactly if a value has been set that it has not read, so that
  -- none is missed. What it reads then is the latest value, with its version, and its channel is
  -- open again.
  pub Run-ready :
      {vs : List V} {m : MonitorVariable V} {s : Subscription} {subs : List Subscription}
      → Run vs m (s ∷ subs)
      → length vs < two_to_63
      → ((v : V) → (m' : MonitorVariable V) × (set v m ≡ some m'))
        × (new_value_ready m s ≡ ltb s.last_version_read (length vs))
        × ((value m).0 ≡ (head vs, length vs))
        × (new_value_ready m (value m).1 ≡ false)
        × ((value m).1.last_version_read ≡ length vs)
  unfolding value new_value_ready
  Run-ready {vs} {m} {s} r h =
      let (p, told) = Run-Holds r h in
      (
        λ v. (_, set-after v m vs p),
        told.0.ready ∙ ap (ltb s.last_version_read) p.version,
        ap₂ (λ x y. (x, y)) p.latest p.version,
        p.is_open,
        p.version,
      )
