-- ===== src/Engine/Alerts/Calls.antt =====
-- engine/alerts.go: the registry through runs of calls.
use core_c.Common.{
  ℕ, ◌+◌, ◌≤◌, ◌≡◌, ◌⊎◌, refl, inl, inr, String, true, Option, none, some, List, [], ◌∷◌, arith,
  length, Option-cases, string_key, map,
}
use core_c.Common.Maps.{
  lookup, insert, insert-HasDistinctKeys, delete-HasDistinctKeys, length-insert_new,
  length-insert_old, length-delete_le,
}
use core_c.Common.Windows.{length-push_bounded}
use core_c.Core.{DataPoint}
use core_c.Engine.Alerts.{
  Alert, AlertEvent, AlertManager, alert_cleared, alert_fired, alert_acked, alert_registry_cap,
  alert_history_cap, append_history, publish, alerts_of, event, drop_alert, evict, store_fire,
  touch, new_alert, record_alert, ack, sweep, drop_all, alert_key, expired,
}
use core_c.Engine.Alerts.Registry.{
  IsRegistry, IsFiled, publish_lem, publish_all_lem, insert-IsFiled, delete-IsFiled,
  evict-IsRegistry,
}

module _ {V : Type 0} where
  store_fire-IsRegistry :
      (key rule : String) (point : DataPoint V) (now : ℕ) (a : Alert V) (am : AlertManager V)
      → a.key ≡ key
      → IsRegistry am
      → IsRegistry (evict now (store_fire key rule point now a am))
  unfolding store_fire touch
  store_fire-IsRegistry key rule point now a am e (d, f, h, k) =
      evict-IsRegistry now (store_fire key rule point now a am)
        (insert-HasDistinctKeys key (touch point now a) am.active d)
        (insert-IsFiled key (touch point now a) am.active e f)
        (one_more (Option-cases (lookup key am.active))) k
    where
      one_more :
          (lookup key am.active ≡ none) ⊎ ((b : Alert V) × (lookup key am.active ≡ some b))
          → length (insert key (touch point now a) am.active) ≤ alert_registry_cap + 1
      one_more (inl new) = omega (arith, length-insert_new key (touch point now a) am.active new)
      one_more (inr (b, there)) =
          omega (arith, length-insert_old key (touch point now a) b am.active there)

  log-IsRegistry :
      (ev : AlertEvent V) (am : AlertManager V)
      → IsRegistry am
      → IsRegistry (publish ev (append_history ev am))
  unfolding append_history
  log-IsRegistry ev am (d, f, h, k) =
      let out = publish_lem ev (append_history ev am) in
      rw (out.0, out.1) (d, f, h, length-push_bounded alert_history_cap am.history ev)

  filed_key :
      (key : String) (a : Alert V) (m : List (String × Alert V))
      → IsFiled m
      → lookup key m ≡ some a
      → a.key ≡ key
  unfolding lookup
  filed_key key a [] f e = cc e
  filed_key key a ((j, b) ∷ m) f e =
      ground (arith, string_key.same_iff j key, filed_key key a m f.1)

  pub record_alert-IsRegistry :
      (rule : String) (point : DataPoint V) (now : ℕ) (am : AlertManager V)
      → IsRegistry am
      → IsRegistry (record_alert rule point now am)
  unfolding record_alert new_alert
  record_alert-IsRegistry rule point now am all = elim (Option-cases (lookup key am.active)) [
    | inl new ↦
        rw (new, record_alert)
          (log-IsRegistry (event alert_fired (new_alert rule point now) now)
            (evict now (store_fire key rule point now (new_alert rule point now) am))
            (store_fire-IsRegistry key rule point now (new_alert rule point now) am refl all))
    | inr (old, there) ↦
        rw (there, record_alert)
          (store_fire-IsRegistry key rule point now old am (filed_key key old am.active all.1 there)
            all)
  ]
    where
      key : String
      key = alert_key rule point.driver point.tag

  drop_all-IsRegistry :
      (now : ℕ) (as' : List (Alert V)) (am : AlertManager V)
      → IsRegistry am
      → IsRegistry (drop_all now as' am)
  unfolding drop_all drop_alert append_history
  drop_all-IsRegistry now [] am all = all
  drop_all-IsRegistry now (a ∷ as') am (d, f, h, k) =
      drop_all-IsRegistry now as' (drop_alert now a am) (
        delete-HasDistinctKeys a.key am.active d,
        delete-IsFiled a.key am.active f,
        omega (arith, length-delete_le a.key am.active),
        length-push_bounded alert_history_cap am.history (event alert_cleared a now),
      )

  pub sweep-IsRegistry : (now : ℕ) (am : AlertManager V) → IsRegistry am → IsRegistry (sweep now am)
  unfolding sweep
  sweep-IsRegistry now am all =
      let gone = expired now am.active_window (alerts_of am.active) in
      let out =
        publish_all_lem (map (λ (a : Alert V). event alert_cleared a now) gone)
          (drop_all now gone am) in
      rw (out.0, out.1) (drop_all-IsRegistry now gone am all)

-- The calls of the manager; an `acks` for a key that is not active changes nothing.
pub data Call (V : Type 0) : Type 0 where
  fires : String → DataPoint V → ℕ → Call V
  acks : String → ℕ → Call V
  sweeps : ℕ → Call V

module _ {V : Type 0} where
  abbrev pub after_ack : AlertManager V → Option (AlertManager V) → AlertManager V
  after_ack am none = am
  after_ack am (some am') = am'

  abbrev pub call : AlertManager V → Call V → AlertManager V
  call am (fires rule point now) = record_alert rule point now am
  call am (acks key now) = after_ack am (ack key now am)
  call am (sweeps now) = sweep now am

  abbrev pub run_calls : AlertManager V → List (Call V) → AlertManager V
  run_calls am [] = am
  run_calls am (c ∷ cs) = run_calls (call am c) cs

  ack-IsRegistry :
      (key : String) (now : ℕ) (am : AlertManager V)
      → IsRegistry am
      → IsRegistry (after_ack am (ack key now am))
  unfolding ack
  ack-IsRegistry key now am all = elim (Option-cases (lookup key am.active)) [
    | inl missing ↦ rw (missing, ack) all
    | inr (a, there) ↦
        let acked = record a { is_acked = true; acked_at = now } in
        rw (there, ack)
          (log-IsRegistry (event alert_acked acked now)
            (record am { active = insert key acked am.active })
            (
              insert-HasDistinctKeys key acked am.active all.0,
              insert-IsFiled key acked am.active (filed_key key a am.active all.1 there) all.1,
              omega (arith, length-insert_old key acked a am.active there, all.2),
              all.3,
            ))
  ]

  call-IsRegistry : (c : Call V) (am : AlertManager V) → IsRegistry am → IsRegistry (call am c)
  call-IsRegistry (fires rule point now) am all = record_alert-IsRegistry rule point now am all
  call-IsRegistry (acks key now) am all = ack-IsRegistry key now am all
  call-IsRegistry (sweeps now) am all = sweep-IsRegistry now am all

  -- Through any run of fires, acknowledgements and sweeps, every active alert stands once and
  -- under its own key, there are at most 1000 of them, and the history has at most 500 events.
  pub run_calls-IsRegistry :
      (cs : List (Call V)) (am : AlertManager V) → IsRegistry am → IsRegistry (run_calls am cs)
  run_calls-IsRegistry [] am all = all
  run_calls-IsRegistry (c ∷ cs) am all =
      run_calls-IsRegistry cs (call am c) (call-IsRegistry c am all)
