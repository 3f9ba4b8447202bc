-- ===== src/Engine/Alerts/Sweep.antt =====
-- engine/alerts.go: what a sweep clears.
use core_c.Common.{
  ℕ, ◌-◌, ◌≡◌, refl, sym, ap, ◌∙◌, inl, inr, String, Bool, true, false, ◌||◌, ◌&&◌, Option, none,
  some, List, [], ◌∷◌, arith, Bool-cases, leb, if◌then◌else◌, string_key, map,
}
use core_c.Common.Maps.{lookup, HasDistinctKeys, lookup-delete}
use core_c.Common.Windows.{push_all}
use core_c.Engine.Alerts.{
  Alert, AlertManager, alert_cleared, alert_history_cap, append_history, alerts_of, event,
  drop_alert, sweep, drop_all, expired,
}
use core_c.Engine.Alerts.Registry.{IsRegistry, IsFiled, publish_all_lem}

module _ {V : Type 0} where
  abbrev has_alert : String → List (Alert V) → Bool
  has_alert k [] = false
  has_alert k (a ∷ as') = string_key.same a.key k || has_alert k as'

  -- The alert fired last a window ago or more.
  abbrev pub is_silent : ℕ → ℕ → Option (Alert V) → Bool
  is_silent now window none = false
  is_silent now window (some a) = leb window (now - a.last_fired)

  lookup-drop_all :
      (now : ℕ) (k : String) (as' : List (Alert V)) (am : AlertManager V)
      → lookup k (drop_all now as' am).active
        ≡ (if has_alert k as' then none else lookup k am.active)
  unfolding drop_all drop_alert append_history
  lookup-drop_all now k [] am = refl
  lookup-drop_all now k (a ∷ as') am =
      ground
        (arith, lookup-drop_all now k as' (drop_alert now a am), lookup-delete a.key k am.active)

  history-drop_all :
      (now : ℕ) (as' : List (Alert V)) (am : AlertManager V)
      → (drop_all now as' am).history
        ≡ push_all alert_history_cap am.history
            (map (λ (a : Alert V). event alert_cleared a now) as')
  unfolding drop_all drop_alert append_history push_all
  history-drop_all now [] am = refl
  history-drop_all now (a ∷ as') am = history-drop_all now as' (drop_alert now a am)

  has_alert-if :
      (k : String) (late : Bool) (a : Alert V) (as' : List (Alert V))
      → has_alert k (if late then a ∷ as' else as')
        ≡ ((late && string_key.same a.key k) || has_alert k as')
  has_alert-if k true a as' = refl
  has_alert-if k false a as' = refl

  has_alert-expired :
      (now window : ℕ) (k : String) (m : List (String × Alert V))
      → HasDistinctKeys m
      → IsFiled m
      → has_alert k (expired now window (alerts_of m)) ≡ is_silent now window (lookup k m)
  unfolding expired alerts_of lookup
  has_alert-expired now window k [] d f = refl
  has_alert-expired now window k ((j, a) ∷ m) d f =
      has_alert-if k (leb window (now - a.last_fired)) a (expired now window (alerts_of m))
      ∙ rw (has_alert-expired now window k m d.1 f.1, ap (λ x. string_key.same x k) f.0)
          (elim (Bool-cases (string_key.same j k)) [
            | inl here ↦
                rw (here, sym (ap (λ x. lookup x m) ((string_key.same_iff j k).0 here)) ∙ d.0)
                  (ground arith)
            | inr there ↦ rw there (ground arith)
          ])

  -- On such a registry, a sweep removes exactly the alerts that fired last a window ago or more,
  -- leaves the other ones as they were, and appends one cleared event for each removed alert to
  -- the bounded history.
  pub sweep-silent :
      (now : ℕ) (am : AlertManager V) (k : String)
      → IsRegistry am
      → (lookup k (sweep now am).active ≡ (
          if is_silent now am.active_window (lookup k am.active) then none else lookup k am.active))
        × ((sweep now am).history
            ≡ push_all alert_history_cap am.history (
                map
                  (λ (a : Alert V). event alert_cleared a now)
                  (expired now am.active_window (alerts_of am.active))))
  unfolding sweep
  sweep-silent now am k all =
      let gone = expired now am.active_window (alerts_of am.active) in
      let out =
        publish_all_lem (map (λ (a : Alert V). event alert_cleared a now) gone)
          (drop_all now gone am) in
      (
        ap (lookup k) out.0
            ∙ lookup-drop_all now k gone am
            ∙ ap (λ b. if b then none else lookup k am.active)
                (has_alert-expired now am.active_window k am.active all.0 all.1),
        out.1 ∙ history-drop_all now gone am,
      )
