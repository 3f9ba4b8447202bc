-- ===== src/Engine/Alerts/Registry.antt =====
-- engine/alerts.go: the registry and the history against their caps.
use core_c.Common.{
  ℕ, suc, ◌+◌, ◌-◌, ◌≤◌, ◌≡◌, ◌⊎◌, refl, sym, ap, ◌∙◌, inl, inr, String, true, none, some, List, [],
  ◌∷◌, arith, length, take, All, Bool-cases, ltb, string_key,
}
use core_c.Common.Maps.{
  lookup, insert, delete, HasDistinctKeys, delete-HasDistinctKeys, length-delete_old,
}
use core_c.Common.Sort.{sort_by, length-sort_by, All-sort_by}
use core_c.Common.Windows.{length-push_bounded}
use core_c.Engine.Alerts.{
  Alert, AlertEvent, AlertManager, alert_cleared, alert_registry_cap, alert_history_cap,
  append_history, publish, publish_all, alerts_of, event, drop_alert, clear_all, evict,
}

module _ {V : Type 0} where
  abbrev pub IsFiled : List (String × Alert V) → Type 0
  IsFiled = All (λ (e : String × Alert V). e.1.key ≡ e.0)

  -- Every alert stands once, under its own key, and both bounds hold.
  abbrev pub IsRegistry : AlertManager V → Type 0
  IsRegistry am =
      HasDistinctKeys am.active
      × IsFiled am.active
      × (length am.active ≤ alert_registry_cap)
      × (length am.history ≤ alert_history_cap)

  pub publish_lem :
      (ev : AlertEvent V) (am : AlertManager V)
      → ((publish ev am).active ≡ am.active) × ((publish ev am).history ≡ am.history)
  unfolding publish
  publish_lem ev am = (ground arith, ground arith)

  pub publish_all_lem :
      (evs : List (AlertEvent V)) (am : AlertManager V)
      → ((publish_all evs am).active ≡ am.active) × ((publish_all evs am).history ≡ am.history)
  unfolding publish_all
  publish_all_lem [] am = (refl, refl)
  publish_all_lem (ev ∷ evs) am =
      let first = publish_lem ev am in
      let rest = publish_all_lem evs (publish ev am) in (rest.0 ∙ first.0, rest.1 ∙ first.1)

  pub insert-IsFiled :
      (k : String) (a : Alert V) (m : List (String × Alert V))
      → a.key ≡ k
      → IsFiled m
      → IsFiled (insert k a m)
  unfolding insert
  insert-IsFiled k a [] e f = (e, tt)
  insert-IsFiled k a ((j, b) ∷ m) e f = elim (Bool-cases (string_key.same j k)) [
    | inl here ↦ rw here (e, f.1)
    | inr there ↦ rw there (f.0, insert-IsFiled k a m e f.1)
  ]

  pub delete-IsFiled : (k : String) (m : List (String × Alert V)) → IsFiled m → IsFiled (delete k m)
  unfolding delete
  delete-IsFiled k [] f = f
  delete-IsFiled k ((j, b) ∷ m) f = elim (Bool-cases (string_key.same j k)) [
    | inl here ↦ rw here (delete-IsFiled k m f.1)
    | inr there ↦ rw there (f.0, delete-IsFiled k m f.1)
  ]

  abbrev IsActive : List (String × Alert V) → Alert V → Type 0
  IsActive m a = lookup a.key m ≡ some a

  later-IsActive :
      (k : String) (b : Alert V) (m : List (String × Alert V)) (as' : List (Alert V))
      → lookup k m ≡ none
      → All (IsActive m) as'
      → All (IsActive ((k, b) ∷ m)) as'
  unfolding lookup
  later-IsActive k b m [] new all = tt
  later-IsActive k b m (a ∷ as') new all = (still, later-IsActive k b m as' new all.1)
    where
      still : IsActive ((k, b) ∷ m) a
      still = elim (Bool-cases (string_key.same k a.key)) [
        | inl here ↦
            cc (sym new ∙ ap (λ j. lookup j m) ((string_key.same_iff k a.key).0 here) ∙ all.0)
        | inr there ↦ rw there all.0
      ]

  alerts_of-IsActive :
      (m : List (String × Alert V)) → HasDistinctKeys m → IsFiled m → All (IsActive m) (alerts_of m)
  unfolding alerts_of lookup
  alerts_of-IsActive [] d f = tt
  alerts_of-IsActive ((k, a) ∷ m) d f = (
    rw ((string_key.same_iff k a.key).1 (sym f.0)) refl,
    later-IsActive k a m (alerts_of m) d.0 (alerts_of-IsActive m d.1 f.1),
  )

  length-alerts_of : (m : List (String × Alert V)) → length (alerts_of m) ≡ length m
  unfolding alerts_of
  length-alerts_of [] = refl
  length-alerts_of ((k, a) ∷ m) = ap suc (length-alerts_of m)

  clear_oldest :
      (now n : ℕ) (am : AlertManager V) (as' : List (Alert V))
      → n ≡ 1
      → 1 ≤ length as'
      → All (IsActive am.active) as'
      → (a : Alert V) × IsActive am.active a
        × (clear_all now (take n as') am
            ≡ publish (event alert_cleared a now) (drop_alert now a am))
  unfolding clear_all
  clear_oldest now n am [] e h all = absurd (omega arith)
  clear_oldest now n am (a ∷ as') e h all =
      (a, all.0, ap (λ k. clear_all now (take k (a ∷ as')) am) e)

  -- With one alert too many, the eviction drops one that is there.
  evict_cases :
      (now : ℕ) (am : AlertManager V)
      → HasDistinctKeys am.active
      → IsFiled am.active
      → length am.active ≤ alert_registry_cap + 1
      → ((length am.active ≤ alert_registry_cap) × (evict now am ≡ am))
        ⊎ ((a : Alert V) × IsActive am.active a
            × (evict now am ≡ publish (event alert_cleared a now) (drop_alert now a am)))
  unfolding evict
  evict_cases now am d f h = elim (Bool-cases (ltb alert_registry_cap (length am.active))) [
    | inr fits ↦ inl (ground arith, rw (fits, evict) refl)
    | inl full ↦
        let found =
          clear_oldest now (length am.active - alert_registry_cap) am sorted (ground arith)
            (omega (arith, total, over full)) active in
        inr (found.0, found.1, rw (full, evict) found.2)
  ]
    where
      age : Alert V → ℕ
      age a = a.last_fired

      sorted : List (Alert V)
      sorted = sort_by age (alerts_of am.active)

      total : length sorted ≡ length am.active
      total = length-sort_by age (alerts_of am.active) ∙ length-alerts_of am.active

      active : All (IsActive am.active) sorted
      active =
          All-sort_by (IsActive am.active) age (alerts_of am.active)
            (alerts_of-IsActive am.active d f)

      over : ltb alert_registry_cap (length am.active) ≡ true → 1 ≤ length am.active
      over full = ground arith

  pub evict-IsRegistry :
      (now : ℕ) (am : AlertManager V)
      → HasDistinctKeys am.active
      → IsFiled am.active
      → length am.active ≤ alert_registry_cap + 1
      → length am.history ≤ alert_history_cap
      → IsRegistry (evict now am)
  unfolding drop_alert append_history
  evict-IsRegistry now am d f h k = elim (evict_cases now am d f h) [
    | inl (fits, same) ↦ rw same (d, f, fits, k)
    | inr (a, there, one) ↦
        let out = publish_lem (event alert_cleared a now) (drop_alert now a am) in
        rw one (
          rw (out.0, out.1)
            (
              delete-HasDistinctKeys a.key am.active d,
              delete-IsFiled a.key am.active f,
              omega (arith, length-delete_old a.key a am.active d there),
              length-push_bounded alert_history_cap am.history (event alert_cleared a now),
            ))
  ]
