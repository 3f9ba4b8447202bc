-- ===== src/Engine/Alerts.antt =====
-- engine/alerts.go: the active alerts, the history of their events and the event channel. The map of
-- active alerts is an association list in the order of `range`; a call reads the clock once, and a
-- zero time is 0.
pub mod Registry
pub mod Calls
pub mod Sweep
mod Tests
use core_c.Common.{
  ℕ, ◌+◌, ◌-◌, String, Bool, true, false, Option, none, some, List, [], ◌∷◌, ◌++◌, ltb, leb,
  if◌then◌else◌, ◌==◌, string_key, nat_key, length, take, map, reversed,
}
use core_c.Common.Maps.{lookup, insert, delete}
use core_c.Common.Sort.{sort_by}
use core_c.Common.Texts.{◌<>◌}
use core_c.Common.Windows.{push_bounded}
use core_c.Common.Channels.{Channel, try_send, make_channel}
use core_c.Core.{DataPoint, Quality}

abbrev pub alert_registry_cap : ℕ
alert_registry_cap = 1000

abbrev pub alert_history_cap : ℕ
alert_history_cap = 500

pub record Alert (V : Type 0) : Type 0 where
  pub key : String
  pub rule : String
  pub driver : String
  pub tag : String
  pub value : V
  pub quality : Quality
  pub first_fired : ℕ
  pub last_fired : ℕ
  pub count : ℕ
  pub is_acked : Bool
  pub acked_at : ℕ

pub data AlertEventType : Type 0 where
  alert_fired alert_acked alert_cleared : AlertEventType

pub record AlertEvent (V : Type 0) : Type 0 where
  pub type : AlertEventType
  pub alert : Alert V
  pub at_time : ℕ

pub record AlertManager (V : Type 0) : Type 0 where
  pub active : List (String × Alert V)
  pub fired_by_rule : List (String × ℕ)
  pub history : List (AlertEvent V)
  pub active_window : ℕ
  pub event_ch : Channel (AlertEvent V)
  pub is_closed : Bool

pub alert_key : String → String → String → String
alert_key rule driver tag = rule <> ("|" <> (driver <> ("|" <> tag)))

module _ {V : Type 0} where
  pub append_history : AlertEvent V → AlertManager V → AlertManager V
  unfolding push_bounded
  append_history ev am = record am { history = push_bounded alert_history_cap am.history ev }

  -- A full channel drops the event.
  pub publish : AlertEvent V → AlertManager V → AlertManager V
  unfolding try_send
  publish ev am =
      if am.is_closed
      then am
      else (elim (try_send am.event_ch ev) [ none ↦ am | some ch ↦ record am { event_ch = ch } ])

  pub publish_all : List (AlertEvent V) → AlertManager V → AlertManager V
  unfolding publish
  publish_all [] am = am
  publish_all (ev ∷ evs) am = publish_all evs (publish ev am)

  pub alerts_of : List (String × Alert V) → List (Alert V)
  alerts_of [] = []
  alerts_of ((k, a) ∷ m) = a ∷ alerts_of m

  abbrev event : AlertEventType → Alert V → ℕ → AlertEvent V
  event t a now = record { type = t; alert = a; at_time = now }

  -- An alert leaves the active ones for the history.
  pub drop_alert : ℕ → Alert V → AlertManager V → AlertManager V
  unfolding append_history delete
  drop_alert now a am =
      append_history (event alert_cleared a now) (record am { active = delete a.key am.active })

  -- The loop over the oldest alerts when the registry is over its cap.
  pub clear_all : ℕ → List (Alert V) → AlertManager V → AlertManager V
  unfolding drop_alert publish
  clear_all now [] am = am
  clear_all now (a ∷ as') am =
      clear_all now as' (publish (event alert_cleared a now) (drop_alert now a am))

  pub evict : ℕ → AlertManager V → AlertManager V
  unfolding clear_all sort_by alerts_of
  evict now am =
      if ltb alert_registry_cap (length am.active)
      then clear_all now
          (take (length am.active - alert_registry_cap)
            (sort_by (λ (a : Alert V). a.last_fired) (alerts_of am.active)))
          am
      else am

  new_alert : String → DataPoint V → ℕ → Alert V
  unfolding alert_key
  new_alert rule point now = record {
    key = alert_key rule point.driver point.tag;
    rule = rule;
    driver = point.driver;
    tag = point.tag;
    value = point.value;
    quality = point.quality;
    first_fired = now;
    last_fired = 0;
    count = 0;
    is_acked = false;
    acked_at = 0;
  }

  touch : DataPoint V → ℕ → Alert V → Alert V
  touch point now a = record a {
    value = point.value;
    quality = point.quality;
    last_fired = now;
    count = a.count + 1;
  }

  fire_count : String → AlertManager V → ℕ
  unfolding lookup
  fire_count rule am = elim (lookup rule am.fired_by_rule) [ none ↦ 0 | some n ↦ n ]

  -- The fire counted, and the alert `a` stored as it is after the fire.
  pub store_fire : String → String → DataPoint V → ℕ → Alert V → AlertManager V → AlertManager V
  unfolding touch insert fire_count
  store_fire key rule point now a am = record am {
    fired_by_rule = insert rule (fire_count rule am + 1) am.fired_by_rule;
    active = insert key (touch point now a) am.active;
  }

  -- The method `record`, for a rule of this name.
  pub record_alert : String → DataPoint V → ℕ → AlertManager V → AlertManager V
  unfolding store_fire evict new_alert publish append_history lookup alert_key
  record_alert rule point now am =
      let key = alert_key rule point.driver point.tag in
      let a = new_alert rule point now in
      let ev = event alert_fired a now in
      elim (lookup key am.active) [
        | some old ↦ evict now (store_fire key rule point now old am)
        | none ↦ publish ev (append_history ev (evict now (store_fire key rule point now a am)))
      ]

  -- `none` is the error for a key without an active alert.
  pub ack : String → ℕ → AlertManager V → Option (AlertManager V)
  unfolding lookup insert publish append_history
  ack key now am = elim (lookup key am.active) [
    | none ↦ none
    | some a ↦
        let acked = record a { is_acked = true; acked_at = now } in
        let ev = event alert_acked acked now in
        some (publish ev (append_history ev (record am { active = insert key acked am.active })))
  ]

  -- The alerts of a list that fired last a window ago or more.
  pub expired : ℕ → ℕ → List (Alert V) → List (Alert V)
  expired now window [] = []
  expired now window (a ∷ as') =
      let rest = expired now window as' in
      if leb window (now - a.last_fired) then a ∷ rest else rest

  pub drop_all : ℕ → List (Alert V) → AlertManager V → AlertManager V
  unfolding drop_alert
  drop_all now [] am = am
  drop_all now (a ∷ as') am = drop_all now as' (drop_alert now a am)

  pub sweep : ℕ → AlertManager V → AlertManager V
  unfolding drop_all publish_all expired alerts_of
  sweep now am =
      let cleared = expired now am.active_window (alerts_of am.active) in
      publish_all (map (λ (a : Alert V). event alert_cleared a now) cleared)
        (drop_all now cleared am)

  pub active_alerts : AlertManager V → List (Alert V)
  unfolding alerts_of sort_by
  active_alerts am = sort_by (λ (a : Alert V). a.first_fired) (alerts_of am.active)

  -- `newAlertManager`; the default window is 15 minutes.
  abbrev pub new_alert_manager : ℕ → AlertManager V
  new_alert_manager window = record {
    active = [];
    fired_by_rule = [];
    history = [];
    active_window = if window == 0 then 900_000_000_000 else window;
    event_ch = make_channel 256;
    is_closed = false;
  }

  -- Newest first.
  abbrev pub alert_history : AlertManager V → List (AlertEvent V)
  alert_history am = reversed am.history

  abbrev pub fire_counts : AlertManager V → List (String × ℕ)
  fire_counts am = am.fired_by_rule

  abbrev pub active_count : AlertManager V → ℕ
  active_count am = length am.active
