-- ===== src/Alerts.antt =====
-- internal/gateway/alerts.go: budget alerts, sent by email at most once per month and threshold.
-- The alert store is a database and the notifier a mail server: whether a call of theirs fails is
-- part of the environment of each emission; what they have taken is the state. No lock is held between
-- the calls of an emission: what other handlers do in between is an argument here, and explicit steps
-- in Race.
pub mod Race
pub mod Once
pub mod Lost
pub mod Twice
mod Tests
use costguard.Base.{
  ℕ, ◌+◌, String, Bool, true, false, not, ◌&&◌, ◌||◌, List, [], ◌∷◌, str_eq, ◌==◌, any,
  if◌then◌else◌,
}
use costguard.Budget.Calendar.{UtcTime}

-- The primary key of `budget_alerts`: the beginning of a month, a threshold, and a type.
pub record Key : Type 0 where
  pub year : ℕ
  pub month : ℕ
  pub threshold_percent : ℕ
  pub alert_type : String

abbrev pub same_key : Key → Key → Bool
same_key a b =
    (a.year == b.year)
    && ((a.month == b.month)
        && ((a.threshold_percent == b.threshold_percent) && str_eq a.alert_type b.alert_type))

abbrev pub holds_key : Key → List Key → Bool
holds_key k = any (same_key k)

-- What of the gateway is configured (not nil).
pub record Deps : Type 0 where
  pub alert_store : Bool
  pub budget_checker : Bool
  pub notifier : Bool
  pub log : Bool

-- Which calls of the outside fail.
pub record Outside : Type 0 where
  pub was_sent_fails : Bool
  pub send_fails : Bool
  pub mark_sent_fails : Bool

pub record Alerts : Type 0 where
  pub marked : List Key
  pub delivered : List Key

-- What other handlers do to the store and the notifier between the calls of an emission: behind its look
-- into the store, and before it marks the alert as sent.
pub record Meanwhile : Type 0 where
  pub before_send : Alerts → Alerts
  pub before_mark : Alerts → Alerts

-- Whether `sendBudgetAlertEmail` returns nil: a failure is returned only if there is a logger.
unfoldable pub send_budget_alert_email : Deps → Outside → Bool
send_budget_alert_email d o =
    if not d.notifier then false else if o.send_fails && d.log then false else true

-- What the notifier has delivered after a call of it.
abbrev pub deliver : Outside → Key → Alerts → Alerts
deliver o k s = if o.send_fails then s else record s { delivered = k ∷ s.delivered }

-- `MarkSent`, which leaves a key that is there.
abbrev pub mark_sent : Outside → Key → Alerts → Alerts
mark_sent o k s =
    if o.mark_sent_fails || holds_key k s.marked then s else record s { marked = k ∷ s.marked }

abbrev pub monthly_key : UtcTime → ℕ → Key
monthly_key now threshold_percent = record {
  year = now.year;
  month = now.month;
  threshold_percent = threshold_percent;
  alert_type = "monthly";
}

-- Whether an emission goes on behind its look into the store.
unfoldable pub goes_to_send : Deps → Outside → Key → Alerts → Bool
goes_to_send d o k s =
    if not d.alert_store || not d.budget_checker
    then false
    else if o.was_sent_fails
    then false
    else not (holds_key k s.marked)

-- Sending the mail, and whether it counts as delivered.
unfoldable pub send : Deps → Outside → Key → Alerts → Bool × Alerts
unfolding send_budget_alert_email
send d o k s = if d.notifier then (send_budget_alert_email d o, deliver o k s) else (false, s)

unfoldable pub emit_monthly_budget_alert_once :
    Deps → Outside → Meanwhile → UtcTime → ℕ → Alerts → Alerts
unfolding goes_to_send send
emit_monthly_budget_alert_once d o others now threshold_percent s =
    let k = monthly_key now threshold_percent in
    if goes_to_send d o k s
    then (let (delivered, s') = send d o k (others.before_send s) in
        if delivered then mark_sent o k (others.before_mark s') else s')
    else s

abbrev pub agent_key : UtcTime → String → Key
agent_key now agent = record {
  year = now.year;
  month = now.month;
  threshold_percent = 100;
  alert_type = Prim.Native.String.◌++◌ "agent:" agent;
}

-- An agent's alert is only logged.
unfoldable pub emit_agent_budget_alert_once :
    Deps → Outside → Meanwhile → UtcTime → String → Alerts → Alerts
emit_agent_budget_alert_once d o others now agent s =
    if not d.alert_store
    then s
    else if o.was_sent_fails
    then s
    else if holds_key (agent_key now agent) s.marked
    then s
    else mark_sent o (agent_key now agent) (others.before_mark s)
