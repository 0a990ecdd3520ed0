-- ===== src/Notifications.antt =====
-- `add_notification` of application/community_service.py: a message in the web inbox, and a task
-- that sends it to Telegram, as the settings and the user's preferences say. `Delivery` carries the
-- clock reading and the two fresh identifiers (`uuid4()`) of the call.
pub mod Frame
use sakura_embyboss.Prelude.{
  ℕ, ℤ, pos, ltb_ℤ, String, Bool, true, false, not, ◌&&◌, ◌||◌, Option, none, some, List, [], ◌∷◌,
  ◌==◌, eq_int, eq_string, if◌then◌else◌, first, str_append, str_int, str_starts, str_strip,
  str_take,
}
use sakura_embyboss.Exec.{Exec, pure, raise, gets, modify, runtime_error, ◌>>=◌, ◌>>◌}
use sakura_embyboss.Database.{
  Db, DateTime, Value, flag, num, text, Fields, OperationTask, pending, UserNotification,
  NotificationPreference, DynamicSetting,
}
use sakura_embyboss.Operations.{event}
use sakura_embyboss.Codes.{text_value}
use sakura_embyboss.Tasks.{add_task}

-- `category in NOTIFICATION_CATEGORY_NAMES`
abbrev pub is_category : String → Bool
is_category c = c == "system" || c == "billing" || c == "ticket" || c == "request" || c == "review"

-- `severity in NOTIFICATION_SEVERITIES`
abbrev pub is_severity : String → Bool
is_severity s = s == "info" || s == "success" || s == "warning" || s == "danger"

abbrev pub is_setting : String → DynamicSetting → Bool
is_setting key s = s.setting_key == key

abbrev pub flag_or : Bool → Value → Bool
flag_or default (flag b) = b
flag_or default _ = default

abbrev pub enabled_of : Bool → Option DynamicSetting → Bool
enabled_of default none = default
enabled_of default (some s) = flag_or default s.value

-- `_setting_enabled`
abbrev pub setting_enabled : String → Db → Bool
setting_enabled key db = enabled_of true (first (is_setting key) db.settings)

abbrev pub is_preference : ℤ → String → NotificationPreference → Bool
is_preference tg category p = p.tg == tg && p.category == category

-- A channel of a notification.
pub data Channel : Type 0 where
  web telegram : Channel

abbrev pub preferred : Channel → Option NotificationPreference → Bool
preferred channel none = true
preferred web (some p) = p.web_enabled
preferred telegram (some p) = p.telegram_enabled

-- `CommunityRepository.notification_enabled`
abbrev pub notification_enabled : ℤ → String → Channel → Db → Bool
notification_enabled tg category channel db =
    preferred channel (first (is_preference tg category) db.preferences)

pub record Delivery : Type 0 where
  pub now : DateTime
  pub notification_id : String
  pub task_id : String

-- The keyword arguments of `add_notification`.
pub record Notice : Type 0 where
  pub tg : ℤ
  pub category : String
  pub title : String
  pub body : String
  pub severity : String
  pub action_url : Option String
  pub metadata : Option Fields

-- Only a path of the site is kept.
unfoldable pub safe_action_url : Option String → Option String
safe_action_url none = none
safe_action_url (some url) =
    if not (url == "") && str_starts "/" url && not (str_starts "//" url) then some url else none

abbrev pub inbox_row : Notice → Delivery → UserNotification
inbox_row n d = record {
  id = d.notification_id;
  tg = n.tg;
  category = n.category;
  title = str_take 200 (str_strip n.title);
  body = str_take 2000 (str_strip n.body);
  severity = n.severity;
  action_url = safe_action_url n.action_url;
  metadata = n.metadata;
  read_at = none;
  created_at = d.now;
}

-- `f"notification:{row.id if row else task_id}:telegram"`
abbrev pub telegram_key : Bool → Delivery → String
telegram_key in_web d =
    str_append "notification:"
      (str_append (if in_web then d.notification_id else d.task_id) ":telegram")

abbrev pub telegram_task : Bool → Notice → Delivery → OperationTask
telegram_task in_web n d = record {
  id = d.task_id;
  task_type = "notification.telegram";
  status = pending;
  progress = 0;
  owner_kind = "system";
  owner_id = "notification-service";
  idempotency_key = some (telegram_key in_web d);
  input =
      ("tg", num n.tg)
      ∷ ("category", text n.category)
      ∷ ("title", text (str_take 200 (str_strip n.title)))
      ∷ ("body", text (str_take 2000 (str_strip n.body)))
      ∷ ("severity", text n.severity)
      ∷ ("action_url", text_value (safe_action_url n.action_url))
      ∷ [];
  outcome = none;
  error_message = none;
  retry_count = 0;
  max_retries = 3;
  next_run_at = d.now;
  locked_by = none;
  lease_expires_at = none;
  last_heartbeat_at = none;
  cancel_requested = false;
  created_at = d.now;
  started_at = none;
  finished_at = none;
  updated_at = d.now;
}

-- The part under `if web_enabled:`.
unfoldable pub put_inbox : Bool → Notice → Delivery → Exec Db (Unit {0})
unfolding event
put_inbox false n d = pure tt
put_inbox true n d = do
  modify (λ (s : Db). record s { notifications = inbox_row n d ∷ s.notifications })
  event "notification.created" "user" (some (str_int n.tg)) (
      ("resource_type", text "notification")
      ∷ ("resource_id", text d.notification_id)
      ∷ ("tg", num n.tg)
      ∷ [])

abbrev pub queued : Notice → Delivery → Exec Db (Unit {0})
queued n d = event "notification.telegram.queued" "user" (some (str_int n.tg)) (
    ("resource_type", text "operation_task")
    ∷ ("resource_id", text d.task_id)
    ∷ ("tg", num n.tg)
    ∷ [])

-- The part under `if telegram_enabled:`.
unfoldable pub put_telegram : Bool → Bool → Notice → Delivery → Exec Db (Unit {0})
unfolding event
put_telegram in_web false n d = pure tt
put_telegram in_web true n d = do add_task (telegram_task in_web n d); queued n d

abbrev pub web_enabled : Notice → Db → Bool
web_enabled n db =
    setting_enabled "notifications.web_enabled" db && notification_enabled n.tg n.category web db

-- A negative `tg` is the key of an account without Telegram.
abbrev pub telegram_enabled : Notice → Db → Bool
telegram_enabled n db =
    setting_enabled "notifications.telegram_enabled" db
    && ltb_ℤ (pos 0) n.tg
    && notification_enabled n.tg n.category telegram db

unfoldable pub deliver : Notice → Delivery → Exec Db (Unit {0})
unfolding put_inbox put_telegram
deliver n d = do
  in_web ← gets (web_enabled n)
  in_telegram ← gets (telegram_enabled n)
  put_inbox in_web n d
  put_telegram in_web in_telegram n d

-- `add_notification`
unfoldable pub add_notification : Notice → Delivery → Exec Db (Unit {0})
unfolding deliver
add_notification n d =
    if not (is_category n.category)
    then raise runtime_error
    else if not (is_severity n.severity)
    then raise runtime_error
    else if str_strip n.title == "" || str_strip n.body == ""
    then raise runtime_error
    else deliver n d
