-- ===== src/Database/Community.antt =====
-- The rows of sql_helper/sql_community.py that a notification reads and writes, and the settings
-- of sql_application.py.
use sakura_embyboss.Prelude.{ℤ, String, Bool, Option}
use sakura_embyboss.Database.Rows.{DateTime, Fields, Value}

-- user_notifications
pub record UserNotification : Type 0 where
  pub id : String
  pub tg : ℤ
  pub category : String
  pub title : String
  pub body : String
  pub severity : String
  pub action_url : Option String
  pub metadata : Option Fields
  pub read_at : Option DateTime
  pub created_at : DateTime

-- notification_preferences
pub record NotificationPreference : Type 0 where
  pub tg : ℤ
  pub category : String
  pub web_enabled : Bool
  pub telegram_enabled : Bool

-- dynamic_settings; a text that is no JSON stands as `null`.
pub record DynamicSetting : Type 0 where
  pub setting_key : String
  pub value : Value
  pub is_secret : Bool
  pub revision : ℤ
