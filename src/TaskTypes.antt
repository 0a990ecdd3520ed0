-- ===== src/TaskTypes.antt =====
-- application/task_service.py: the table of the task types, and how a task is shown to a caller.
use sakura_embyboss.Prelude.{
  ℕ, String, Bool, true, false, ◌||◌, not, Option, none, some, List, [], ◌∷◌, ◌==◌, eq_string,
  if◌then◌else◌, first,
}
use sakura_embyboss.Database.{DateTime, Fields, text, OperationTask, TaskStatus}

pub record TaskDefinition : Type 0 where
  pub task_type : String
  pub label : String
  pub description : String
  pub risk : String
  pub timeout_seconds : ℕ
  pub max_retries : ℕ
  pub admin_exposed : Bool

abbrev definition : String → String → String → String → ℕ → ℕ → Bool → TaskDefinition
definition task_type label description risk timeout_seconds max_retries admin_exposed = record {
  task_type = task_type;
  label = label;
  description = description;
  risk = risk;
  timeout_seconds = timeout_seconds;
  max_retries = max_retries;
  admin_exposed = admin_exposed;
}

unfoldable pub task_definitions : List TaskDefinition
task_definitions =
    definition "sync.favorites" "同步 Emby 收藏" "从 Emby 拉取全部用户收藏并同步到本地数据库。" "normal" 1800 2 true
    ∷ definition "sync.moviepilot" "同步 MoviePilot 状态" "刷新下载和入库任务状态。" "normal" 600 3 true
    ∷ definition "sync.core_operations" "同步多 Emby 播放会话" "汇总所有启用 Emby 实例的在线会话、播放历史和设备画像。" "normal"
        300 2 false
    ∷ definition "maintenance.partition_access" "检查分区授权" "回收已到期分区授权并通知受影响用户。" "warning" 900 2 true
    ∷ definition "maintenance.expired_accounts" "检查到期账户" "执行账户续期、冻结及 Emby 策略更新。" "danger" 1800 1
        true
    ∷ definition "maintenance.backup_database" "备份数据库" "创建数据库备份并按保留策略清理旧文件。" "warning" 1800 1 true
    ∷ definition "registration.account" "创建 Emby 账号" "通过共享注册队列创建账号并写入用户资料。" "normal" 180 0 false
    ∷ definition "monitor.diagnostics" "运行系统诊断" "探测数据库、Emby、Telegram 与已启用外部服务，并执行风险规则。" "normal" 120
        1 true
    ∷ definition "alert.telegram" "发送 Telegram 告警" "向配置的安全管理员发送风险事件告警。" "normal" 60 3 false
    ∷ definition "notification.telegram" "发送 Telegram 业务通知" "按照用户通知偏好发送业务状态通知。" "normal" 60 3 false
    ∷ definition "users.batch" "批量账号运营" "批量执行账号暂停、恢复、延期、权益调整或通知。" "danger" 3600 0 false
    ∷ definition "automation.evaluate" "执行自动化规则" "消费系统事件并执行已启用的安全动作。" "normal" 300 1 false
    ∷ definition "monitor.emby_instances" "探测多 Emby 实例" "检查所有启用的 Emby 实例、凭据和 API 响应。" "normal" 300 1
        false
    ∷ []

abbrev has_type : String → TaskDefinition → Bool
has_type name d = d.task_type == name

-- `TASK_DEFINITIONS.get(task_type)`
unfoldable pub find_definition : String → Option TaskDefinition
unfolding task_definitions
find_definition name = first (has_type name) task_definitions

-- `dict[key] = value` for a key that is in the dict; the keys of a dict are unique.
unfoldable pub mask : String → Fields → Fields
mask key [] = []
mask key ((k, v) ∷ rest) = if k == key then (k, text "********") ∷ rest else (k, v) ∷ mask key rest

-- `_sanitized_task_data` for a caller who may not see the secrets of a task.
unfoldable pub sanitized_task_data : String → Option Fields → Bool → Option Fields
unfolding mask
sanitized_task_data task_type none include_sensitive = none
sanitized_task_data task_type (some value) include_sensitive =
    if include_sensitive
      || not (task_type == "registration.account" || task_type == "notification.telegram")
    then some value
    else (let hidden = mask "emby_password" (mask "registration_code" (mask "safety_code" value)) in
        some (if task_type == "notification.telegram" then mask "body" hidden else hidden))

-- The dict that `serialize_task` returns.
pub record TaskView : Type 0 where
  pub id : String
  pub task_type : String
  pub label : String
  pub status : TaskStatus
  pub progress : ℕ
  pub owner_kind : String
  pub owner_id : String
  pub input : Option Fields
  pub outcome : Option Fields
  pub error_message : Option String
  pub retry_count : ℕ
  pub max_retries : ℕ
  pub next_run_at : DateTime
  pub locked_by : Option String
  pub cancel_requested : Bool
  pub created_at : DateTime
  pub started_at : Option DateTime
  pub finished_at : Option DateTime
  pub updated_at : DateTime

label_of : String → Option TaskDefinition → String
label_of task_type none = task_type
label_of task_type (some d) = d.label

unfoldable pub serialize_task : OperationTask → Bool → TaskView
unfolding label_of sanitized_task_data find_definition
serialize_task row include_sensitive = record {
  id = row.id;
  task_type = row.task_type;
  label = label_of row.task_type (find_definition row.task_type);
  status = row.status;
  progress = row.progress;
  owner_kind = row.owner_kind;
  owner_id = row.owner_id;
  input = sanitized_task_data row.task_type (some row.input) include_sensitive;
  outcome = sanitized_task_data row.task_type row.outcome include_sensitive;
  error_message = row.error_message;
  retry_count = row.retry_count;
  max_retries = row.max_retries;
  next_run_at = row.next_run_at;
  locked_by = row.locked_by;
  cancel_requested = row.cancel_requested;
  created_at = row.created_at;
  started_at = row.started_at;
  finished_at = row.finished_at;
  updated_at = row.updated_at;
}
