-- ===== src/Requests.antt =====
-- `MediaRequestService` of application/commerce_service.py. `now` is the clock reading of a call,
-- `id` its fresh `uuid4()`, and `stamp` the text of `now.strftime('%y%m%d')`.
mod Tests
pub mod Done
pub mod Calls
pub mod Sync
use sakura_embyboss.Prelude.{
  ℕ, ℤ, pos, zero, suc, ltb, leb, ltb_ℤ, String, Bool, true, false, not, ◌&&◌, ◌||◌, Option, none,
  some, List, [], ◌∷◌, ◌++◌, ◌==◌, eq_int, eq_string, if◌then◌else◌, truthy, first, replace,
  is_some, str_append, str_int, str_take, str_strip, stripped, str_is_digit, int_str, hex_upper,
  map,
}
use sakura_embyboss.Exec.{
  Exec, pure, raise, gets, modify, transaction, runtime_error, integrity_error, ◌>>=◌, ◌>>◌,
}
use sakura_embyboss.Database.{
  Db, DateTime, Value, null, num, text, time, Fields, Actor, MediaRequest,
}
use sakura_embyboss.Operations.{audit, event, key_is}
use sakura_embyboss.Codes.{text_value, int_value, date_value}
use sakura_embyboss.Notifications.{Delivery, Notice, add_notification}
use sakura_embyboss.Tickets.{actor_number}

abbrev pub is_request : String → MediaRequest → Bool
is_request id r = r.id == id

abbrev pub of_user : Option ℤ → MediaRequest → Bool
of_user none r = true
of_user (some tg) r = r.tg == tg

-- `CommerceRepository.get_media_request`
abbrev pub get_request : String → Option ℤ → Db → Option MediaRequest
get_request id tg db = first (λ r. of_user tg r && is_request id r) db.requests

abbrev pub has_download : String → MediaRequest → Bool
has_download download_id r = key_is download_id r.download_id

-- `CommerceRepository.media_request_by_download_id`
abbrev pub by_download_id : String → Db → Option MediaRequest
by_download_id download_id db = first (has_download download_id) db.requests

abbrev pub save_request : MediaRequest → Exec Db (Unit {0})
save_request r = modify (λ (s : Db). record s { requests = replace (is_request r.id) r s.requests })

unfoldable pub serialize_media_request : MediaRequest → Fields
serialize_media_request row =
    ("id", text row.id)
    ∷ ("request_no", text row.request_no)
    ∷ ("tg", num row.tg)
    ∷ ("title", text row.title)
    ∷ ("year", int_value row.year)
    ∷ ("media_type", text row.media_type)
    ∷ ("description", text_value row.description)
    ∷ ("status", text row.status)
    ∷ ("priority", text row.priority)
    ∷ ("source", text row.source)
    ∷ ("external_ref", text_value row.external_ref)
    ∷ ("download_id", text_value row.download_id)
    ∷ ("cost_coins", num row.cost_coins)
    ∷ ("progress", num row.progress)
    ∷ ("admin_note", text_value row.admin_note)
    ∷ ("reviewed_by", int_value row.reviewed_by)
    ∷ ("reviewed_at", date_value row.reviewed_at)
    ∷ ("completed_at", date_value row.completed_at)
    ∷ ("canceled_at", date_value row.canceled_at)
    ∷ ("created_at", time row.created_at)
    ∷ ("updated_at", time row.updated_at)
    ∷ []

abbrev pub has_request_no : String → MediaRequest → Bool
has_request_no n r = r.request_no == n

abbrev pub download_taken : Option String → List MediaRequest → Bool
download_taken none rows = false
download_taken (some d) rows = is_some (first (has_download d) rows)

-- `add_media_request` at the flush, which checks the primary key, the number and the download.
unfoldable pub add_media_request : MediaRequest → Exec Db (Unit {0})
add_media_request r db =
    if is_some (first (is_request r.id) db.requests)
      || is_some (first (has_request_no r.request_no) db.requests)
      || download_taken r.download_id db.requests
    then raise integrity_error db
    else modify (λ (s : Db). record s { requests = r ∷ s.requests }) db

-- The arguments of `create`.
pub record NewRequest : Type 0 where
  pub tg : ℤ
  pub title : String
  pub year : Option ℤ
  pub media_type : String
  pub description : Option String
  pub external_ref : Option String

abbrev pub request_no_of : String → String → String → String
request_no_of prefix stamp id = str_append prefix (str_append stamp (hex_upper (str_take 6 id)))

abbrev pub new_request : NewRequest → DateTime → String → String → MediaRequest
new_request a now id stamp = record {
  id = id;
  request_no = request_no_of "RQ" stamp id;
  tg = a.tg;
  title = str_strip a.title;
  year = a.year;
  media_type = a.media_type;
  description = stripped a.description;
  status = "submitted";
  priority = "normal";
  source = "web";
  external_ref = stripped a.external_ref;
  download_id = none;
  cost_coins = pos 0;
  progress = pos 0;
  admin_note = none;
  reviewed_by = none;
  reviewed_at = none;
  completed_at = none;
  canceled_at = none;
  created_at = now;
  updated_at = now;
}

abbrev pub request_event : String → MediaRequest → Fields → Exec Db (Unit {0})
request_event name r more =
    event name "user" (some (str_int r.tg)) (
      ("resource_type", text "media_request")
      ∷ ("resource_id", text r.id)
      ∷ ("tg", num r.tg)
      ∷ more)

-- What is written beside a new request.
unfoldable pub note_request : MediaRequest → String → Fields → Actor → Exec Db Fields
unfolding audit event
note_request row action detail actor = do
  audit actor action "media_request" (some row.id) "success" (some detail)
  request_event "request.created" row (("request_no", text row.request_no) ∷ [])
  pure (serialize_media_request row)

abbrev pub place_request : MediaRequest → String → Fields → Actor → Exec Db Fields
place_request row action detail actor =
    add_media_request row >> note_request row action detail actor

-- `create`
unfoldable pub create_request : NewRequest → Actor → DateTime → String → String → Exec Db Fields
create_request a actor now id stamp = transaction (
    place_request (new_request a now id stamp) "request.create"
      (("title", text (str_strip a.title)) ∷ []) actor)

-- `status in ALLOWED_USER_CANCEL`
abbrev pub may_cancel : String → Bool
may_cancel s = s == "submitted" || s == "reviewing"

abbrev pub canceled_request : MediaRequest → DateTime → MediaRequest
canceled_request r now = record r { status = "canceled"; canceled_at = some now; updated_at = now }

unfoldable pub write_cancel : MediaRequest → Actor → DateTime → Exec Db (Option Fields)
unfolding audit event
write_cancel r actor now = do
  save_request (canceled_request r now)
  audit actor "request.cancel" "media_request" (some r.id) "success" none
  request_event "request.updated" r (("status", text "canceled") ∷ [])
  pure (some (serialize_media_request (canceled_request r now)))

abbrev pub cancel_request_found : Actor → DateTime → Option MediaRequest → Exec Db (Option Fields)
cancel_request_found actor now none = pure none
cancel_request_found actor now (some r) =
    if not (may_cancel r.status) then raise runtime_error else write_cancel r actor now

-- `cancel`
unfoldable pub cancel_request : String → ℤ → Actor → DateTime → Exec Db (Option Fields)
unfolding write_cancel
cancel_request id tg actor now =
    transaction (gets (get_request id (some tg)) >>= cancel_request_found actor now)

-- An entry of the `data` of `update`.
pub data RequestChange : Type 0 where
  set_status set_priority : String → RequestChange
  set_external_ref set_download_id set_admin_note : Option String → RequestChange
  set_cost_coins set_progress : ℤ → RequestChange

abbrev pub request_field : RequestChange → String × Value
request_field (set_status s) = ("status", text s)
request_field (set_priority s) = ("priority", text s)
request_field (set_external_ref s) = ("external_ref", text_value s)
request_field (set_download_id s) = ("download_id", text_value s)
request_field (set_admin_note s) = ("admin_note", text_value s)
request_field (set_cost_coins n) = ("cost_coins", num n)
request_field (set_progress n) = ("progress", num n)

-- `setattr(row, field, data[field])`
abbrev pub change_request : RequestChange → MediaRequest → MediaRequest
change_request (set_status s) r = record r { status = s }
change_request (set_priority s) r = record r { priority = s }
change_request (set_external_ref s) r = record r { external_ref = s }
change_request (set_download_id s) r = record r { download_id = s }
change_request (set_admin_note s) r = record r { admin_note = s }
change_request (set_cost_coins n) r = record r { cost_coins = n }
change_request (set_progress n) r = record r { progress = n }

unfoldable pub change_all : List RequestChange → MediaRequest → MediaRequest
change_all [] r = r
change_all (c ∷ cs) r = change_all cs (change_request c r)

-- `data.get("download_id")`
unfoldable pub download_of : List RequestChange → Option String
download_of [] = none
download_of (set_download_id s ∷ cs) = s
download_of (_ ∷ cs) = download_of cs

abbrev pub or_now : Option DateTime → DateTime → Option DateTime
or_now none now = some now
or_now (some t) now = some t

-- The dates that follow from the status.
abbrev pub dated_completed : DateTime → MediaRequest → MediaRequest
dated_completed now r =
    if r.status == "completed"
    then record r { completed_at = or_now r.completed_at now; progress = pos 100 }
    else record r { completed_at = none }

abbrev pub dated_canceled : DateTime → MediaRequest → MediaRequest
dated_canceled now r = record r {
  canceled_at = if r.status == "canceled" then or_now r.canceled_at now else none;
}

abbrev pub reviewed : Actor → DateTime → MediaRequest → MediaRequest
reviewed actor now r = record r {
  reviewed_by = actor_number actor;
  reviewed_at = some now;
  updated_at = now;
}

-- The row that `update` writes.
abbrev pub updated_request : List RequestChange → Actor → DateTime → MediaRequest → MediaRequest
updated_request changes actor now r =
    dated_canceled now (dated_completed now (reviewed actor now (change_all changes r)))

abbrev pub severity_of : String → String
severity_of s =
    if s == "completed" then "success" else if s == "rejected" then "warning" else "info"

abbrev pub note_suffix : Option String → String
note_suffix none = ""
note_suffix (some s) = if s == "" then "" else str_append " 备注：" s

abbrev pub request_title : MediaRequest → String
request_title r = str_append "求片《" (str_append r.title "》状态已更新")

abbrev pub update_notice : MediaRequest → Notice
update_notice r = record {
  tg = r.tg;
  category = "request";
  title = request_title r;
  body = str_append "当前状态：" (str_append r.status (str_append "。" (note_suffix r.admin_note)));
  severity = severity_of r.status;
  action_url = some "/requests";
  metadata = some (("request_id", text r.id) ∷ ("status", text r.status) ∷ []);
}

abbrev pub notify_if : Bool → Notice → Delivery → Exec Db (Unit {0})
notify_if true n d = add_notification n d
notify_if false n d = pure tt

unfoldable pub log_update : List RequestChange → Actor → MediaRequest → Exec Db (Option Fields)
unfolding audit event
log_update changes actor row = do
  audit actor "request.update" "media_request" (some row.id) "success"
      (some (map request_field changes))
  request_event "request.updated" row (("status", text row.status) ∷ [])
  pure (some (serialize_media_request row))

-- Another request that holds the download.
abbrev pub held_by_other : MediaRequest → Option MediaRequest → Bool
held_by_other r none = false
held_by_other r (some e) = not (e.id == r.id)

abbrev pub clashes_with : MediaRequest → Option String → Db → Bool
clashes_with r none db = false
clashes_with r (some d) db = held_by_other r (by_download_id d db)

-- The flush of a changed row, which checks that its download is its own.
unfoldable pub save_checked : MediaRequest → Exec Db (Unit {0})
save_checked r db =
    if clashes_with r r.download_id db then raise integrity_error db else save_request r db

unfoldable pub write_update :
    List RequestChange → Actor → DateTime → Delivery → MediaRequest → Exec Db (Option Fields)
unfolding log_update save_checked
write_update changes actor now d r = do
  save_checked (updated_request changes actor now r)
  notify_if (not ((updated_request changes actor now r).status == r.status))
      (update_notice (updated_request changes actor now r)) d
  log_update changes actor (updated_request changes actor now r)

abbrev pub download_conflict : List RequestChange → MediaRequest → Db → Bool
download_conflict changes r db = elim (download_of changes) [
  | none ↦ false
  | some d ↦ not (d == "") && held_by_other r (by_download_id d db)
]

abbrev pub update_checked :
    List RequestChange → Actor → DateTime → Delivery → MediaRequest → Bool → Exec Db (Option Fields)
update_checked changes actor now d r true = raise runtime_error
update_checked changes actor now d r false = write_update changes actor now d r

abbrev pub update_request_found :
    List RequestChange → Actor → DateTime → Delivery → Option MediaRequest → Exec Db (Option Fields)
update_request_found changes actor now d none = pure none
update_request_found changes actor now d (some r) =
    gets (download_conflict changes r) >>= update_checked changes actor now d r

-- `update`
unfoldable pub update_request :
    String → List RequestChange → Actor → DateTime → Delivery → Exec Db (Option Fields)
unfolding write_update
update_request id changes actor now d =
    transaction (gets (get_request id none) >>= update_request_found changes actor now d)

-- The arguments of `import_download`.
pub record Download : Type 0 where
  pub tg : ℤ
  pub download_id : String
  pub title : String
  pub description : Option String
  pub cost_coins : ℤ

abbrev pub imported_request : Download → DateTime → String → String → MediaRequest
imported_request a now id stamp = record {
  id = id;
  request_no = request_no_of "MP" stamp id;
  tg = a.tg;
  title = str_take 255 a.title;
  year = none;
  media_type = "other";
  description = a.description;
  status = "approved";
  priority = "normal";
  source = "telegram";
  external_ref = none;
  download_id = some a.download_id;
  cost_coins = a.cost_coins;
  progress = pos 0;
  admin_note = none;
  reviewed_by = none;
  reviewed_at = none;
  completed_at = none;
  canceled_at = none;
  created_at = now;
  updated_at = now;
}

abbrev pub import_unless :
    Download → Actor → DateTime → String → String → Option MediaRequest → Exec Db Fields
import_unless a actor now id stamp (some existing) = pure (serialize_media_request existing)
import_unless a actor now id stamp none =
    place_request (imported_request a now id stamp) "request.import"
      (("download_id", text a.download_id) ∷ []) actor

-- `import_download`
unfoldable pub import_download : Download → Actor → DateTime → String → String → Exec Db Fields
import_download a actor now id stamp =
    transaction (gets (by_download_id a.download_id) >>= import_unless a actor now id stamp)

-- What the downloader reports. `transfer` is `str(transfer_state).lower()`, if there is a state, and
-- `progress` is after `int(float(progress))`.
pub record Report : Type 0 where
  pub download : Option String
  pub transfer : Option String
  pub progress : Option ℤ

abbrev pub is_transferred : Option String → Bool
is_transferred none = false
is_transferred (some s) = s == "true" || s == "1" || s == "success" || s == "completed"

abbrev pub is_failed : Option String → Bool
is_failed none = false
is_failed (some s) = s == "false" || s == "0" || s == "failed" || s == "error"

abbrev pub with_state : Option String → MediaRequest → MediaRequest
with_state none r = r
with_state (some s) r =
    if s == "downloading"
    then record r { status = "downloading" }
    else if s == "failed"
    then record r { status = "rejected" }
    else if s == "completed"
    then record r { status = "downloading" }
    else r

-- The status that a report gives.
abbrev pub with_report : Report → DateTime → MediaRequest → MediaRequest
with_report p now r =
    if is_transferred p.transfer
    then record r {
      status = "completed";
      progress = pos 100;
      completed_at = or_now r.completed_at now;
    }
    else if is_failed p.transfer
    then record r { status = "rejected" }
    else with_state p.download r

-- `max(0, min(100, n))`
abbrev pub clamp : ℤ → ℤ
clamp n = if ltb_ℤ n (pos 0) then pos 0 else if ltb_ℤ (pos 100) n then pos 100 else n

abbrev pub with_progress : Option ℤ → MediaRequest → MediaRequest
with_progress none r = r
with_progress (some n) r = if r.status == "completed" then r else record r { progress = clamp n }

-- The row after a report, but for its date of change.
abbrev pub synced : Report → DateTime → MediaRequest → MediaRequest
synced p now r = with_progress p.progress (with_report p now r)

abbrev pub same_date : Option DateTime → Option DateTime → Bool
same_date none none = true
same_date (some a) (some b) = leb a b && leb b a
same_date none (some b) = false
same_date (some a) none = false

-- `previous == (row.status, row.progress, row.completed_at)`
abbrev pub is_same : MediaRequest → MediaRequest → Bool
is_same r s =
    r.status == s.status && r.progress == s.progress && same_date r.completed_at s.completed_at

abbrev pub sync_notice : MediaRequest → Notice
sync_notice r = record {
  tg = r.tg;
  category = "request";
  title = request_title r;
  body =
      str_append "当前状态："
        (str_append r.status (str_append "，进度 " (str_append (str_int r.progress) "%。")));
  severity = severity_of r.status;
  action_url = some "/requests";
  metadata =
      some
        (("request_id", text r.id) ∷ ("status", text r.status) ∷ ("progress", num r.progress) ∷ []);
}

unfoldable pub log_sync : MediaRequest → Exec Db (Option Fields)
unfolding event
log_sync row = do
  request_event "request.updated" row
      (("status", text row.status) ∷ ("progress", num row.progress) ∷ [])
  pure (some (serialize_media_request row))

-- The writes of a report that changes the row; `later` is the second clock reading.
unfoldable pub write_sync :
    MediaRequest → MediaRequest → DateTime → Delivery → Exec Db (Option Fields)
unfolding log_sync
write_sync r s later d = do
  save_request (record s { updated_at = later })
  notify_if (not (s.status == r.status)) (sync_notice s) d
  log_sync (record s { updated_at = later })

abbrev pub sync_found :
    Report → DateTime → DateTime → Delivery → Option MediaRequest → Exec Db (Option Fields)
sync_found p now later d none = pure none
sync_found p now later d (some r) =
    if is_same r (synced p now r)
    then pure (some (serialize_media_request (synced p now r)))
    else write_sync r (synced p now r) later d

-- `sync_download`
unfoldable pub sync_download :
    String → Report → DateTime → DateTime → Delivery → Exec Db (Option Fields)
unfolding write_sync
sync_download download_id p now later d =
    transaction (gets (by_download_id download_id) >>= sync_found p now later d)
