-- ===== src/Requests/Tests.antt =====
-- Runs of the media requests.
use sakura_embyboss.Prelude.{
  pos, some, none, ◌≡◌, refl, List, [], ◌∷◌, first, replace, str_take, str_strip, str_int,
  str_starts,
}
use sakura_embyboss.Exec.{ok}
use sakura_embyboss.Database.{Db, MediaRequest}
use sakura_embyboss.Operations.{event}
use sakura_embyboss.Tasks.{add_task}
use sakura_embyboss.Notifications.{
  Delivery, add_notification, deliver, put_inbox, put_telegram, safe_action_url,
}
use sakura_embyboss.Requests.{
  NewRequest, Download, imported_request, Report, set_status, sync_download, synced, get_request,
  by_download_id, serialize_media_request, write_sync, log_sync,
}
use sakura_embyboss.Requests.Calls.{RequestCall, creates, cancels, updates, imports, syncs}
use sakura_embyboss.Requests.Sync.{sync_twice}
use sakura_embyboss.Points.Tests.{admin, db as empty}

abbrev delivery : Delivery
delivery = record { now = 2001; notification_id = "n1"; task_id = "t1" }

abbrev later : Delivery
later = record { now = 3001; notification_id = "n2"; task_id = "t2" }

abbrev wish : NewRequest
wish = record {
  tg = pos 7;
  title = " Heat ";
  year = some (pos 1995);
  media_type = "movie";
  description = none;
  external_ref = none;
}

abbrev download : Download
download = record {
  tg = pos 7;
  download_id = "d1";
  title = "Ronin";
  description = none;
  cost_coins = pos 5;
}

abbrev success : Report
success = record { download = none; transfer = some "success"; progress = some (pos 40) }

abbrev running : Report
running = record { download = some "downloading"; transfer = none; progress = some (pos 140) }

abbrev calls : List RequestCall
calls =
    creates wish admin 1000 "ab12cd34" "261126"
    ∷ imports download admin 1000 "cd34ab12" "261126"
    ∷ syncs "d1" success 2000 2001 delivery
    ∷ syncs "d1" running 3000 3001 later
    ∷ updates "ab12cd34" (set_status "completed" ∷ []) admin 4000 later
    ∷ cancels "ab12cd34" (pos 7) admin 5000
    ∷ []

abbrev ronin : MediaRequest
ronin = imported_request download 1000 "cd34ab12" "261126"

abbrev db : Db
db = record empty { requests = ronin ∷ [] }

abbrev arrived : MediaRequest
arrived = record (synced success 2000 ronin) { updated_at = 2001 }

bears : by_download_id "d1" db ≡ some ronin
unfolding first
bears = refl

keyed : get_request "cd34ab12" none db ≡ some ronin
unfolding first
keyed = refl

accepted :
    (sync_download "d1" success 2000 2001 delivery db).0
    ≡ ok (some (serialize_media_request arrived))
unfolding sync_download write_sync log_sync add_notification deliver put_inbox put_telegram add_task
    event first replace str_strip str_take safe_action_url str_starts str_int
accepted = refl

sync_twice_example :
    sync_download "d1" success 3000 3001 later (sync_download "d1" success 2000 2001 delivery db).1
    ≡ (
      ok (some (serialize_media_request arrived)),
      (sync_download "d1" success 2000 2001 delivery db).1,
    )
sync_twice_example =
    sync_twice "d1" success 2000 3000 2001 3001 delivery later db ronin
      (some (serialize_media_request arrived)) bears keyed accepted
