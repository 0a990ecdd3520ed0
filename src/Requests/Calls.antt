-- ===== src/Requests/Calls.antt =====
-- The calls of `MediaRequestService`, in any order, and the completed requests after them.
use sakura_embyboss.Prelude.{ℤ, String, List, [], ◌∷◌, eq_int, eq_string}
use sakura_embyboss.Exec.{Exec}
use sakura_embyboss.Database.{Db, DateTime, Actor}
use sakura_embyboss.Notifications.{Delivery}
use sakura_embyboss.Requests.{
  NewRequest, create_request, cancel_request, RequestChange, update_request, Download,
  import_download, Report, sync_download,
}

-- A call of the service.
pub data RequestCall : Type 0 where
  creates : NewRequest → Actor → DateTime → String → String → RequestCall
  cancels : String → ℤ → Actor → DateTime → RequestCall
  updates : String → List RequestChange → Actor → DateTime → Delivery → RequestCall
  imports : Download → Actor → DateTime → String → String → RequestCall
  syncs : String → Report → DateTime → DateTime → Delivery → RequestCall

abbrev pub run_request : RequestCall → Db → Db
run_request (creates a actor now id stamp) db = (create_request a actor now id stamp db).1
run_request (cancels id tg actor now) db = (cancel_request id tg actor now db).1
run_request (updates id changes actor now d) db = (update_request id changes actor now d db).1
run_request (imports a actor now id stamp) db = (import_download a actor now id stamp db).1
run_request (syncs id p now later d) db = (sync_download id p now later d db).1

abbrev pub run_requests : List RequestCall → Db → Db
run_requests [] db = db
run_requests (c ∷ cs) db = run_requests cs (run_request c db)
