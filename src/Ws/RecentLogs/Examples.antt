-- ===== src/Ws/RecentLogs/Examples.antt =====
-- The ring of log lines at work.
use aqi.Prelude.{◌≡◌, [], ◌∷◌}
use aqi.Ws.RecentLogs.{none_yet, push_all, get_recent_logs}
use aqi.Ws.RecentLogs.Window.{get_recent_logs-push_all}

get_recent_logs-push_all_example :
    get_recent_logs (push_all ("a" ∷ "b" ∷ "c" ∷ []) none_yet) ≡ "a" ∷ "b" ∷ "c" ∷ []
get_recent_logs-push_all_example = get_recent_logs-push_all ("a" ∷ "b" ∷ "c" ∷ [])
