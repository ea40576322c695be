-- ===== src/Peers.antt =====
-- client/static/js/peers.js, `formatOfflineDuration`, `getPeerStatusTitle` and `isOfflineOver7Days`:
-- how long a peer has been away. Times are milliseconds; `now` is the time of the call.
pub mod Offline
use networkat_cloud_web_app.Prelude.{
  ℕ, ◌-◌, ◌*◌, ◌/◌, Bool, true, false, [], ◌++◌, is_nil, ltb, leb, if◌then◌else◌,
}
use networkat_cloud_web_app.Prelude.Text.{Text, codes}
use networkat_cloud_web_app.Prelude.Decimal.{show}

-- `last_seen`: missing, not a date, or a date.
pub data LastSeen : Type 0 where
  missing not_a_date : LastSeen
  at : ℕ → LastSeen

pub record Peer : Type 0 where
  pub is_online : Bool
  pub last_seen : LastSeen

-- A date in the future counts as now.
unfoldable pub format_offline_duration : ℕ → LastSeen → Text
format_offline_duration now missing = []
format_offline_duration now not_a_date = []
format_offline_duration now (at dt) =
    let secs = (now - dt) / 1000 in
    if ltb secs 60
    then codes "1m"
    else if ltb secs 3600
    then show (secs / 60) ++ codes "m"
    else if ltb secs 86400
    then show (secs / 3600) ++ codes "h"
    else show (secs / 86400) ++ codes "d"

unfoldable pub get_peer_status_title : ℕ → Peer → Text
get_peer_status_title now peer =
    let dur = format_offline_duration now peer.last_seen in
    if peer.is_online
    then codes "Connected"
    else if is_nil dur
    then codes "Offline"
    else codes "Offline for " ++ dur

unfoldable pub is_offline_over_7_days : ℕ → LastSeen → Bool → Bool
is_offline_over_7_days now missing is_online = false
is_offline_over_7_days now not_a_date is_online = false
is_offline_over_7_days now (at dt) is_online =
    if is_online then false else leb (7 * 86400 * 1000) (now - dt)
