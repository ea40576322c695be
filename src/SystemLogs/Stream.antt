-- ===== src/SystemLogs/Stream.antt =====
-- client/static/js/system_logs.js: the live stream. `startStream`, `stopStream`, the stream's
-- `onopen` and `onerror`, and the timer that starts it again.
pub mod States
use networkat_cloud_web_app.Prelude.{
  ℕ, ◌+◌, ◌-◌, ◌*◌, ◌^◌, ◌≡◌, Bool, true, false, not, ◌&&◌, Option, none, some, leb, ◌==◌,
  if◌then◌else◌, min,
}

-- What the page shows of the stream; `off_shown` is 'off'.
pub data Shown : Type 0 where
  connecting live_shown paused offline_shown off_shown : Shown

-- What the timer runs: `refresh`, or `startStream` alone.
pub data Retry : Type 0 where
  refresh_later start_later : ℕ → Retry

-- Streams are told apart by numbers: `next_es` is the number of the next one.
pub record Stream : Type 0 where
  pub es : Option ℕ
  pub next_es : ℕ
  pub fails : ℕ
  pub shown : Shown
  pub retry : Option Retry

abbrev pub retry_ms : ℕ
retry_ms = 30000

unfoldable pub stop_stream : Stream → Stream
stop_stream s = record s { es = none }

unfoldable pub stop_stream_as : Shown → Stream → Stream
stop_stream_as state s = record s { es = none; shown = state }

-- `hidden` is `document.hidden`.
unfoldable pub start_stream : Bool → Stream → Stream
unfolding stop_stream
start_stream hidden s =
    let stopped = stop_stream s in
    if hidden then record stopped { shown = paused } else record stopped {
      shown = connecting;
      es = some stopped.next_es;
      next_es = stopped.next_es + 1;
    }

-- `S.es === es`
abbrev pub is_current : ℕ → Stream → Bool
is_current es s = elim s.es [ none ↦ false | some k ↦ k == es ]

unfoldable pub on_open : ℕ → Stream → Stream
on_open es s = if not (is_current es s) then s else record s { fails = 0; shown = live_shown }

-- `Math.min(RETRY_MS, 5000 * 2 ** (fails - 1))`, for a number of failures from 1
unfoldable pub retry_delay : ℕ → ℕ
retry_delay fails = min retry_ms (5000 * 2 ^ (fails - 1))

unfoldable pub retry_after : ℕ → Retry
retry_after fails =
    if leb 2 fails then refresh_later (retry_delay fails) else start_later (retry_delay fails)

-- `closed` is `es.readyState === EventSource.CLOSED`.
unfoldable pub on_error : Bool → ℕ → Stream → Stream
unfolding stop_stream_as
on_error closed es s =
    let stopped = stop_stream_as offline_shown s in
    let failed = record stopped {
      fails = stopped.fails + 1;
      retry = some (retry_after (stopped.fails + 1));
    } in
    if not (is_current es s) then s else if closed then failed else record s { shown = connecting }

-- `refresh` starts with a reload, which drops the timer.
unfoldable pub retry_dropped : Stream → Stream
retry_dropped s = record s { retry = none }

-- The codes of a failed load that matter here.
pub data LoadError : Type 0 where
  offline_error plain_error other_error : LoadError

-- The end of `reload` when the request failed.
unfoldable pub reload_failed : LoadError → Stream → Stream
unfolding stop_stream_as
reload_failed offline_error s = record (stop_stream_as offline_shown s) {
  retry = some (refresh_later retry_ms);
}
reload_failed plain_error s = record (stop_stream_as off_shown s) {
  retry = some (refresh_later retry_ms);
}
reload_failed other_error s = stop_stream_as off_shown s
