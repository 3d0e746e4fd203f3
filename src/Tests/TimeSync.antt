-- ===== src/Tests/TimeSync.antt =====
-- A sync at 7:52, the first of the day.
use haru_trade_manager.Common.{◌≡◌, refl, none, some, ok, ◌+◌, Int.{pos, ◌-ℤ◌}}
use haru_trade_manager.Domain.{Datetime}
use haru_trade_manager.TimeSync.{
  SyncConfig, TimeSync, ServerTime, in_window, sync_if_due_pre_market,
}

abbrev default_sync : SyncConfig
default_sync = record {
  pre_market_sync_hour = 7;
  pre_market_sync_minute = 50;
  pre_market_window_minutes = 10;
  min_retry_seconds = 30;
}

abbrev never : TimeSync
never = record { offset = pos 0; last_synced_date = none; last_attempt_at = none }

-- The world is the local time, and the server is two seconds ahead.
abbrev ahead : ServerTime Datetime
ahead = record { get_server_time = λ t. (ok (t + 2000000), t); local_now = λ t. t }

synced :
    (sync_if_due_pre_market default_sync ahead (28320000000, never)).0 ≡ ok (some (pos 2000000))
unfolding sync_if_due_pre_market in_window ◌-ℤ◌
synced = refl
