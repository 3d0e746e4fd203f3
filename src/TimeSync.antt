-- ===== src/TimeSync.antt =====
-- `TimeSyncService` of app/core/time_sync.py: the offset of the server's clock, read before the
-- market opens. Local times are in microseconds since a local midnight, offsets in microseconds.
pub mod Due
use haru_trade_manager.Common.{
  ℕ,
  ◌+◌,
  ◌*◌,
  ◌/◌,
  ◌%◌,
  Bool,
  true,
  false,
  not,
  ◌&&◌,
  Option,
  none,
  some,
  Act,
  Outcome,
  ok,
  raised,
  pure,
  ◌>>=◌,
  ◌>>◌,
  if◌then◌else◌,
  ◌==◌,
  ltb,
  leb,
  Int.{ℤ, pos, ◌-ℤ◌},
}
use haru_trade_manager.Domain.{Datetime}
use haru_trade_manager.Runtime.{beside}

-- The arguments of the constructor; `min_retry_seconds` is the one that it keeps, at least 1.
pub record SyncConfig : Type 0 where
  pub pre_market_sync_hour : ℕ
  pub pre_market_sync_minute : ℕ
  pub pre_market_window_minutes : ℕ
  pub min_retry_seconds : ℕ

pub record TimeSync : Type 0 where
  pub offset : ℤ
  pub last_synced_date : Option ℕ
  pub last_attempt_at : Option Datetime

-- The server's time, and the local clock, which a call may find moved on.
pub record ServerTime (G : Type 0) : Type 0 where
  pub get_server_time : Act G Datetime
  pub local_now : G → Datetime

-- `now.date()`, as a number of days
abbrev pub date_of : Datetime → ℕ
date_of now = now / 86400000000

-- `now.hour * 60 + now.minute`
abbrev pub minutes_of : Datetime → ℕ
minutes_of now = (now % 86400000000) / 60000000

unfoldable pub in_window : SyncConfig → Datetime → Bool
in_window config now =
    let start = config.pre_market_sync_hour * 60 + config.pre_market_sync_minute in
    leb start (minutes_of now) && ltb (minutes_of now) (start + config.pre_market_window_minutes)

abbrev pub is_synced : Option ℕ → Datetime → Bool
is_synced none now = false
is_synced (some date) now = date == date_of now

-- `elapsed < self.min_retry_seconds`, after an attempt
abbrev pub is_too_soon : SyncConfig → Option Datetime → Datetime → Bool
is_too_soon config none now = false
is_too_soon config (some at) now = ltb now (at + config.min_retry_seconds * 1000000)

module _ {G : Type 0} (config : SyncConfig) (server : ServerTime G) where
  -- The answer is kept, with the time at which it came.
  unfoldable pub keep_answer : Datetime → Act (G × TimeSync) ℤ
  keep_answer server_now (g, s) =
      let local_now = server.local_now g in
      let offset = pos server_now -ℤ pos local_now in
      (
        ok offset,
        (
          g,
          record {
            offset = offset;
            last_synced_date = some (date_of local_now);
            last_attempt_at = some local_now;
          },
        ),
      )

  unfoldable pub sync_offset_seconds : Act (G × TimeSync) ℤ
  unfolding keep_answer
  sync_offset_seconds = beside server.get_server_time >>= keep_answer

  abbrev pub attempt_at : Datetime → Act (G × TimeSync) (Option ℤ)
  attempt_at now (g, s) =
      (do offset ← sync_offset_seconds; pure (some offset))
        (g, record s { last_attempt_at = some now })

  unfoldable pub sync_if_due_pre_market : Act (G × TimeSync) (Option ℤ)
  unfolding sync_offset_seconds
  sync_if_due_pre_market (g, s) =
      let now = server.local_now g in
      if not (in_window config now)
      then (ok none, (g, s))
      else (if is_synced s.last_synced_date now
          then (ok (some s.offset), (g, s))
          else (if is_too_soon config s.last_attempt_at now
              then (ok none, (g, s))
              else attempt_at now (g, s)))
