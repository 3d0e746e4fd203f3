-- ===== src/Tests/Telegram.antt =====
-- Commands over the settings of the manager.
use haru_trade_manager.Common.{
  ◌≡◌, refl, inr, String, false, none, some, List, [], ◌∷◌, ok, Dict, lookup, insert,
  lookup-insert_ne, strip, starts_with, split_words,
}
use haru_trade_manager.Runtime.{RuntimeState}
use haru_trade_manager.Telegram.{
  ConfigWriter, Providers, handle_each, handle, handle_text, handle_set, set_key, confirm_pending,
}
use haru_trade_manager.Telegram.Guarded.{IsKeyed, handle_each-locked}

-- Every value is accepted.
abbrev plain : ConfigWriter (Dict String)
plain = record {
  get_all = λ values. values;
  set = λ key value by values. (ok tt, insert key value values);
}

plain-IsKeyed : IsKeyed (Dict String) plain lookup
plain-IsKeyed = record {
  set-apart = λ key other value by values apart. lookup-insert_ne key other value values apart;
}

abbrev silent : Providers
silent = record {
  report = none;
  paper_report = none;
  backtest_status = none;
  runtime_status = none;
  str_of = λ e. e.text;
  sorted = λ rows. rows;
}

abbrev running : RuntimeState
running = record {
  entry_paused = false;
  all_paused = false;
  halted = false;
  halt_reason = none;
  halted_at = none;
  pending_change = none;
}

abbrev values : Dict String
values = ("atr_period", "14") ∷ ("stop_count", "5") ∷ []

abbrev commands : List String
commands = "/set stop_count 9" ∷ "/pause" ∷ "/set atr_period 20" ∷ "/set log_level DEBUG" ∷ []

handle_each-locked_example :
    lookup "stop_count" (handle_each plain silent commands (values, running)).0
    ≡ lookup "stop_count" values
unfolding strip
handle_each-locked_example =
    handle_each-locked plain silent lookup plain-IsKeyed "stop_count" commands (values, running)
      (inr (refl, (refl, (refl, (refl, (refl, tt)))))) tt

-- The confirmation writes what waits.
confirmed :
    lookup "stop_count"
      (handle_each plain silent ("/set  stop_count 9" ∷ " /confirm" ∷ []) (values, running)).0
    ≡ some "9"
unfolding handle_each handle handle_text strip starts_with split_words handle_set set_key
    confirm_pending lookup insert
confirmed = refl
