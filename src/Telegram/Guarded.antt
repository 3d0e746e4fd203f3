-- ===== src/Telegram/Guarded.antt =====
-- Which settings the commands reach.
use text.Mathlib.Text.{◌==◌ as str_eq}
use text.Mathlib.TextEquality.{eq_iff}
use haru_trade_manager.Common.{
  ◌≡◌, refl, ap, ◌∙◌, ◌⊎◌, inl, inr, String, Bool, true, false, not, ◌||◌, Option, none, some, List,
  [], ◌∷◌, Act, Outcome, ok, raised, Failure, ErrorKind, sql_error, key_error, value_error,
  other_error, pure, ◌>>◌, Bool-cases, arith, All, member, strip, truthy, starts_with, split_words,
  fstring,
}
use haru_trade_manager.Runtime.{PendingConfigChange, RuntimeState, pause_entry, pause_all, resume}
use haru_trade_manager.Telegram.{
  accepted, ConfigWriter, CommandResult, Providers, confirm_required_keys, telegram_blocked_keys,
  answer_refusal, change_pending, write, write_then, set_key, set_parts, handle_set, confirm,
  confirm_pending, handle_other, handle_text, handle, handle_each,
}

-- A key that the commands may write, at once or after `/confirm`.
abbrev pub is_open : String → Bool
is_open key = not (member key telegram_blocked_keys || starts_with "strategy." key)

abbrev pub IsOpenChange : Option PendingConfigChange → Type 0
IsOpenChange none = Unit
IsOpenChange (some change) = is_open change.key ≡ true

abbrev pub is_confirm : String → Bool
is_confirm command = str_eq (strip command) "/confirm"

-- The settings as a dict: a write to one key leaves the others.
pub record IsKeyed (C : Type 0) (config : ConfigWriter C) (value_of : String → C → Option String)
    : Type 0 where
  pub set-apart :
      (key other value changed_by : String) (c : C)
      → str_eq key other ≡ false
      → value_of other (config.set key value changed_by c).1 ≡ value_of other c

apart_by :
    (test : String → Bool) (written key : String)
    → test written ≡ true
    → test key ≡ false
    → str_eq written key ≡ false
apart_by test written key yes_written no_key = elim (Bool-cases (str_eq written key)) [
  | inl same ↦ absurd (clash ((eq_iff written key).0 same))
  | inr apart ↦ apart
]
  where
    clash : written ≡ key → ⊥
    clash e = cc (no_key, yes_written, ap test e)

module _ {C : Type 0} (config : ConfigWriter C) (p : Providers)
    (Q : C × RuntimeState → Type 0) where
  -- A property of the state that survives a write survives what follows it.
  write_then-keeps :
      (change : PendingConfigChange) (next : Act (C × RuntimeState) CommandResult)
      (w : C × RuntimeState)
      → Q (write config p change w).1
      → ((w' : C × RuntimeState) → Q w' → Q (next w').1)
      → Q (write_then config p change next w).1
  write_then-keeps change next w q k = go (write config p change w) q
    where
      on_refusal :
          (kind : ErrorKind) (e : Failure) (w' : C × RuntimeState)
          → Q w'
          → Q (answer_refusal config p kind e w').1
      on_refusal sql_error e w' q' = q'
      on_refusal key_error e w' q' = q'
      on_refusal value_error e w' q' = q'
      on_refusal other_error e w' q' = q'

      go :
          (r : Outcome (Unit {0}) × (C × RuntimeState))
          → Q r.1
          → Q
              (elim r.0 as (λ _. Outcome CommandResult × (C × RuntimeState)) [
                | ok _ ↦ next r.1
                | raised exc ↦ answer_refusal config p exc.kind exc r.1
              ]).1
      go (ok _, w') q' = k w' q'
      go (raised e, w') q' = on_refusal e.kind e w' q'

module _ {C : Type 0} (config : ConfigWriter C) (p : Providers)
    (value_of : String → C → Option String) (law : IsKeyed C config value_of) (key : String)
    (v : Option String) where
  -- The pending change is one that the commands may make, and the setting has its value.
  abbrev Guards : C × RuntimeState → Type 0
  Guards w = IsOpenChange w.1.pending_change × (value_of key w.0 ≡ v)

  -- What the text of a command cannot change.
  abbrev IsLocked : String → Type 0
  IsLocked text =
      (is_open key ≡ false)
      ⊎ ((member key confirm_required_keys ≡ true) × (str_eq text "/confirm" ≡ false))

  write-Guards :
      (change : PendingConfigChange) (w : C × RuntimeState)
      → str_eq change.key key ≡ false
      → Guards w
      → Guards (write config p change w).1
  write-Guards change (c, s) apart (open_change, same) =
      (open_change, law.set-apart change.key key change.value change.changed_by c apart ∙ same)

  set_key-Guards :
      (text written value : String) (w : C × RuntimeState)
      → IsLocked text
      → Guards w
      → Guards (set_key config p written value w).1
  unfolding set_key
  set_key-Guards text written value w locked h =
      elim (Bool-cases (member written telegram_blocked_keys || starts_with "strategy." written)) [
        | inl blocked ↦ rw blocked h
        | inr may_write ↦ rw may_write (elim (Bool-cases (member written confirm_required_keys)) [
          | inl waits ↦ rw waits (rw may_write refl, h.1)
          | inr at_once ↦ rw at_once (
              write_then-keeps config p Guards
                (record { key = written; value = value; changed_by = "telegram" })
                (pure (accepted (fstring ("설정을 변경했습니다: " ∷ written ∷ "=" ∷ value ∷ [])))) w
                (write-Guards (record { key = written; value = value; changed_by = "telegram" }) w
                  (apart_at_once may_write at_once locked) h)
                (λ w' h'. h'))
        ])
      ]
    where
      apart_at_once :
          member written telegram_blocked_keys || starts_with "strategy." written ≡ false
          → member written confirm_required_keys ≡ false
          → IsLocked text
          → str_eq written key ≡ false
      apart_at_once may_write at_once (inl shut) =
          apart_by is_open written key (rw may_write refl) shut
      apart_at_once may_write at_once (inr (needs, _)) =
          apart_by (λ k. not (member k confirm_required_keys)) written key (rw at_once refl)
            (rw needs refl)

  set_parts-Guards :
      (text : String) (parts : List String) (w : C × RuntimeState)
      → IsLocked text
      → Guards w
      → Guards (set_parts config p parts w).1
  unfolding set_parts
  set_parts-Guards text [] w locked h = h
  set_parts-Guards text (a ∷ []) w locked h = h
  set_parts-Guards text (a ∷ b ∷ []) w locked h = h
  set_parts-Guards text (a ∷ b ∷ c ∷ []) w locked h = set_key-Guards text b c w locked h
  set_parts-Guards text (a ∷ b ∷ c ∷ e ∷ more) w locked h = h

  confirm-Guards :
      (pending : Option PendingConfigChange) (w : C × RuntimeState)
      → is_open key ≡ false
      → IsOpenChange pending
      → Guards w
      → Guards (confirm config p pending w).1
  confirm-Guards none w shut open_change h = h
  confirm-Guards (some change) w shut open_change h =
      write_then-keeps config p Guards change
        (change_pending config p none >> pure (accepted "대기 중이던 설정 변경을 적용했습니다.")) w
        (write-Guards change w (apart_by is_open change.key key open_change shut) h)
        (λ w' h'. (tt, h'.1))

  handle_other-Guards :
      (text : String) (w : C × RuntimeState) → Guards w → Guards (handle_other config p text w).1
  unfolding handle_other pause_entry pause_all resume
  handle_other-Guards text w h = ground arith

  handle-Guards :
      (command : String) (w : C × RuntimeState)
      → IsLocked (strip command)
      → Guards w
      → Guards (handle config p command w).1
  unfolding handle handle_text handle_set confirm_pending
  handle-Guards command w locked h = elim (Bool-cases (truthy (strip command))) [
    | inr empty ↦ rw empty h
    | inl full ↦ rw full (elim (Bool-cases (str_eq (strip command) "/confirm")) [
      | inl confirms ↦ rw confirms (elim locked [
        | inl shut ↦ confirm-Guards w.1.pending_change w shut h.0 h
        | inr (_, not_confirm) ↦ cc (confirms, not_confirm)
      ])
      | inr other ↦ rw other (elim (Bool-cases (starts_with "/set " (strip command))) [
        | inl sets ↦
            rw sets (set_parts-Guards (strip command) (split_words 2 (strip command)) w locked h)
        | inr no_set ↦ rw no_set (handle_other-Guards (strip command) w h)
      ])
    ])
  ]

  handle_each-Guards :
      (commands : List String) (w : C × RuntimeState)
      → All (λ command. IsLocked (strip command)) commands
      → Guards w
      → Guards (handle_each config p commands w)
  unfolding handle_each
  handle_each-Guards [] w _ h = h
  handle_each-Guards (command ∷ commands) w (locked, rest) h =
      handle_each-Guards commands (handle config p command w).1 rest
        (handle-Guards command w locked h)

-- Where the settings are a dict: however many commands come, a setting that is blocked for Telegram
-- or that a strategy overrides keeps its value, and so does one that needs a confirmation, as long
-- as no command is `/confirm`.
pub handle_each-locked :
    {C : Type 0} (config : ConfigWriter C) (p : Providers) (value_of : String → C → Option String)
    → IsKeyed C config value_of
    → (key : String) (commands : List String) (w : C × RuntimeState)
    → (is_open key ≡ false)
      ⊎ (member key confirm_required_keys ≡ true) × All (λ c. is_confirm c ≡ false) commands
    → IsOpenChange w.1.pending_change
    → value_of key (handle_each config p commands w).0 ≡ value_of key w.0
handle_each-locked config p value_of law key commands w why open_change =
    (handle_each-Guards config p value_of law key (value_of key w.0) commands w
      (locked commands why) (open_change, refl)).1
  where
    locked :
        (cs : List String)
        → (is_open key ≡ false)
          ⊎ (member key confirm_required_keys ≡ true) × All (λ c. is_confirm c ≡ false) cs
        → All (λ c. IsLocked config p value_of law key (value_of key w.0) (strip c)) cs
    locked [] _ = tt
    locked (c ∷ cs) (inl shut) = (inl shut, locked cs (inl shut))
    locked (c ∷ cs) (inr (needs, (first, others))) =
        (inr (needs, first), locked cs (inr (needs, others)))
