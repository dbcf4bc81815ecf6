-- ===== src/Timers.antt =====
-- src/auth/stores/memory-store.ts, `scheduleExpiry`, and the part of Node's timers that it uses:
-- `setTimeout` answers with a fresh handle, `clearTimeout` drops a pending timer by its handle, and
-- a timer may run at any moment from the one at which it is due.
use luoluo_auth.Common.{
  ℕ, suc, ◌+◌, ◌-◌, not, ◌&&◌, Option, none, some, List, [], ◌∷◌, ltb, leb, nat_eq, if◌then◌else◌,
  keep,
}

-- 2^31 - 1 milliseconds, the longest delay that `setTimeout` takes.
abbrev pub max_timeout_ms : ℕ
max_timeout_ms = 2147483647

-- The delay that `scheduleExpiry` asks for: what remains, cut at both ends.
abbrev pub delay_until : ℕ → ℕ → ℕ
delay_until now expire_at =
    if ltb max_timeout_ms (expire_at - now) then max_timeout_ms else expire_at - now

-- `callback` is what the caller passed, as data; `expire_at` is captured by the timer's closure.
pub record Timer (C : Type 0) : Type 0 where
  pub handle : ℕ
  pub due : ℕ
  pub expire_at : ℕ
  pub callback : C

pub record Timers (C : Type 0) : Type 0 where
  pub next_handle : ℕ
  pub pending : List (Timer C)

module _ {C : Type 0} where
  abbrev pub no_timers : Timers C
  no_timers = record { next_handle = 0; pending = [] }

  -- `setTimeout` with a delay: the timers with the new one, and its handle.
  unfoldable pub set_timeout : Timers C → ℕ → C → ℕ → Timers C × ℕ
  set_timeout ts now callback delay = (
    record {
      next_handle = suc ts.next_handle;
      pending =
          record {
            handle = ts.next_handle;
            due = now + delay;
            expire_at = now + delay;
            callback = callback;
          }
          ∷ ts.pending;
    },
    ts.next_handle,
  )

  -- The timers with the new one, and its handle.
  unfoldable pub schedule_expiry : Timers C → ℕ → C → ℕ → Timers C × ℕ
  schedule_expiry ts now callback expire_at = (
    record {
      next_handle = suc ts.next_handle;
      pending =
          record {
            handle = ts.next_handle;
            due = now + delay_until now expire_at;
            expire_at = expire_at;
            callback = callback;
          }
          ∷ ts.pending;
    },
    ts.next_handle,
  )

  unfoldable pub clear_timeout : Timers C → ℕ → Timers C
  clear_timeout ts handle = record ts {
    pending = keep (λ t. not (nat_eq t.handle handle)) ts.pending;
  }

  unfoldable pub find_due : ℕ → ℕ → List (Timer C) → Option (Timer C)
  find_due now handle [] = none
  find_due now handle (t ∷ ts) =
      if nat_eq t.handle handle && leb t.due now then some t else find_due now handle ts
