-- ===== src/Executor/Backoff.antt =====
-- internal/engine/executor.go: durations and the waiting time before a retry.
-- A `time.Duration` is an int64 number of nanoseconds: its bit pattern, a number below 2 ^ 64.
use flow_ctl.Prelude.{
  ℕ, zero, suc, ◌+◌, ◌*◌, ◌%◌, ◌^◌, String, Bool, Option, none, some, ltb, ◌==◌, if◌then◌else◌,
}
use flow_ctl.Model.Value.{ℤ, pos}
use flow_ctl.Model.Workflow.{RetryPolicy}
use flow_ctl.Executor.World.{World}

abbrev pub int64 : ℕ → ℕ
int64 n = n % 2 ^ 64

-- `a < b` on int64.
abbrev pub lt_int64 : ℕ → ℕ → Bool
lt_int64 a b = ltb (int64 (a + 2 ^ 63)) (int64 (b + 2 ^ 63))

abbrev pub second : ℕ
second = 1000000000

abbrev pub five_minutes : ℕ
five_minutes = 300 * second

unfoldable pub parse_duration : World → String → ℕ → ℕ
parse_duration w s fallback =
    if s == "" then fallback else elim (w.parse_duration s) [ none ↦ fallback | some d ↦ d ]

unfoldable pub timeout_seconds : World → String → ℤ
unfolding parse_duration
timeout_seconds w timeout = w.whole_seconds (parse_duration w timeout five_minutes)

unfoldable pub retry_count : Option RetryPolicy → ℤ
retry_count none = pos 0
retry_count (some r) = r.max_attempts

-- `for i := 0; i < attempt; i++ { mult *= 2 }`
unfoldable pub doubled : ℕ → ℕ → ℕ
doubled zero mult = mult
doubled (suc n) mult = doubled n (int64 (mult * 2))

unfoldable pub calculate_backoff : World → ℕ → Option RetryPolicy → ℕ
unfolding parse_duration doubled
calculate_backoff w attempt none = second
calculate_backoff w attempt (some retry) =
    let base = parse_duration w retry.initial_wait second in
    if retry.backoff == "exponential"
    then (let d = int64 (base * doubled attempt 1) in
        let max_wait = parse_duration w retry.max_wait five_minutes in
        if lt_int64 max_wait d then max_wait else d)
    else if retry.backoff == "linear"
    then int64 (base * attempt)
    else base
