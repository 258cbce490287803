-- ===== src/Prelude/Time.antt =====
-- What the code uses of Go's package time. An instant is its distance from the Unix epoch in
-- nanoseconds, a duration a number of nanoseconds.
use veraxis_memory_admissibi.Prelude.{ℕ, ◌-◌, ◌*◌, ◌/◌, ◌^◌, Bool, if◌then◌else◌}
use veraxis_memory_admissibi.Prelude.Int.{ℤ, pos, negsuc, ◌+ℤ◌, ◌-ℤ◌, ltb_ℤ, eqb_ℤ, to_u64}

abbrev pub Time : Type 0
Time = ℤ

abbrev pub Duration : Type 0
Duration = ℤ

abbrev pub hour : Duration
hour = pos (3600 * 10 ^ 9)

-- `time.Time{}`, the start of the year 1.
abbrev pub zero_time : Time
zero_time = negsuc (62135596800 * 10 ^ 9 - 1)

abbrev pub is_zero : Time → Bool
is_zero t = eqb_ℤ t zero_time

-- `t.Add(d)`
abbrev pub add : Time → Duration → Time
add t d = t +ℤ d

abbrev pub max_duration : Duration
max_duration = pos (2 ^ 63 - 1)

abbrev pub min_duration : Duration
min_duration = negsuc (2 ^ 63 - 1)

-- `t.Sub(u)` saturates at the bounds of int64.
unfoldable pub time_sub : Time → Time → Duration
unfolding ◌-ℤ◌
time_sub t u =
    let d = t -ℤ u in
    if ltb_ℤ max_duration d then max_duration else if ltb_ℤ d min_duration then min_duration else d

-- `t.Unix()` rounds down.
unfoldable pub unix : Time → ℤ
unix (pos n) = pos (n / 10 ^ 9)
unix (negsuc n) = negsuc (n / 10 ^ 9)

-- `uint64(t.UnixNano())`
unfoldable pub unix_nano_u64 : Time → ℕ
unfolding to_u64
unix_nano_u64 t = to_u64 t
