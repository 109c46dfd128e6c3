-- ===== src/Zip/Create/DosTime.antt =====
-- MS-DOS times (zip/struct.go) keep all fields of a time but every second second.
use arkive.Common.{ℕ, ◌+◌, ◌-◌, ◌*◌, ◌/◌, ◌%◌, ◌^◌, ◌≤◌, ◌<◌, ◌≡◌, arith}
use arkive.Common.Words.{u16_mod}
use arkive.Zip.Create.{DateTime, time_to_ms_dos_time, ms_dos_time_to_time}

date_time-eq :
    (s t : DateTime)
    → s.year ≡ t.year
    → s.month ≡ t.month
    → s.day ≡ t.day
    → s.hour ≡ t.hour
    → s.minute ≡ t.minute
    → s.second ≡ t.second
    → s ≡ t
date_time-eq s t a b c d e f = cc

-- The fields of any time that MS-DOS can hold are read back as they were, with an odd second
-- rounded down.
pub ms_dos_time_to_time-time_to_ms_dos_time :
    (t : DateTime)
    → 1980 ≤ t.year
    → t.year < 2108
    → t.month < 16
    → t.day < 32
    → t.hour < 32
    → t.minute < 64
    → t.second < 64
    → let (date, time) = time_to_ms_dos_time t in
      (date < 2 ^ 16)
      × (time < 2 ^ 16)
      × (ms_dos_time_to_time date time ≡ record t { second = t.second / 2 * 2 })
unfolding ms_dos_time_to_time time_to_ms_dos_time
ms_dos_time_to_time-time_to_ms_dos_time t h1 h2 h3 h4 h5 h6 h7 =
    let date : ℕ = (t.day + t.month * 32 + (t.year + (u16_mod - 1980)) * 512) % u16_mod in
    let time : ℕ = (t.second / 2 + t.minute * 32 + t.hour * 2048) % u16_mod in
    let d : date ≡ t.day + t.month * 32 + (t.year - 1980) * 512 = omega arith in
    let s : time ≡ t.second / 2 + t.minute * 32 + t.hour * 2048 = omega arith in
    (
      omega arith,
      omega arith,
      date_time-eq _ _ (omega (arith, d)) (omega (arith, d)) (omega (arith, d)) (omega (arith, s))
          (omega (arith, s)) (omega (arith, s)),
    )

-- Two words are written back from the fields that they are read as.
pub time_to_ms_dos_time-ms_dos_time_to_time :
    (date time : ℕ)
    → date < 2 ^ 16
    → time < 2 ^ 16
    → time_to_ms_dos_time (ms_dos_time_to_time date time) ≡ (date, time)
unfolding ms_dos_time_to_time time_to_ms_dos_time
time_to_ms_dos_time-ms_dos_time_to_time date time h k =
    pair-eq (omega (arith, h)) (omega (arith, k))
  where
    pair-eq : {a b c d : ℕ} → a ≡ c → b ≡ d → ◌≡◌ {A = ℕ × ℕ} (a, b) (c, d)
    pair-eq p q = cc
