-- ===== src/Demo/Clock.antt =====
-- 00.mDemo/05.timer_delay/3.get_cur_time/kDemo.c: the clocks that the ioctl reads and prints. Times are
-- seconds and nanoseconds since 1970. `rtc_time64_to_tm` is the kernel's.
use learn_linux_drv.Prelude.{
  ℕ, ◌+◌, ◌*◌, ◌/◌, ◌%◌, ◌<◌, ◌≤◌, ◌≡◌, List, [], ◌∷◌, arith, refl, sym, ap, ◌∙◌,
}

-- `struct rtc_time`, with the numbers that are printed: the year, and the month from 1 on.
pub record RtcTime : Type 0 where
  pub year : ℕ
  pub month : ℕ
  pub day : ℕ
  pub hour : ℕ
  pub minute : ℕ
  pub second : ℕ

abbrev pub date : RtcTime → ℕ × ℕ × ℕ
date tm = (tm.year, tm.month, tm.day)

-- The documented behaviour: the time of day in UTC, and a date that depends on the day only.
pub record IsRtc (rtc : ℕ → RtcTime) : Type 0 where
  pub hour_of : (t : ℕ) → (rtc t).hour ≡ t / 3600 % 24
  pub minute_of : (t : ℕ) → (rtc t).minute ≡ t / 60 % 60
  pub second_of : (t : ℕ) → (rtc t).second ≡ t % 60
  pub date_of : (t u : ℕ) → t / 86400 ≡ u / 86400 → date (rtc t) ≡ date (rtc u)

-- What the kernel's clocks answer in one call: `ktime_get` and `ktime_get_real` in nanoseconds, and the
-- two calls of `ktime_get_real_ts64`.
pub record Readings : Type 0 where
  pub monotonic : ℕ
  pub real : ℕ
  pub tv_sec : ℕ
  pub tv_nsec : ℕ
  pub tv_sec_again : ℕ

pub data Line : Type 0 where
  monotonic_time real_time : (ns : ℕ) → Line
  current_time : (sec nsec : ℕ) → Line
  formatted_time local_time : RtcTime → Line

abbrev pub timezone_offset_sec : ℕ
timezone_offset_sec = 8 * 3600

-- `m_get_cur_time`.
unfoldable pub m_get_cur_time : (rtc : ℕ → RtcTime) → Readings → List Line
m_get_cur_time rtc r =
    monotonic_time r.monotonic
    ∷ real_time r.real
    ∷ current_time r.tv_sec r.tv_nsec
    ∷ formatted_time (rtc r.tv_sec)
    ∷ local_time (rtc (r.tv_sec_again + timezone_offset_sec))
    ∷ []

hour_later : (t : ℕ) → (t + 28800) / 3600 % 24 ≡ (t / 3600 % 24 + 8) % 24
hour_later t = omega arith

minute_same : (t : ℕ) → (t + 28800) / 60 % 60 ≡ t / 60 % 60
minute_same t = omega arith

second_same : (t : ℕ) → (t + 28800) % 60 ≡ t % 60
second_same t = omega arith

day_same : (t : ℕ) → t / 3600 % 24 < 16 → (t + 28800) / 86400 ≡ t / 86400
day_same t h = omega (arith, h)

day_next : (t : ℕ) → 16 ≤ t / 3600 % 24 → (t + 28800) / 86400 ≡ (t + 86400) / 86400
day_next t h = omega (arith, h)

-- The local time that is printed is that of the zone eight hours east: of the two times that the ioctl
-- prints, read within the same second, the minutes and seconds agree, the hour of the second is eight
-- hours on, and its date is that of the first before 16 o'clock, and that of one day later from then on.
pub prints_local_time :
    (rtc : ℕ → RtcTime) (r : Readings)
    → IsRtc rtc
    → r.tv_sec_again ≡ r.tv_sec
    → (utc : RtcTime) × (local : RtcTime) × (m_get_cur_time rtc r
        ≡ monotonic_time r.monotonic
          ∷ real_time r.real
          ∷ current_time r.tv_sec r.tv_nsec
          ∷ formatted_time utc
          ∷ local_time local
          ∷ [])
      × (local.hour ≡ (utc.hour + 8) % 24)
      × (local.minute ≡ utc.minute)
      × (local.second ≡ utc.second)
      × (utc.hour < 16 → date local ≡ date utc)
      × (16 ≤ utc.hour → date local ≡ date (rtc (r.tv_sec + 86400)))
unfolding m_get_cur_time
prints_local_time rtc r law same =
    let t : ℕ = r.tv_sec in
    (
      rtc t,
      rtc (t + timezone_offset_sec),
      rw same refl,
      law.hour_of (t + 28800) ∙ hour_later t ∙ ap (λ k. (k + 8) % 24) (sym (law.hour_of t)),
      law.minute_of (t + 28800) ∙ minute_same t ∙ sym (law.minute_of t),
      law.second_of (t + 28800) ∙ second_same t ∙ sym (law.second_of t),
      λ h. law.date_of _ _ (day_same t (omega (arith, h, law.hour_of t))),
      λ h. law.date_of _ _ (day_next t (omega (arith, h, law.hour_of t))),
    )
