-- ===== src/Demo/TimeTests.antt =====
-- The demos on clocks and delays: a kernel that keeps its contracts, and both ioctls on it.
use learn_linux_drv.Prelude.{ℕ, ◌*◌, ◌/◌, ◌%◌, ◌≡◌, refl, ap, true, arith, [], ◌∷◌}
use learn_linux_drv.Demo.Clock.{
  RtcTime, IsRtc, monotonic_time, real_time, current_time, formatted_time, local_time,
  m_get_cur_time,
}
use learn_linux_drv.Demo.Delay.{Delays, IsDelays, first_delays, m_chrdev_ioctl}

-- The right time of day, and the days since 1970 for a date.
abbrev day_counter : ℕ → RtcTime
day_counter t = record {
  year = 1970;
  month = 1;
  day = t / 86400;
  hour = t / 3600 % 24;
  minute = t / 60 % 60;
  second = t % 60;
}

day_counter-IsRtc : IsRtc day_counter
day_counter-IsRtc = record {
  hour_of = λ t. refl;
  minute_of = λ t. refl;
  second_of = λ t. refl;
  date_of = λ t u e. ap (λ (d : ℕ). (1970, 1, d)) e;
}

-- At 17:00:30 in UTC it is 1:00:30 of the next day.
evening :
    m_get_cur_time day_counter
      (record { monotonic = 5; real = 6; tv_sec = 61230; tv_nsec = 7; tv_sec_again = 61230 })
    ≡ monotonic_time 5
      ∷ real_time 6
      ∷ current_time 61230 7
      ∷ formatted_time
          (record { year = 1970; month = 1; day = 0; hour = 17; minute = 0; second = 30 })
      ∷ local_time (record { year = 1970; month = 1; day = 1; hour = 1; minute = 0; second = 30 })
      ∷ []
unfolding m_get_cur_time
evening = refl

-- Delays that last just as long as they are asked to.
abbrev exact : Delays
exact = record {
  udelay = λ us. us * 1000;
  ndelay = λ ns. ns;
  mdelay = λ ms. ms * 1000000;
  usleep_range = λ min max. min * 1000;
  msleep = λ ms. ms * 1000000;
  schedule_timeout = λ ms. ms * 1000000;
  schedule_hrtimeout = λ ns. ns;
}

exact-IsDelays : IsDelays exact
exact-IsDelays = record {
  udelay_ge = λ us. omega arith;
  ndelay_ge = λ ns. omega arith;
  mdelay_ge = λ ms. omega arith;
  usleep_range_ge = λ min max. omega arith;
  msleep_ge = λ ms. omega arith;
  schedule_timeout_ge = λ ms. omega arith;
  schedule_hrtimeout_ge = λ ns. omega arith;
}

-- The last delay is not in the time that the ioctl takes.
delays_last : (m_chrdev_ioctl exact (record { now = 0; is_running = true })).now ≡ 552110500
unfolding m_chrdev_ioctl first_delays
delays_last = refl
