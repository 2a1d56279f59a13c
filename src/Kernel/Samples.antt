-- ===== src/Kernel/Samples.antt =====
-- Concrete kernel calls that keep their documented contracts, for the tests: a process whose memory
-- holds at each address the address, copies that succeed or fail, and a copy in ascending order.
use learn_linux_drv.Prelude.{refl, arith, length, slice, overwrite, length-slice, length-overwrite}
use learn_linux_drv.Kernel.{UserCopy, IsUserCopy}
use learn_linux_drv.Kernel.Copy.{Memcpy, IsMemcpy}
use learn_linux_drv.Kernel.Memory.{filled, length-filled}

abbrev pub good_copy : UserCopy
good_copy = record {
  to_user = λ a xs. 0;
  from_user = λ a n. (filled a n, 0);
  user_mem = λ a n. filled a n;
}

pub good_copy-IsUserCopy : IsUserCopy good_copy
good_copy-IsUserCopy = record {
  to_user_le = λ a xs. omega arith;
  from_user_length = λ a n. length-filled a n;
  from_user_ok = λ a n e. refl;
}

-- Nothing can be copied.
abbrev pub bad_copy : UserCopy
bad_copy = record {
  to_user = λ a xs. length xs;
  from_user = λ a n. (filled 0 n, n);
  user_mem = λ a n. filled a n;
}

abbrev pub forward : Memcpy
forward mem dst src n = overwrite mem dst (slice mem src n)

pub forward-IsMemcpy : IsMemcpy forward
forward-IsMemcpy = record {
  length-memcpy = λ mem dst src n fits fits'.
      ground (arith, length-slice mem src n fits', length-overwrite mem dst (slice mem src n));
  apart = λ mem dst src n fits fits' separate. refl;
}
