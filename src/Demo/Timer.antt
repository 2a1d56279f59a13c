-- ===== src/Demo/Timer.antt =====
-- 00.mDemo/05.timer_delay/1.timer/kDemo.c: a timer whose callback starts it again, and the module's
-- exit, which deletes it with `del_timer`.
use learn_linux_drv.Prelude.{◌≡◌, ◌⊎◌, inl, inr, refl, Bool, true, false, arith}
use learn_linux_drv.Prelude.Steps.{Reach, here, later, Reach-keeps}

-- Where the callback stands.
pub data Callback : Type 0 where
  -- it does not run
  idle : Callback
  -- before `mod_timer`
  running : Callback

-- How far the module is: its init before `add_timer`, and before `mod_timer`, loaded, behind
-- `del_timer`, and with its code gone.
pub data Phase : Type 0 where
  starting added loaded deleted gone : Phase

pub record System : Type 0 where
  pub pending : Bool
  pub callback : Callback
  pub phase : Phase

-- `m_chr_init` before the timer: it is not pending.
abbrev pub unset : System
unset = record { pending = false; callback = idle; phase = starting }

pub data Step (s : System) : System → Type 0 where
  -- `add_timer` and `mod_timer` at the end of `m_chr_init`
  adds : s.phase ≡ starting → Step s (record s { pending = true; phase = added })
  starts : s.phase ≡ added → Step s (record s { pending = true; phase = loaded })
  -- the kernel takes the timer off its list and calls the callback
  fires :
      s.pending ≡ true
      → s.callback ≡ idle
      → Step s (record s { pending = false; callback = running })
  -- `mod_timer` at the end of the callback
  rearms : s.callback ≡ running → Step s (record s { pending = true; callback = idle })
  -- `del_timer` does not wait for a callback
  deletes : s.phase ≡ loaded → Step s (record s { pending = false; phase = deleted })
  -- the rest of `m_chr_exit`
  unloads : s.phase ≡ deleted → Step s (record s { phase = gone })

-- While the module is loaded, the timer is pending or its callback runs.
record Beats (s : System) : Type 0 where
  ticking : s.phase ≡ loaded → (s.pending ≡ true) ⊎ (s.callback ≡ running)

Step-Beats : {s t : System} → Step s t → Beats s → Beats t
Step-Beats (adds e) z = record { ticking = λ h. cc }
Step-Beats (starts e) z = record { ticking = λ h. inl refl }
Step-Beats (fires e h) z = record { ticking = λ h. inr refl }
Step-Beats (rearms e) z = record { ticking = λ h. inl refl }
Step-Beats (deletes e) z = record { ticking = λ h. cc }
Step-Beats (unloads e) z = record { ticking = λ h. cc }

-- The periodic timer never dies out: in every state of the loaded module that is reached from its
-- init, the timer is pending, or its callback runs and will start it again.
pub timer_ticks :
    {s : System}
    → Reach Step unset s
    → s.phase ≡ loaded
    → (s.pending ≡ true) ⊎ (s.callback ≡ running)
timer_ticks r l =
    (Reach-keeps Step {P = Beats} (λ t u. Step-Beats) r (record { ticking = λ h. cc })).ticking l

-- Deleted while no callback runs.
record Quiet (s : System) : Type 0 where
  off : s.pending ≡ false
  still : s.callback ≡ idle
  past : (s.phase ≡ deleted) ⊎ (s.phase ≡ gone)

Step-Quiet : {s t : System} → Step s t → Quiet s → Quiet t
Step-Quiet (adds e) z = ground (arith, z.past)
Step-Quiet (starts e) z = ground (arith, z.past)
Step-Quiet (fires e h) z = ground (arith, z.off)
Step-Quiet (rearms e) z = ground (arith, z.still)
Step-Quiet (deletes e) z = record { off = refl; still = z.still; past = inl refl }
Step-Quiet (unloads e) z = record { off = z.off; still = z.still; past = inr refl }

-- If no callback runs when `m_chr_exit` deletes the timer, it is never pending again and its callback
-- never runs again.
pub quiet_delete :
    (s : System) {t : System}
    → s.phase ≡ loaded
    → s.callback ≡ idle
    → Reach Step (record s { pending = false; phase = deleted }) t
    → (t.pending ≡ false) × (t.callback ≡ idle)
quiet_delete s l c r =
    let z =
      Reach-keeps Step {P = Quiet} (λ t u. Step-Quiet) r
        (record { off = refl; still = c; past = inl refl }) in
    (z.off, z.still)

-- If the callback runs when `m_chr_exit` deletes the timer, there is a run after which the module's
-- code is gone and the timer is pending, so that the kernel calls into it.
pub timer_outlives_module :
    (s : System)
    → s.phase ≡ loaded
    → s.callback ≡ running
    → (t : System) × Reach Step s t × (t.phase ≡ gone) × (t.pending ≡ true)
timer_outlives_module s l c =
    (_, later (later (later here (deletes l)) (rearms c)) (unloads refl), refl, refl)
