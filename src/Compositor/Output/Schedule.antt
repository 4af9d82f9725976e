-- ===== src/Compositor/Output/Schedule.antt =====
-- Repaint requests are not lost.
use wlc.Base.{ℕ, ◌≡◌, ◌<◌, ◌⊎◌, Bool, true, false, arith}
use wlc.Compositor.World.{Output}
use wlc.Compositor.Output.{
  schedule_repaint, cancel_repaint, set_sleep, set_mask, Floats, frame_finished,
}

-- A repaint that is marked as scheduled is on its way: the idle timer is armed, or a frame is
-- pending whose end arms it.
abbrev pub IsLive : Output → Type 0
IsLive o = o.scheduled ≡ true → (0 < o.timer) ⊎ (o.pending ≡ true)

pub schedule_repaint-IsLive : (o : Output) → IsLive o → IsLive (schedule_repaint o)
unfolding schedule_repaint
schedule_repaint-IsLive o l = ground arith

pub cancel_repaint-IsLive : (o : Output) → IsLive (cancel_repaint o)
unfolding cancel_repaint
cancel_repaint-IsLive o = ground arith

pub set_sleep-IsLive : (sleep : Bool) (o : Output) → IsLive o → IsLive (set_sleep sleep o)
unfolding set_sleep
set_sleep-IsLive sleep o l = ground arith

pub set_mask-IsLive : (mask : ℕ) (o : Output) → IsLive o → IsLive (set_mask mask o)
unfolding set_mask
set_mask-IsLive mask o l = ground arith

pub frame_finished-IsLive :
    (f : Floats) (sec nsec : ℕ) (o : Output)
    → 0 < f.to_ms (f.interpolate o.ims o.activity)
    → IsLive (frame_finished f sec nsec o)
unfolding frame_finished
frame_finished-IsLive f sec nsec o p = ground arith

-- A request during a pending frame: the end of the frame arms the timer, unless the output is to be
-- terminated.
pub frame_finished_repaints :
    (f : Floats) (sec nsec : ℕ) (o : Output)
    → 0 < f.to_ms (f.interpolate o.ims true)
    → o.task_terminate ≡ false
    → (0 < (frame_finished f sec nsec (schedule_repaint o)).timer)
      × ((frame_finished f sec nsec (schedule_repaint o)).scheduled ≡ true)
unfolding frame_finished schedule_repaint
frame_finished_repaints f sec nsec o p t = ground arith

-- A sleep request to an output that is awake and has a frame pending is not taken back by a wake
-- request: the sleep is still to be done when the frame ends.
set_sleep_lost_wake :
    (o : Output)
    → o.pending ≡ true
    → o.sleeping ≡ false
    → (set_sleep false (set_sleep true o)).task_sleep ≡ true
unfolding set_sleep
set_sleep_lost_wake o p s = ground arith
