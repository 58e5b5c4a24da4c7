-- ===== src/Utils/Tests.antt =====
-- A host whose one process ignores the signal and is killed when its time is out.
use mojave.Base.{
  ℕ, zero, suc, ◌*◌, ◌≤◌, ◌∙◌, arith, ◌+◌, ◌/◌, ◌≡◌, refl, String, Bool, true, false, some, none,
  ok, eqb, eqb_iff, if◌then◌else◌, Bool-cases, inl, inr,
}
use mojave.Utils.Daemon.{Host, stop_daemonized, resolve_path, read_pid_from_file}
use mojave.Utils.Daemon.Stopped.{slept, EndsAt, Killed, Ticks, stop_daemonized-stops}

-- The world is whether the process runs, and the milliseconds since it was signalled.
abbrev toy : Host
toy = record {
  F = ℕ;
  World = Bool × ℕ;
  Log = ℕ;
  is_absolute = λ path. true;
  home_dir = λ w. none;
  join = λ a b. b;
  parent = λ path. none;
  exists = λ path w. true;
  create_dir_all = λ path w. (ok tt, w);
  read_to_string = λ path w. (ok "41", w);
  trim = λ s. s;
  pid_from_str = λ s. some 41;
  is_running = λ pid w. w.0;
  remove_file = λ path w. w;
  open_log = λ path w. (ok 0, w);
  try_clone = λ log w. (ok log, w);
  current_dir = λ w. (ok "/", w);
  start_daemon = λ pid dir out errors w. (ok tt, w);
  new_runtime = λ w. (ok tt, w);
  interrupt = λ pid w. (w.0, 0);
  kill = λ pid w. (true, (false, w.1));
  sleep_millis = λ n w. (w.0, w.1 + n);
  elapsed = λ w. w.1 / 1000;
}

slept-toy : (n : ℕ) (b : Bool) (t : ℕ) → (slept toy n (b, t)).1 ≡ t + n * 100
unfolding slept
slept-toy zero b t = omega arith
slept-toy (suc n) b t = slept-toy n b (t + 100) ∙ omega arith

ticks : Ticks toy
ticks n pid w = let e = slept-toy n w.0 0 in rw e (omega arith)

stop_daemonized-stops_example :
    (n : ℕ) × (n ≤ 50)
    × EndsAt toy 41 n (true, 0)
    × ((w' : Bool × ℕ) × Killed toy 41 (slept toy n (true, 0)) w'
        × (stop_daemonized toy 60 "node.pid" (true, 0) ≡ (ok tt, w')))
unfolding resolve_path read_pid_from_file mojave.Base.Programs.◌>>=◌ mojave.Base.Programs.converting
    mojave.Base.Programs.lift
stop_daemonized-stops_example =
    stop_daemonized-stops toy ticks 60 41 "node.pid" "node.pid" (true, 0) (true, 0) (true, 0)
      (omega arith) refl refl refl
