-- ===== src/Utils/Daemon.antt =====
-- crates/utils/src/daemon.rs: one process in the background, named by its pid file. The file system,
-- the processes and the clock are the record `Host`; a path is its text.
pub mod Stopped
use mojave.Base.{
  ℕ, zero, suc, ◌*◌, String, Bool, true, false, Option, none, some, ltb, if◌then◌else◌, Result, ok,
  err, map_err,
}
use mojave.Base.Programs.{Program, pure, raise, lift, converting, ◌>>=◌}

abbrev pub process_kill_timeout_sec : ℕ
process_kill_timeout_sec = 5

pub record DaemonOptions : Type 0 where
  pub no_daemon : Bool
  pub pid_file_path : String
  pub log_file_path : String

-- `F` stands for the errors of the crates and of the main task.
pub data DaemonError (F : Type 0) : Type 0 where
  already_running no_such_process : ℕ → DaemonError F
  daemonize io task : F → DaemonError F
  io_with_path : String → F → DaemonError F
  parse_pid : String → DaemonError F

pub record Host : Type 1 where
  pub F : Type 0
  pub World : Type 0
  pub Log : Type 0
  pub is_absolute : String → Bool
  pub home_dir : World → Option String
  pub join : String → String → String
  pub parent : String → Option String
  pub exists : String → World → Bool
  pub create_dir_all : String → Program World F (Unit {0})
  pub read_to_string : String → Program World F String
  pub trim : String → String
  pub pid_from_str : String → Option ℕ
  pub is_running : ℕ → World → Bool
  -- the outcome only matters for the log
  pub remove_file : String → World → World
  pub open_log : String → Program World F Log
  pub try_clone : Log → Program World F Log
  pub current_dir : Program World F String
  -- from here on the process is in the background
  pub start_daemon : String → String → Log → Log → Program World F (Unit {0})
  pub new_runtime : Program World F (Unit {0})
  pub interrupt : ℕ → World → World
  -- whether the signal could be sent, which the code does not look at
  pub kill : ℕ → World → Bool × World
  pub sleep_millis : ℕ → World → World
  -- the seconds since the signal was sent
  pub elapsed : World → ℕ

module _ (host : Host) where
  open host use {
    F, World, Log, is_absolute, home_dir, join, parent, exists, create_dir_all, read_to_string,
    trim, pid_from_str, is_running, remove_file, open_log, try_clone, current_dir, start_daemon,
    new_runtime, interrupt, kill, sleep_millis, elapsed,
  }

  abbrev pub Daemon : Type 0 → Type 0
  Daemon = Program World (DaemonError F)

  in_home : String → Option String → String
  in_home path none = join "." path
  in_home path (some home) = join home path

  make_parent : String → Option String → Daemon String
  make_parent path none world = (ok path, world)
  make_parent path (some dir) world =
      if exists dir world
      then (ok path, world)
      else (do _ ← converting (io_with_path dir) (create_dir_all dir); pure path) world

  unfoldable pub resolve_path : String → Daemon String
  unfolding in_home make_parent
  resolve_path path world =
      if is_absolute path
      then (ok path, world)
      else (let full = in_home path (home_dir world) in make_parent full (parent full) world)

  parsed : String → Option ℕ → Result (DaemonError F) ℕ
  parsed text none = err (parse_pid text)
  parsed text (some pid) = ok pid

  unfoldable pub read_pid_from_file : String → Daemon ℕ
  unfolding parsed
  read_pid_from_file path = do
    content ← converting (io_with_path path) (read_to_string path)
    lift (parsed (trim content) (pid_from_str (trim content)))

  unfoldable pub run_main_task : Program World F (Unit {0}) → Daemon (Unit {0})
  run_main_task proc = do _ ← converting io new_runtime; converting task proc

  -- Only a pid file that can be read counts, and only a pid that runs.
  running_pid : Result (DaemonError F) ℕ × World → Option ℕ × World
  running_pid (ok pid, world) = ((if is_running pid world then some pid else none), world)
  running_pid (err e, world) = (none, world)

  unfoldable pub launch : String → String → Program World F (Unit {0}) → Daemon (Unit {0})
  launch log_path pid_path proc = do
    log_file ← converting (io_with_path log_path) (open_log log_path)
    log_file_err ← converting (io_with_path log_path) (try_clone log_file)
    working_dir ← converting io current_dir
    _ ← converting daemonize (start_daemon pid_path working_dir log_file log_file_err)
    run_main_task proc

  unless_running :
      String
      → String
      → Program World F (Unit {0})
      → Option ℕ × World
      → Result (DaemonError F) (Unit {0}) × World
  unless_running log_path pid_path proc (some pid, world) = (err (already_running pid), world)
  unless_running log_path pid_path proc (none, world) =
      launch log_path pid_path proc (remove_file pid_path world)

  unfoldable pub run_daemonized : DaemonOptions → Program World F (Unit {0}) → Daemon (Unit {0})
  unfolding running_pid unless_running
  run_daemonized opts proc world =
      if opts.no_daemon
      then run_main_task proc world
      else (do
        log_path ← resolve_path opts.log_file_path
        pid_path ← resolve_path opts.pid_file_path
        λ w. unless_running log_path pid_path proc (running_pid (read_pid_from_file pid_path w)))
          world

  -- The loop of `stop_daemonized`: it waits for the process until the time is out.
  unfoldable pub await_end : ℕ → ℕ → World → World
  await_end zero pid world = world
  await_end (suc fuel) pid world =
      let later = await_end fuel pid (sleep_millis 100 world) in
      if ltb (elapsed world) process_kill_timeout_sec
      then (if is_running pid world then later else world)
      else world

  unfoldable pub kill_if_running : ℕ → World → World
  kill_if_running pid world = if is_running pid world then (kill pid world).1 else world

  unfoldable pub stop_daemonized : ℕ → String → Daemon (Unit {0})
  unfolding kill_if_running
  stop_daemonized fuel pid_file = do
    path ← resolve_path pid_file
    pid ← read_pid_from_file path
    λ world.
        if is_running pid world
        then (
          ok tt,
          remove_file path (kill_if_running pid (await_end fuel pid (interrupt pid world))),
        )
        else (err (no_such_process pid), world)
