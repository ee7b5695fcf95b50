-- ===== src/Boot/Guard.antt =====
-- bootGuard of cmd/cereblixd/selfheal.go. The markers and the binaries beside the executable are the
-- fields of `Files`: a text file is its content, a counter its number (the node writes only numbers
-- there), and `.envhalt` and `.noupdate` whether they exist. The code ignores the errors of writing
-- and removing a marker; `Permits` says which succeed, and one that fails leaves the file as it was.
use cereblix.Prelude.{
  ℕ, ◌+◌, Bool, true, false, not, ◌&&◌, ◌||◌, Option, [], none, some, if◌then◌else◌,
}
use cereblix.Prelude.Bytes.{Bytes, bytes_eq}
use cereblix.Prelude.Text.{trim_space}
use cereblix.Boot.{
  BootDecision, boot_normal, boot_watch, boot_confirm_rollback, boot_rollback, boot_give_up,
  boot_env_problem, boot_env_fault_confirmed, BootState, decide_boot,
}

pub record Files : Type 0 where
  pub exe : Option Bytes
  pub old : Option Bytes
  pub bad : Option Bytes
  pub pending : Option Bytes
  pub bootn : Option ℕ
  pub suspect : Option Bytes
  pub confirmn : Option ℕ
  pub badversion : Option Bytes
  pub envhalt : Bool
  pub noupdate : Bool

-- a Boolean for each file that the guard writes or removes
pub record PerFile : Type 0 where
  pub pending : Bool
  pub bootn : Bool
  pub suspect : Bool
  pub confirmn : Bool
  pub badversion : Bool
  pub envhalt : Bool
  pub old : Bool
  pub bad : Bool

pub record Permits : Type 0 where
  pub writes : PerFile
  pub removes : PerFile

-- what a boot meets: the outcome of selfDiagnose, and what the system allows
pub record Preflight : Type 0 where
  pub env_ok : Bool
  pub aside_ok : Bool
  pub restore_ok : Bool
  pub undo_ok : Bool
  pub permits : Permits

-- os.WriteFile and os.Remove
abbrev pub written {ℓ} : {A : Type ℓ} → Bool → A → Option A → Option A
written allowed text kept = if allowed then some text else kept

abbrev pub removed {ℓ} : {A : Type ℓ} → Bool → Option A → Option A
removed allowed kept = if allowed then none else kept

-- what the guard leaves to do: the wait for the node to be healthy, or a restart
pub data Job : Type 0 where
  no_job : Job
  watch_pending : Job
  judge_suspect : Bytes → Job
  lift_halt : Job
  restart : Job

-- exists
abbrev pub exists {ℓ} : {A : Type ℓ} → Option A → Bool
exists none = false
exists (some _) = true

-- readTrim
abbrev pub read_trim : Option Bytes → Bytes
read_trim none = []
read_trim (some text) = trim_space text

-- readBootn, readConfirmn
abbrev pub count : Option ℕ → ℕ
count none = 0
count (some n) = n

-- a version to note in a marker, unless it is empty
abbrev pub noted : Bool → Bytes → Option Bytes → Option Bytes
noted allowed version kept = if bytes_eq version [] then kept else written allowed version kept

abbrev pub boot_state : Preflight → Files → BootState
boot_state p f = record {
  env_ok = p.env_ok;
  has_pending = exists f.pending;
  attempts = count f.bootn + 1;
  has_old = exists f.old;
  has_suspect = exists f.suspect;
  confirm_attempts = count f.confirmn + 1;
}

abbrev pub halted : Permits → Files → Files
halted p f = record f { envhalt = p.writes.envhalt || f.envhalt }

abbrev pub resumed : Permits → Files → Files
resumed p f = record f { envhalt = not p.removes.envhalt && f.envhalt }

-- clearSuspectAsEnvFault
abbrev pub clear_suspect_as_env_fault : Permits → Files → Files
clear_suspect_as_env_fault p f = halted p (record f {
  suspect = removed p.removes.suspect f.suspect;
  confirmn = removed p.removes.confirmn f.confirmn;
})

abbrev pub drop_pending : Permits → Files → Files
drop_pending p f = record f {
  pending = removed p.removes.pending f.pending;
  bootn = removed p.removes.bootn f.bootn;
}

-- os.Rename of the executable to .bad
abbrev pub set_aside : Preflight → Files → Files
set_aside p f = if p.aside_ok && exists f.exe then record f { exe = none; bad = f.exe } else f

-- os.Rename of .bad to the executable
abbrev pub undo_aside : Preflight → Files → Files
undo_aside p f = if p.undo_ok && exists f.bad then record f { exe = f.bad; bad = none } else f

-- the end of the rollback: .old becomes the executable, or the swap is undone
abbrev pub restored : Preflight → Files → Files × Job
restored p f =
    if p.restore_ok && exists f.old
    then (drop_pending p.permits (record f { exe = f.old; old = none }), restart)
    else (drop_pending p.permits (undo_aside p f), no_job)

abbrev pub roll_back : Preflight → Files → Files × Job
roll_back p f = restored p (
    set_aside p (record f {
      suspect = noted p.permits.writes.suspect (read_trim f.pending) f.suspect;
      confirmn = some 0;
    }))

-- what bootGuard does on each decision
abbrev pub on_decision : BootDecision → Preflight → Files → Files × Job
on_decision boot_env_problem p f =
    (if exists f.pending || exists f.suspect then halted p.permits f else f, no_job)
on_decision boot_rollback p f = roll_back p f
on_decision boot_give_up p f = (drop_pending p.permits f, no_job)
on_decision boot_watch p f =
    (record f { bootn = written p.permits.writes.bootn (count f.bootn + 1) f.bootn }, watch_pending)
on_decision boot_confirm_rollback p f = (
  record f { confirmn = written p.permits.writes.confirmn (count f.confirmn + 1) f.confirmn },
  judge_suspect (read_trim f.suspect),
)
on_decision boot_env_fault_confirmed p f = (clear_suspect_as_env_fault p.permits f, no_job)
on_decision boot_normal p f = (
  record f {
    old = removed p.permits.removes.old f.old;
    bad = removed p.permits.removes.bad f.bad;
    bootn = removed p.permits.removes.bootn f.bootn;
  },
  if f.envhalt then lift_halt else no_job,
)

-- bootGuard
unfoldable pub boot_guard : Preflight → Files → Files × Job
unfolding decide_boot
boot_guard p f = on_decision (decide_boot (boot_state p f)) p f

-- the goroutine that bootGuard starts, once waitHealthy returns
unfoldable pub after_wait : Permits → Job → Bool → Files → Files
after_wait p no_job healthy f = f
after_wait p restart healthy f = f
after_wait p watch_pending healthy f =
    if healthy
    then resumed p (
        drop_pending p (record f {
          confirmn = removed p.removes.confirmn f.confirmn;
          old = removed p.removes.old f.old;
          bad = removed p.removes.bad f.bad;
          badversion = removed p.removes.badversion f.badversion;
          suspect = removed p.removes.suspect f.suspect;
        }))
    else f
after_wait p (judge_suspect suspect) healthy f =
    if healthy
    then resumed p (record f {
      badversion = noted p.writes.badversion suspect f.badversion;
      suspect = removed p.removes.suspect f.suspect;
      confirmn = removed p.removes.confirmn f.confirmn;
      old = removed p.removes.old f.old;
      bad = removed p.removes.bad f.bad;
    })
    else clear_suspect_as_env_fault p f
after_wait p lift_halt healthy f = if healthy then resumed p f else f

-- how the process of a boot goes on: it ends before the wait does, or the wait ends
pub data Ending : Type 0 where
  crashed : Ending
  waited : Permits → Bool → Ending

abbrev pub ended : Ending → Files × Job → Files
ended crashed (f, job) = f
ended (waited p healthy) (f, job) = after_wait p job healthy f

-- a boot, from its start to the next one
unfoldable pub boot : Preflight → Ending → Files → Files
unfolding boot_guard after_wait
boot p e f = ended e (boot_guard p f)
