-- ===== src/Boot/Update.antt =====
-- The installation of an update in cmd/cereblixd: markPending and blockedVersion of selfheal.go,
-- swapBinary, selfUpdateNode and applyManifest of update.go. What a mirror serves and whether it has
-- the hash of the manifest is `download`; the file .new is not kept, since it is only ever replaced.
use cereblix.Prelude.{
  Bool, true, false, not, ◌&&◌, Option, none, some, List, [], ◌∷◌, if◌then◌else◌,
}
use cereblix.Prelude.Bytes.{Bytes, bytes_eq}
use cereblix.Boot.Guard.{Files, exists, read_trim, written, removed}
use cereblix.Boot.Version.{ver_newer, should_install}

-- whether the system lets each step of an installation succeed
pub record Swap : Type 0 where
  pub windows : Bool
  pub remove_ok : Bool
  pub read_ok : Bool
  pub write_ok : Bool
  pub backup_ok : Bool
  pub rename_ok : Bool
  pub undo_ok : Bool
  pub pending_ok : Bool
  pub bootn_ok : Bool

-- the binary of this platform in a manifest
pub record Binary : Type 0 where
  pub urls : List Bytes
  pub url : Bytes

pub record Manifest : Type 0 where
  pub version : Bytes
  pub binary : Option Binary

-- markPending
abbrev pub mark_pending : Swap → Bytes → Files → Files
mark_pending w version f = record f {
  pending = written w.pending_ok version f.pending;
  bootn = written w.bootn_ok 0 f.bootn;
}

-- setAutoUpdate
abbrev pub set_auto_update : Bool → Bool → Files → Files
set_auto_update allowed on f = if allowed then record f { noupdate = not on } else f

abbrev pub higher : Bytes → Bytes → Bytes
higher bad sus =
    if bytes_eq bad []
    then sus
    else if bytes_eq sus []
    then bad
    else if ver_newer sus bad
    then sus
    else bad

-- blockedVersion
unfoldable pub blocked_version : Files → Bytes
unfolding ver_newer
blocked_version f = higher (read_trim f.badversion) (read_trim f.suspect)

-- the swap on Windows, where the executable is renamed
abbrev pub swap_aside : Swap → Bytes → Files → Bool × Files
swap_aside w image f =
    if not (w.backup_ok && exists f.exe)
    then (false, f)
    else if w.rename_ok
    then (true, record f { exe = some image; old = f.exe })
    else if w.undo_ok
    then (false, f)
    else (false, record f { exe = none; old = f.exe })

-- the swap elsewhere, where it is copied; an executable that cannot be read gets no backup
abbrev pub swap_over : Swap → Bytes → Files → Bool × Files
swap_over w image f =
    let readable = w.read_ok && exists f.exe in
    if readable && not w.backup_ok then (false, f) else (
      w.rename_ok,
      record f {
        exe = if w.rename_ok then some image else f.exe;
        old = if readable then f.exe else f.old;
      },
    )

-- swapBinary
unfoldable pub swap_binary : Swap → Bytes → Files → Bool × Files
swap_binary w image f =
    if not w.write_ok
    then (false, f)
    else (let g = record f { old = removed w.remove_ok f.old } in
        if w.windows then swap_aside w image g else swap_over w image g)

abbrev pub older_mirrors : List Bytes → Bytes → List Bytes
older_mirrors [] url = if bytes_eq url [] then [] else url ∷ []
older_mirrors (u ∷ us) url = u ∷ us

abbrev pub mirrors : Binary → List Bytes
mirrors b = older_mirrors b.urls b.url

abbrev pub or_next : Option Bytes → Option Bytes → Option Bytes
or_next none next = next
or_next (some image) next = some image

module _ (download : Bytes → Option Bytes) where
  unfoldable pub first_served : List Bytes → Option Bytes
  first_served [] = none
  first_served (u ∷ us) = or_next (download u) (first_served us)

  abbrev pub swap_served : Swap → Option Bytes → Files → Bool × Files
  swap_served w none f = (false, f)
  swap_served w (some image) f = swap_binary w image f

  -- selfUpdateNode
  unfoldable pub self_update_node : Swap → Binary → Files → Bool × Files
  unfolding first_served swap_binary
  self_update_node w b f = swap_served w (first_served (mirrors b)) f

  -- whether the node restarts into the update
  abbrev pub marked : Swap → Bytes → Bool × Files → Bool × Files
  marked w version (false, f) = (false, f)
  marked w version (true, f) = (true, mark_pending w version f)

  abbrev pub install : Swap → Bytes → Option Binary → Files → Bool × Files
  install w version none f = (false, f)
  install w version (some b) f = marked w version (self_update_node w b f)

  -- applyManifest, with the version that runs
  unfoldable pub apply_manifest : Swap → Bytes → Manifest → Bool → Files → Bool × Files
  unfolding should_install blocked_version self_update_node
  apply_manifest w running m enabled f =
      if not enabled
      then (false, f)
      else if f.envhalt
      then (false, f)
      else if not (should_install m.version running (blocked_version f))
      then (false, f)
      else install w m.version m.binary f

  -- a turn of autoUpdateLoop that fetched a manifest
  abbrev pub auto_update : Swap → Bytes → Manifest → Bool → Files → Bool × Files
  auto_update w running m enabled f = apply_manifest w running m (enabled && not f.noupdate) f

  -- runUpdateOnce, once a manifest is fetched
  unfoldable pub run_update_once : Swap → Bytes → Manifest → Files → Bool × Files
  unfolding should_install blocked_version self_update_node
  run_update_once w running m f =
      if not (should_install m.version running (blocked_version f))
      then (false, f)
      else install w m.version m.binary f
