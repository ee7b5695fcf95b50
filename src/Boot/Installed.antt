-- ===== src/Boot/Installed.antt =====
-- From the installation of an update by applyManifest of cmd/cereblixd/update.go to the boots of
-- selfheal.go that follow.
use cereblix.Prelude.{◌≡◌, Bool, true}
use cereblix.Prelude.Bytes.{Bytes}
use cereblix.Boot.Guard.{Files}
use cereblix.Boot.Update.{Swap}
use cereblix.Boot.Undone.{OnTrial}

-- a swap that succeeds keeps the executable it replaces
abbrev KeepsOld : Files → Bool × Files → Type 0
KeepsOld f out = out.0 ≡ true → out.1.old ≡ f.exe

-- the executable can be read, and the two markers of an installation can be written
pub record AreMarked (w : Swap) : Type 0 where
  pub readable : w.read_ok ≡ true
  pub pending : w.pending_ok ≡ true
  pub bootn : w.bootn_ok ≡ true

-- an update that is installed is on trial, with no boot counted
abbrev StartsTrial : Bytes → Bytes → Bool × Files → Type 0
StartsTrial version previous out = out.0 ≡ true → OnTrial version 0 previous out.1
