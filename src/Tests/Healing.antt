-- ===== src/Tests/Healing.antt =====
-- An update of the daemon that fails, at concrete inputs.
use cereblix.Prelude.{◌≡◌, refl, true, false, Option, none, some, List, [], ◌∷◌, arith}
use cereblix.Prelude.Bytes.{Bytes, codes, bytes_eq}
use cereblix.Prelude.Text.{trim_space}
use cereblix.Boot.Guard.{Files, PerFile, Permits, Preflight, Ending, crashed, waited, read_trim}
use cereblix.Boot.Version.{ver_newer, split_dots, scan_signed, skip_spaces}
use cereblix.Boot.Update.{Swap, Manifest, apply_manifest}
use cereblix.Boot.Blocked.{AreNatural, IsPlain, IsAllowed, apply_manifest-IsAllowed}

newer_minor : ver_newer (codes "2.10.0") (codes "2.9.0") ≡ true
unfolding ver_newer split_dots trim_space scan_signed skip_spaces
newer_minor = refl

not_newer_short : ver_newer (codes "2.9") (codes "2.9.1") ≡ false
unfolding ver_newer split_dots trim_space scan_signed skip_spaces
not_newer_short = refl

trimmed_ends : trim_space (codes " 2.9\n") ≡ codes "2.9"
unfolding trim_space bytes_eq
trimmed_ends = refl

abbrev installed_node : Files
installed_node = record {
  exe = some (codes "old binary");
  old = none;
  bad = none;
  pending = none;
  bootn = none;
  suspect = none;
  confirmn = none;
  badversion = some (codes "2.9.5");
  envhalt = false;
  noupdate = false;
}

abbrev linux : Swap
linux = record {
  windows = false;
  remove_ok = true;
  read_ok = true;
  write_ok = true;
  backup_ok = true;
  rename_ok = true;
  undo_ok = true;
  pending_ok = true;
  bootn_ok = true;
}

-- every mirror serves the same binary
abbrev mirror : Bytes → Option Bytes
mirror url = some (codes "new binary")

abbrev release : Manifest
release = record {
  version = codes "2.10.0";
  binary = some record { urls = codes "url" ∷ []; url = [] };
}

abbrev every_file : PerFile
every_file = record {
  pending = true;
  bootn = true;
  suspect = true;
  confirmn = true;
  badversion = true;
  envhalt = true;
  old = true;
  bad = true;
}

abbrev all_permitted : Permits
all_permitted = record { writes = every_file; removes = every_file }

abbrev healthy_env : Preflight
healthy_env = record {
  env_ok = true;
  aside_ok = true;
  restore_ok = true;
  undo_ok = true;
  permits = all_permitted;
}

abbrev broken_env : Preflight
broken_env = record healthy_env { env_ok = false }

abbrev bad_boots : List (Preflight × Ending)
bad_boots =
    (broken_env, crashed)
    ∷ (healthy_env, crashed)
    ∷ (healthy_env, waited all_permitted false)
    ∷ (healthy_env, crashed)
    ∷ []

installs_release :
    (apply_manifest mirror linux (codes "2.9.0") release true installed_node).0 ≡ true
unfolding apply_manifest split_dots trim_space scan_signed skip_spaces bytes_eq
installs_release = refl

release-IsPlain : IsPlain (codes "2.10.0")
unfolding AreNatural split_dots trim_space scan_signed skip_spaces
release-IsPlain = (omega arith, (omega arith, (omega arith, tt)))

no_suspect-IsPlain : IsPlain []
unfolding AreNatural split_dots trim_space scan_signed skip_spaces
no_suspect-IsPlain = (omega arith, tt)

blacklisted-IsPlain : IsPlain (read_trim (some (codes "2.9.5")))
unfolding AreNatural split_dots trim_space scan_signed skip_spaces bytes_eq
blacklisted-IsPlain = (omega arith, (omega arith, (omega arith, tt)))

apply_manifest-IsAllowed_example : IsAllowed (codes "2.9.0") (codes "2.10.0") true installed_node
apply_manifest-IsAllowed_example =
    apply_manifest-IsAllowed mirror linux (codes "2.9.0") release true installed_node
      release-IsPlain no_suspect-IsPlain blacklisted-IsPlain installs_release
