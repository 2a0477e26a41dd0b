-- ===== src/VolumeManager/Tests.antt =====
-- DriverCore/Volume_Manager.c: the theorems on the table of volumes at a table of four slots.
use dms_blkdev.Base.{◌≡◌, refl, true, false, some, none, [], ◌∷◌, arith}
use dms_blkdev.Volume.{Volume, dms_ok}
use dms_blkdev.VolumeManager.{Manager, null, at, dms_attach_volume, dynamic_change_max_volume_size}
use dms_blkdev.VolumeManager.Table.{IsWf}
use dms_blkdev.VolumeManager.Attach.{Attaches, dms_attach_volume-Attaches}
use dms_blkdev.VolumeManager.Detach.{Detaches, dms_detach_volume-Detaches}
use dms_blkdev.VolumeManager.Open.{Opens, open_dms_volume-Opens, dynamic_change-attach_faults}

-- The volume 77 in slot 2.
abbrev volume : Volume
volume = record {
  addr = 5000;
  volume_id = 77;
  attached = true;
  detaching = false;
  minor_index = 2;
  open_counter = 0;
  dsectors = 1024;
}

abbrev one : Manager
one = record { slots = null ∷ null ∷ at volume ∷ null ∷ []; max_nr_volumes = 4; nr_detach_cmds = 0 }

one-IsWf : IsWf one
one-IsWf = record {
  rest = null ∷ at volume ∷ null ∷ [];
  shape = refl;
  size = refl;
  table = (refl, refl, refl, tt);
}

dms_attach_volume-Attaches_example : Attaches (some 6000) 78 2048 one
dms_attach_volume-Attaches_example = dms_attach_volume-Attaches (some 6000) 78 2048 one one-IsWf

dms_detach_volume-Detaches_example : Detaches 77 one
dms_detach_volume-Detaches_example = dms_detach_volume-Detaches 77 one one-IsWf (omega arith)

open_dms_volume-Opens_example : Opens 35 77 one
open_dms_volume-Opens_example =
    open_dms_volume-Opens 35 77 volume one one-IsWf refl refl (omega arith)

dynamic_change-attach_faults_example :
    let r = dynamic_change_max_volume_size true 64 one in
    (r.1 ≡ dms_ok) × (dms_attach_volume none 78 2048 r.0 ≡ none)
dynamic_change-attach_faults_example =
    dynamic_change-attach_faults none 78 2048 64 one one-IsWf refl (omega arith)
