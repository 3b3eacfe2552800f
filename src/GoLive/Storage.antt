-- ===== src/GoLive/Storage.antt =====
-- What is loaded after a crash within a save.
use aimos.Prelude.{◌≡◌, ◌≢◌, ◌⊎◌, Bool, true, arith}
use aimos.GoLive.Gates.{State, empty_state, torn, Disk, load, keep_bak, save}

-- Where the process stops: before the rename, before the replace, or after it.
pub data Stop : Type 0 where
  before_rename before_replace after_replace : Stop

abbrev pub disk_at : Stop → Bool → State → Disk → Disk
disk_at before_rename works s d = d
disk_at before_replace works s d = keep_bak works d
disk_at after_replace works s d = save works s d

-- If the primary file is not torn when a save begins, then wherever the save is stopped, and whether
-- or not its rename works, a new start loads the state from before the save or the one that is saved;
-- after the replace it loads the one that is saved.
pub save_is_atomic :
    (stop : Stop) (works : Bool) (s : State) (d : Disk)
    → d.primary ≢ torn
    → ((load (disk_at stop works s d) ≡ load d) ⊎ (load (disk_at stop works s d) ≡ s))
      × (load (disk_at after_replace works s d) ≡ s)
unfolding load save
save_is_atomic before_rename works s d h = (ground arith, ground arith)
save_is_atomic _ works s d h = (ground arith, ground arith)

-- If the primary file is torn, the rename puts it over the backup, whatever sign-offs that holds: a
-- new start before the replace finds no sign-off at all.
pub torn_primary_loses :
    (s : State) (d : Disk) → d.primary ≡ torn → load (disk_at before_replace true s d) ≡ empty_state
unfolding load keep_bak
torn_primary_loses s d h = ground arith
