-- ===== src/Store/Runs.antt =====
-- The store in use: runs of `Apply` and `Scan` one after the other, while other processes change the
-- disk and any call may fail.
mod Tests
pub mod Consistent
use backuply.Base.{ℕ, List}
use backuply.Text.{Text}
use backuply.Model.{Entry}
use backuply.Store.Codec.{Codec}
use backuply.Store.Disk.{Disk}
use backuply.Store.Exec.{World, Event}
use backuply.Store.Apply.{Fetch, apply}
use backuply.Store.Scan.{scan}

-- The mutex of the store lets one operation run at a time; in between, the disk may become any disk,
-- and the events to come are any events.
pub data Step (c : Codec) : World → World → Type 0 where
  applied :
      (nonce : Text) (fetch : Fetch) (folder root : Text) (e : Entry) (w : World)
      → Step c w (apply c nonce fetch folder root e w).1
  scanned : (folder root : Text) (w : World) → Step c w (scan c folder root w).1
  disturbed :
      (disk : Disk) (events : List Event) (w : World)
      → Step c w (record w { disk = disk; events = events })

pub data Run (c : Codec) : World → World → Type 0 where
  done : (w : World) → Run c w w
  next : {w u v : World} → Step c w u → Run c u v → Run c w v
