-- ===== src/Service/Reading/Files.antt =====
-- The handlers that only read.
use demostroage.Prelude.{◌≡◌, refl, ◌∙◌, ℤ}
use demostroage.Runtime.{World}
use demostroage.Runtime.Keeps.{Ends}
use demostroage.Runtime.Frames.{Quiet, Conns}
use demostroage.Service.Frames.{Keeps-storage_download_file, Keeps-storage_get_metadata}
use demostroage.Service.Reading.{storage_download_file, storage_get_metadata}

-- the files and folders are those of another world
abbrev pub SameFiles : World → World → Type 0
SameFiles w v = (v.files ≡ w.files) × (v.dirs ≡ w.dirs)

module _ (w : World) where
  SameFiles-Quiet : Quiet (SameFiles w)
  SameFiles-Quiet = record { free = λ v o f d h. (f ∙ h.0, d ∙ h.1) }

  SameFiles-Conns : Conns (SameFiles w)
  SameFiles-Conns = record { free = λ v c _ h. h }

-- A download and a request for metadata end, where their behaviour is defined, with the same
-- files and folders, whatever the peer sends and whichever system calls fail.
pub storage_download_file-SameFiles :
    (n : ℤ) (w : World)
    → Ends (SameFiles w) (storage_download_file n w) × Ends (SameFiles w) (storage_get_metadata n w)
storage_download_file-SameFiles n w = (
  (Keeps-storage_download_file n (SameFiles-Quiet w) (SameFiles-Conns w)).at w (refl, refl),
  (Keeps-storage_get_metadata n (SameFiles-Quiet w) (SameFiles-Conns w)).at w (refl, refl),
)
