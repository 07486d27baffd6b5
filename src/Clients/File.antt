-- ===== src/Clients/File.antt =====
-- src/ec200_file.c: what its functions keep of the handle.
use ec200_at_abstraction.Prelude.{ℕ, Bool, List, Option, none, some}
use ec200_at_abstraction.File.{
  FileStorage, upload_answer, upload, file_upload, file_delete, qflst_size, file_exists, file_size,
  file_storage,
}
use ec200_at_abstraction.Handle.{Platform}
use ec200_at_abstraction.Text.{Text}
use ec200_at_abstraction.At.Guarded.{guarded_rules}
use ec200_at_abstraction.At.Guarded.Rules.{Guarded}

module _ {W : Type 0} (p : Platform W) (fuel : ℕ) where
  upload_answer-Guarded : (checksum : Option ℕ) → Guarded (upload_answer p fuel checksum)
  unfolding upload_answer
  upload_answer-Guarded checksum = search guarded_rules depth 24

  upload-Guarded :
      (name : Text) (content : List ℕ) (checksum : Option ℕ)
      → Guarded (upload p fuel name content checksum)
  unfolding upload
  upload-Guarded name content checksum = search (guarded_rules, upload_answer-Guarded) depth 24

  file_upload-Guarded :
      (name : Option Text) (content : Option (List ℕ)) (checksum : Option ℕ)
      → Guarded (file_upload p fuel name content checksum)
  unfolding file_upload
  file_upload-Guarded name none checksum = search guarded_rules depth 24
  file_upload-Guarded name (some content) checksum = search (guarded_rules, upload-Guarded) depth 24

  file_delete-Guarded : (name : Option Text) → Guarded (file_delete p fuel name)
  unfolding file_delete
  file_delete-Guarded name = search guarded_rules depth 24

  qflst_size-Guarded : (name : Text) (size : ℕ) → Guarded (qflst_size p fuel name size)
  unfolding qflst_size
  qflst_size-Guarded name size = search guarded_rules depth 24

  file_exists-Guarded :
      (name : Option Text) (before : Option Bool) → Guarded (file_exists p fuel name before)
  unfolding file_exists
  file_exists-Guarded name none = search guarded_rules depth 24
  file_exists-Guarded name (some before) = search (guarded_rules, qflst_size-Guarded) depth 24

  file_size-Guarded :
      (name : Option Text) (before : Option ℕ) → Guarded (file_size p fuel name before)
  unfolding file_size
  file_size-Guarded name none = search guarded_rules depth 24
  file_size-Guarded name (some before) = search (guarded_rules, qflst_size-Guarded) depth 24

  file_storage-Guarded : (before : Option FileStorage) → Guarded (file_storage p fuel before)
  unfolding file_storage
  file_storage-Guarded none = search guarded_rules depth 24
  file_storage-Guarded (some before) = search guarded_rules depth 24

  -- Every function of the file that sends a command.
  abbrev pub FileGuarded : Type 0
  FileGuarded =
      ((name : Option Text) (content : Option (List ℕ)) (checksum : Option ℕ)
        → Guarded (file_upload p fuel name content checksum))
      × ((name : Option Text) → Guarded (file_delete p fuel name))
      × ((name : Option Text) (before : Option Bool) → Guarded (file_exists p fuel name before))
      × ((name : Option Text) (before : Option ℕ) → Guarded (file_size p fuel name before))
      × ((before : Option FileStorage) → Guarded (file_storage p fuel before))

  pub file_calls-FileGuarded : FileGuarded
  file_calls-FileGuarded = (
    file_upload-Guarded, file_delete-Guarded, file_exists-Guarded, file_size-Guarded,
    file_storage-Guarded,
  )
