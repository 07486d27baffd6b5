-- ===== src/File.antt =====
-- src/ec200_file.c: files on the module.
pub mod Wire
use ec200_at_abstraction.Prelude.{
  ℕ, ◌%◌, ◌^◌, pos, negsuc, Bool, true, false, ◌||◌, List, [], ◌++◌, Option, none, some, leb, ltb,
  ◌==◌, if◌then◌else◌, length,
}
use ec200_at_abstraction.Text.{Text, codes, decimal}
use ec200_at_abstraction.Handle.{
  Platform, Status, ok, err_param, err_parse, err_module, err_cme, timeout_default, timeout_long,
}
use ec200_at_abstraction.Exec.{Exec, pure, ◌>>=◌, if_ok_else}
use ec200_at_abstraction.Query.{send_command, query, expect, await_prefix}
use ec200_at_abstraction.At.Field.{parse_int_field}
use ec200_at_abstraction.At.Tx.{write_raw}
use ec200_at_abstraction.At.Wait.{wait_final}
use ec200_at_abstraction.Cast.{to_unsigned}

-- EC200_MAX_FILENAME_LEN, FILE_MAX_UPLOAD
abbrev pub max_filename_len : ℕ
max_filename_len = 64

abbrev pub file_max_upload : ℕ
file_max_upload = 65535

-- !name || name[0] == '\0' || strlen(name) >= EC200_MAX_FILENAME_LEN
unfoldable pub bad_name : Option Text → Bool
bad_name none = true
bad_name (some name) = length name == 0 || leb max_filename_len (length name)

abbrev pub name_of : Option Text → Text
name_of none = []
name_of (some name) = name

-- "<name>"
abbrev quote : Text → Text
quote s = codes "\"" ++ (s ++ codes "\"")

-- AT+QFUPL="<name>",<length>,60
abbrev pub upload_command : Text → ℕ → Text
upload_command name len =
    codes "AT+QFUPL=" ++ (quote name ++ (codes "," ++ (decimal len ++ codes ",60")))

-- The checksum in a +QFUPL line, as uint16_t, or 0.
unfoldable pub checksum_of : Text → ℕ
unfolding to_unsigned
checksum_of resp = elim (parse_int_field resp 1) [ none ↦ 0 | some crc ↦ to_unsigned 16 crc ]

-- A size in field `i` of a reply; `none` where it is missing or negative.
unfoldable pub size_at : Text → ℕ → Option ℕ
size_at resp i = elim (parse_int_field resp i) [
  | none ↦ none
  | some (pos n) ↦ some (n % 2 ^ 32)
  | some (negsuc n) ↦ none
]

-- ec200_file_storage_t
pub record FileStorage : Type 0 where
  pub free_bytes : ℕ
  pub total_bytes : ℕ

unfoldable pub storage_parse : Text → FileStorage → Status × FileStorage
unfolding size_at
storage_parse resp out = elim (size_at resp 0) [
  | none ↦ (err_parse, out)
  | some free ↦ elim (size_at resp 1) [
    | none ↦ (err_parse, out)
    | some total ↦ (ok, record { free_bytes = free; total_bytes = total })
  ]
]

unfoldable pub size_parse : Text → ℕ → Status × ℕ
unfolding size_at
size_parse resp before = elim (size_at resp 1) [
  | none ↦ (err_parse, before)
  | some size ↦ (ok, size)
]

-- What ec200_file_exists makes of the status of the query.
unfoldable pub exists_result : Status → Bool → Status × Bool
exists_result ok before = (ok, true)
exists_result err_cme before = (ok, false)
exists_result err_module before = (ok, false)
exists_result err_parse before = (ok, false)
exists_result st before = (st, before)

module _ {W : Type 0} (p : Platform W) (fuel : ℕ) where
  -- The answer to an upload; `checksum` is `*checksum` at the call, or `none` for NULL.
  unfoldable pub upload_answer : Option ℕ → Exec W (Status × Option ℕ)
  unfolding checksum_of
  upload_answer checksum = do
    (st, resp) ← await_prefix p fuel (codes "+QFUPL:") 48 timeout_long
    let stored : Option ℕ = elim checksum [ none ↦ none | some _ ↦ some (checksum_of resp) ]
    if_ok_else st checksum (do st ← wait_final p fuel timeout_default; pure (st, stored))

  -- The transaction of ec200_file_upload.
  unfoldable pub upload : Text → List ℕ → Option ℕ → Exec W (Status × Option ℕ)
  unfolding upload_answer
  upload name content checksum = do
    st ← expect p fuel (upload_command name (length content)) (codes "CONNECT") 48 timeout_default
    if_ok_else st checksum
        (do st ← write_raw p fuel (some content); if_ok_else st checksum (upload_answer checksum))

  -- ec200_file_upload; NULL pointers are `none`.
  unfoldable pub file_upload : Option Text → Option (List ℕ) → Option ℕ → Exec W (Status × Option ℕ)
  unfolding upload bad_name
  file_upload name none checksum = pure (err_param, checksum)
  file_upload name (some content) checksum =
      if bad_name name || length content == 0 || ltb file_max_upload (length content)
      then pure (err_param, checksum)
      else upload (name_of name) content checksum

  -- ec200_file_delete
  unfoldable pub file_delete : Option Text → Exec W Status
  unfolding bad_name
  file_delete name =
      if bad_name name
      then pure err_param
      else send_command p fuel (codes "AT+QFDEL=" ++ quote (name_of name)) timeout_default

  -- qflst_size into `*size`
  unfoldable pub qflst_size : Text → ℕ → Exec W (Status × ℕ)
  unfolding size_parse
  qflst_size name size = do
    (st, resp) ← query p fuel (codes "AT+QFLST=" ++ quote name) (codes "+QFLST:") 96 timeout_default
    if_ok_else st size (pure (size_parse resp size))

  -- ec200_file_exists; a NULL result is `none`.
  unfoldable pub file_exists : Option Text → Option Bool → Exec W (Status × Option Bool)
  unfolding qflst_size exists_result bad_name
  file_exists name none = pure (err_param, none)
  file_exists name (some before) = if bad_name name then pure (err_param, some before) else do
    (st, size) ← qflst_size (name_of name) 0
    let (st', exists) = exists_result st before
    pure (st', some exists)

  -- ec200_file_size
  unfoldable pub file_size : Option Text → Option ℕ → Exec W (Status × Option ℕ)
  unfolding qflst_size bad_name
  file_size name none = pure (err_param, none)
  file_size name (some before) =
      if bad_name name
      then pure (err_param, some before)
      else do (st, size) ← qflst_size (name_of name) before; pure (st, some size)

  -- ec200_file_storage
  unfoldable pub file_storage : Option FileStorage → Exec W (Status × Option FileStorage)
  unfolding storage_parse
  file_storage none = pure (err_param, none)
  file_storage (some before) = do
    (st, resp) ← query p fuel (codes "AT+QFLDS=\"UFS\"") (codes "+QFLDS:") 96 timeout_default
    let (st', out) = storage_parse resp before
    if_ok_else st (some before) (pure (st', some out))
