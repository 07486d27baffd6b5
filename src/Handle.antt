-- ===== src/Handle.antt =====
-- include/ec200_types.h: status codes, the URC table entry and the handle; and what the library calls
-- but does not implement, the callbacks of the platform.
use ec200_at_abstraction.Prelude.{true, false, ℕ, ℤ, Bool, List, Option, ◌==◌}
use ec200_at_abstraction.Text.{Text}

-- ec200_status_t
pub data Status : Type 0 where
  ok err_timeout err_io err_parse err_cme err_cms err_busy err_param err_not_ready : Status
  err_overflow err_unsupported err_module err_unknown : Status

-- st == EC200_OK
abbrev pub is_ok : Status → Bool
is_ok ok = true
is_ok _ = false

-- A function or context pointer; 0 is NULL.
abbrev pub Ptr : Type 0
Ptr = ℕ

abbrev pub is_null : Ptr → Bool
is_null f = f == 0

abbrev pub rx_buffer_size : ℕ
rx_buffer_size = 2048

abbrev pub tx_buffer_size : ℕ
tx_buffer_size = 512

abbrev pub max_urc_handlers : ℕ
max_urc_handlers = 8

abbrev pub max_err_text_len : ℕ
max_err_text_len = 64

-- EC200_AT_TIMEOUT_*, EC200_AT_MAX_LINES, EC200_AT_POLL_SLICE_MS, EC200_AT_WRITE_TIMEOUT_MS
abbrev pub timeout_default : ℕ
timeout_default = 1000

abbrev pub timeout_short : ℕ
timeout_short = 300

abbrev pub timeout_long : ℕ
timeout_long = 10000

abbrev pub timeout_cops : ℕ
timeout_cops = 120000

abbrev pub max_lines : ℕ
max_lines = 64

abbrev pub poll_slice_ms : ℕ
poll_slice_ms = 100

abbrev pub write_timeout_ms : ℕ
write_timeout_ms = 1000

-- ec200_urc_entry_t; a NULL prefix marks a free slot.
pub record UrcEntry : Type 0 where
  pub prefix : Option Text
  pub handler : Ptr
  pub ctx : Ptr

-- ec200_handle_t. The three text fields and the receive buffer are arrays of their C size.
pub record Handle : Type 0 where
  pub write : Ptr
  pub read : Ptr
  pub delay_ms : Ptr
  pub user_ctx : Ptr
  pub urc_handler : Ptr
  pub mqtt_msg_cb : Ptr
  pub rx_buf : List ℕ
  pub rx_len : ℕ
  pub rx_overlong : Bool
  pub tx_buf : List ℕ
  pub urc_table : List UrcEntry
  pub initialised : Bool
  pub last_err_kind : ℕ
  pub last_err_text : List ℕ
  pub ppp_data_mode : Bool
  pub last_cme_error : ℤ
  pub last_cms_error : ℤ

-- What a read callback returns: its result, and the bytes that it stored from the start of the buffer.
pub record Reading (W : Type 0) : Type 0 where
  pub result : ℤ
  pub bytes : List ℕ
  pub after : W

pub record Writing (W : Type 0) : Type 0 where
  pub result : ℤ
  pub after : W

-- The callbacks, as functions on the state `W` of everything outside the library (the UART, the clock,
-- the application's URC handlers). The first argument of each is the function pointer in use.
-- ec200_write_fn, ec200_read_fn, ec200_delay_fn, ec200_urc_handler_fn
pub record Platform (W : Type 0) : Type 0 where
  pub write : Ptr → List ℕ → Ptr → W → Writing W
  pub read : Ptr → ℕ → ℕ → Ptr → W → Reading W
  pub delay : Ptr → ℕ → Ptr → W → W
  pub urc : Ptr → Text → Ptr → W → W

-- The handle with the rest of the world.
pub record Sys (W : Type 0) : Type 0 where
  pub handle : Handle
  pub world : W
