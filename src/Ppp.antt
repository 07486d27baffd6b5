-- ===== src/Ppp.antt =====
-- src/ec200_ppp.c: the PPP dial-up control plane.
pub mod Modes
use ec200_at_abstraction.Prelude.{
  ℕ, ◌++◌, Bool, true, false, ◌||◌, ◌∷◌, [], some, none, ltb, if◌then◌else◌,
}
use ec200_at_abstraction.Text.{Text, codes, decimal}
use ec200_at_abstraction.Handle.{
  Handle, Platform, Sys, Status, ok, err_param, err_busy, err_module, err_cme, err_cms,
  timeout_long, timeout_default,
}
use ec200_at_abstraction.Exec.{Exec, pure, ◌>>=◌, ◌>>◌}
use ec200_at_abstraction.At.Tx.{write_raw}
use ec200_at_abstraction.At.Wait.{wait_final}
use ec200_at_abstraction.Query.{send_command, expect}

-- EC200_PPP_ESCAPE_GUARD_MS
abbrev pub escape_guard_ms : ℕ
escape_guard_ms = 1100

-- "ATD*99***%u#"
abbrev pub dial_command : ℕ → Text
dial_command cid = codes "ATD*99***" ++ (decimal cid ++ codes "#")

module _ {W : Type 0} (p : Platform W) (fuel : ℕ) where
  -- h->_ppp_data_mode = on
  unfoldable pub set_data_mode : Bool → Sys W → Sys W
  set_data_mode on s = record s { handle = record (s.handle) { ppp_data_mode = on } }

  -- The end of ec200_ppp_dial and ec200_ppp_resume: data mode is entered only on EC200_OK.
  unfoldable pub enter_data_mode : Status → Exec W Status
  unfolding set_data_mode
  enter_data_mode ok s = some (ok, set_data_mode true s)
  enter_data_mode st s = some (st, s)

  -- ec200_ppp_dial
  unfoldable pub ppp_dial : ℕ → Exec W Status
  unfolding enter_data_mode
  ppp_dial cid s =
      if ltb cid 1 || ltb 16 cid
      then some (err_param, s)
      else if s.handle.ppp_data_mode
      then some (err_busy, s)
      else (expect p fuel (dial_command cid) (codes "CONNECT") 32 timeout_long >>= enter_data_mode)
          s

  -- The end of ec200_ppp_escape, behind ec200_at_wait_final.
  unfoldable pub leave_data_mode : Status → Exec W Status
  unfolding set_data_mode
  leave_data_mode ok s = some (ok, set_data_mode false s)
  leave_data_mode err_module s = some (err_module, set_data_mode false s)
  leave_data_mode err_cme s = some (err_cme, set_data_mode false s)
  leave_data_mode err_cms s = some (err_cms, set_data_mode false s)
  leave_data_mode st s = some (st, s)

  -- h->delay_ms(EC200_PPP_ESCAPE_GUARD_MS, h->user_ctx)
  unfoldable pub guard_delay : Sys W → Sys W
  guard_delay s = record s {
    world = p.delay s.handle.delay_ms escape_guard_ms s.handle.user_ctx s.world;
  }

  -- ec200_ppp_escape behind the "+++".
  unfoldable pub escape_sent : Status → Exec W Status
  unfolding leave_data_mode guard_delay
  escape_sent ok s = (wait_final p fuel timeout_default >>= leave_data_mode) (guard_delay s)
  escape_sent st s = some (st, s)

  -- ec200_ppp_escape
  unfoldable pub ppp_escape : Exec W Status
  unfolding escape_sent
  ppp_escape s =
      if s.handle.ppp_data_mode
      then (write_raw p fuel (some (codes "+++")) >>= escape_sent) (guard_delay s)
      else some (err_param, s)

  -- ec200_ppp_resume
  unfoldable pub ppp_resume : Exec W Status
  unfolding enter_data_mode
  ppp_resume s =
      if s.handle.ppp_data_mode
      then some (err_busy, s)
      else (expect p fuel (codes "ATO") (codes "CONNECT") 32 timeout_default >>= enter_data_mode) s

  -- ec200_ppp_hangup
  unfoldable pub ppp_hangup : Exec W Status
  ppp_hangup s =
      if s.handle.ppp_data_mode
      then some (err_param, s)
      else send_command p fuel (codes "ATH") timeout_long s

  -- ec200_ppp_disconnect behind ec200_ppp_escape.
  unfoldable pub escaped : Status → Exec W Status
  unfolding ppp_hangup
  escaped ok s = ppp_hangup s
  escaped st s = let rest = ppp_hangup s in if s.handle.ppp_data_mode then some (st, s) else rest

  -- ec200_ppp_disconnect
  unfoldable pub ppp_disconnect : Exec W Status
  unfolding escaped
  ppp_disconnect s =
      let escape = (ppp_escape >>= escaped) s in
      if s.handle.ppp_data_mode then escape else ppp_hangup s

-- ec200_ppp_in_data_mode
unfoldable pub ppp_in_data_mode : Handle → Bool
ppp_in_data_mode h = h.ppp_data_mode
