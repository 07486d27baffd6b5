-- ===== src/Network/Registration.antt =====
-- The wait for registration ends.
use ec200_at_abstraction.Prelude.{
  ℕ, zero, suc, ◌+◌, ◌-◌, ◌*◌, ◌%◌, ◌^◌, ◌≤◌, ◌<◌, ◌≡◌, ◌⊎◌, inl, inr, refl, leb, if-elim, arith,
}
use ec200_at_abstraction.Handle.{Platform, Sys, Status, ok, err_timeout}
use ec200_at_abstraction.At.Valid.{Total, Total-bind, After, After-bind, After-trivial}
use ec200_at_abstraction.Network.{
  net_get_cereg, reports_registered, poll_delay, polled, wait_loop, net_wait_registered,
}

-- The status of a wait that ended.
abbrev pub Ended : {W : Type 0} → Status → Sys W → Type 0
Ended st s = (st ≡ ok) ⊎ (st ≡ err_timeout)

module _ {W : Type 0} (p : Platform W) (fuel : ℕ)
    (answers : (s : Sys W) → Total (λ _ _. Unit {0}) (net_get_cereg p fuel s)) where
  wait_loop-Ended :
      (rounds elapsed timeout_ms : ℕ) (s : Sys W)
      → timeout_ms ≤ 2 ^ 32 - 2000
      → timeout_ms + 2000 ≤ elapsed + 2000 * rounds
      → elapsed < timeout_ms + 2000
      → Total Ended (wait_loop p fuel rounds elapsed timeout_ms s)
  unfolding wait_loop polled
  wait_loop-Ended zero elapsed timeout_ms s small enough near = absurd (omega arith)
  wait_loop-Ended (suc rounds) elapsed timeout_ms s small enough near =
      Total-bind (λ _ _. Unit {0}) Ended (net_get_cereg p fuel)
        (polled p fuel (λ e. wait_loop p fuel rounds e timeout_ms) elapsed timeout_ms) s (answers s)
        λ a s' _.
          if-elim (Total Ended) (reports_registered a) _ _ (λ _. inl refl)
            λ _.
              if-elim (Total Ended) (leb timeout_ms elapsed) _ _ (λ _. inr refl)
                λ l.
                  wait_loop-Ended rounds ((elapsed + 2000) % 2 ^ 32) timeout_ms
                    (poll_delay p fuel s') small (ground (arith, l)) (ground (arith, l))

  -- If every registration query returns, a wait of at most 4294965296 ms ends, with EC200_OK or
  -- EC200_ERR_TIMEOUT, within a round for each 2000 ms of the timeout that are begun, and one more.
  pub net_wait_registered-Ended :
      (rounds timeout_ms : ℕ) (s : Sys W)
      → timeout_ms ≤ 2 ^ 32 - 2000
      → timeout_ms + 2000 ≤ 2000 * rounds
      → Total Ended (net_wait_registered p fuel rounds timeout_ms s)
  unfolding net_wait_registered
  net_wait_registered-Ended rounds timeout_ms s small enough =
      wait_loop-Ended rounds 0 timeout_ms s small (omega arith) (omega arith)

module _ {W : Type 0} (p : Platform W) (fuel : ℕ) where
  wait_loop_lem :
      (rounds elapsed timeout_ms : ℕ) (s : Sys W)
      → 2 ^ 32 - 16 < timeout_ms
      → elapsed % 16 ≡ 0
      → elapsed < 2 ^ 32
      → After (λ st _. st ≡ ok) (wait_loop p fuel rounds elapsed timeout_ms s)
  unfolding wait_loop polled
  wait_loop_lem zero elapsed timeout_ms s long even small = tt
  wait_loop_lem (suc rounds) elapsed timeout_ms s long even small =
      After-bind (λ _ _. Unit {0}) (λ st _. st ≡ ok) (net_get_cereg p fuel)
        (polled p fuel (λ e. wait_loop p fuel rounds e timeout_ms) elapsed timeout_ms) s
        (After-trivial (net_get_cereg p fuel s))
        λ a s' _.
          if-elim (After (λ st _. st ≡ ok)) (reports_registered a) _ _ (λ _. refl)
            λ _.
              if-elim (After (λ st _. st ≡ ok)) (leb timeout_ms elapsed) _ _
                (λ l. absurd (ground (arith, l)))
                λ _.
                  wait_loop_lem rounds ((elapsed + 2000) % 2 ^ 32) timeout_ms (poll_delay p fuel s')
                    long (omega arith) (omega arith)

  -- The counter of elapsed milliseconds wraps around in multiples of 16: a wait whose timeout_ms is above
  -- 4294967280 never ends with EC200_ERR_TIMEOUT, however long it runs.
  pub net_wait_registered_wraps :
      (rounds timeout_ms : ℕ) (s : Sys W)
      → 2 ^ 32 - 16 < timeout_ms
      → After (λ st _. st ≡ ok) (net_wait_registered p fuel rounds timeout_ms s)
  unfolding net_wait_registered
  net_wait_registered_wraps rounds timeout_ms s long =
      wait_loop_lem rounds 0 timeout_ms s long refl (omega arith)
