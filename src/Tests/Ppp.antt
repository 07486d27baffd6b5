-- ===== src/Tests/Ppp.antt =====
-- The PPP control plane against a script.
use ec200_at_abstraction.Prelude.{◌≡◌, ◌≤◌, refl, not, true, false, some, ◌++◌, arith}
use ec200_at_abstraction.Text.{Text, codes}
use ec200_at_abstraction.Handle.{Sys, is_ok, err_busy, err_param}
use ec200_at_abstraction.At.Valid.{IsValid, After}
use ec200_at_abstraction.Ppp.{ppp_dial, ppp_escape, ppp_resume, ppp_hangup, ppp_disconnect}
use ec200_at_abstraction.Ppp.Modes.{InMode, Hung, has_left, from_command_mode, from_data_mode}
use ec200_at_abstraction.Tests.Uart.{Uart, scripted, fresh, start, power_on}
use ec200_at_abstraction.Tests.Engine.{crlf, fresh-IsValid}

abbrev connect_reply : Text
connect_reply = codes "CONNECT 150000000" ++ crlf

abbrev no_carrier : Text
no_carrier = codes "NO CARRIER" ++ crlf

abbrev in_data : Sys Uart
in_data = record { handle = record fresh { ppp_data_mode = true }; world = power_on }

in_data-IsValid : IsValid in_data.handle
in_data-IsValid = omega arith

from_command_mode_example :
    After (λ st s'. InMode (is_ok st) s'.handle) (ppp_dial (scripted connect_reply) 2000 1 start)
    × After (λ st s'. InMode (is_ok st) s'.handle) (ppp_resume (scripted connect_reply) 2000 start)
    × After (λ _ s'. InMode false s'.handle) (ppp_hangup (scripted connect_reply) 2000 start)
    × After (λ _ s'. InMode false s'.handle) (ppp_disconnect (scripted connect_reply) 2000 start)
from_command_mode_example =
    from_command_mode (scripted connect_reply) 2000 1 start fresh-IsValid refl

from_data_mode_example :
    After
      (λ st s'. InMode (not (has_left st)) s'.handle)
      (ppp_escape (scripted no_carrier) 2000 in_data)
    × After Hung (ppp_disconnect (scripted no_carrier) 2000 in_data)
    × (1 ≤ 1 → 1 ≤ 16 → ppp_dial (scripted no_carrier) 2000 1 in_data ≡ some (err_busy, in_data))
    × (ppp_resume (scripted no_carrier) 2000 in_data ≡ some (err_busy, in_data))
    × (ppp_hangup (scripted no_carrier) 2000 in_data ≡ some (err_param, in_data))
from_data_mode_example = from_data_mode (scripted no_carrier) 2000 1 in_data in_data-IsValid refl
