-- ===== src/Tests/Device.antt =====
-- Power, initialisation and the URC table at concrete inputs.
use ec200_at_abstraction.Prelude.{◌≡◌, refl, ◌∷◌, none, some, true, replicate, arith}
use ec200_at_abstraction.Text.{codes, c_str}
use ec200_at_abstraction.Handle.{Handle, ok, is_ok}
use ec200_at_abstraction.At.Urc.{register_urc, unregister_urc, entry_has}
use ec200_at_abstraction.At.Table.{
  Unique, Registered, Unregistered, register_urc-Registered, unregister_urc-Unregistered,
}
use ec200_at_abstraction.At.Valid.{After}
use ec200_at_abstraction.Core.{init, store_line}
use ec200_at_abstraction.Core.Init.{Fresh, init-Fresh}
use ec200_at_abstraction.Core.Strings.{Stored, store_line-Stored}
use ec200_at_abstraction.Power.Timer.{psm_encode, units_of}
use ec200_at_abstraction.Power.RoundTrip.{EncodedPtr, psm_encode_lem}
use ec200_at_abstraction.Power.Commands.{psm_parse}
use ec200_at_abstraction.Power.Echo.{psm_reply, psm_parse_lem}
use ec200_at_abstraction.Tests.Uart.{scripted, fresh, start}
use ec200_at_abstraction.Tests.Engine.{csq_reply}

-- A handle with one registration.
abbrev one_handler : Handle
one_handler = record fresh {
  urc_table =
      (record { prefix = some (codes "RING"); handler = 5; ctx = 6 })
      ∷ replicate 7 (record { prefix = none; handler = 0; ctx = 0 });
}

one_handler-Unique : Unique one_handler.urc_table
unfolding entry_has
one_handler-Unique = (
  (λ q h. refl),
  (
    (λ q h. cc),
    ((λ q h. cc), ((λ q h. cc), ((λ q h. cc), ((λ q h. cc), ((λ q h. cc), ((λ q h. cc), tt)))))),
  ),
)

register_urc-Registered_example :
    Registered
      (codes "RINGING")
      7
      8
      one_handler
      (register_urc (some (codes "RINGING")) 7 8 one_handler)
register_urc-Registered_example =
    register_urc-Registered b'R' (codes "INGING") 7 8 one_handler refl one_handler-Unique

unregister_urc-Unregistered_example :
    Unregistered (codes "RING") one_handler (unregister_urc (some (codes "RING")) one_handler)
unregister_urc-Unregistered_example =
    unregister_urc-Unregistered (codes "RING") one_handler one_handler-Unique

psm_encode_lem_example :
    EncodedPtr true 7200 (replicate 9 7) (psm_encode 7200 (units_of true) (some (replicate 9 7)))
psm_encode_lem_example = psm_encode_lem true 7200 (replicate 9 7) (omega arith)

psm_parse_lem_example :
    let (st, cfg) = psm_parse (psm_reply (codes "00100010") (codes "00000101")) in
    (st ≡ ok)
    × (cfg.enabled ≡ true)
    × (c_str cfg.periodic_tau ≡ codes "00100010")
    × (c_str cfg.active_time ≡ codes "00000101")
psm_parse_lem_example =
    psm_parse_lem (codes "00100010") (codes "00000101") (ground arith) (ground arith) (omega arith)
      (omega arith)

init-Fresh_example :
    After (λ st s'. Fresh (is_ok st) s'.handle) (init (scripted csq_reply) 2000 1 2 3 0 start)
init-Fresh_example = init-Fresh (scripted csq_reply) 2000 1 2 3 0 start refl refl refl

store_line-Stored_example :
    Stored (codes "EC200U\nOK") (replicate 16 7) (store_line (codes "EC200U\nOK") (replicate 16 7))
store_line-Stored_example = store_line-Stored (codes "EC200U\nOK") (replicate 16 7) (ground arith)
