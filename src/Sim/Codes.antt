-- ===== src/Sim/Codes.antt =====
-- The codes of +CPIN and how ec200_sim_get_status reads them.
use ec200_at_abstraction.Prelude.{◌≡◌, refl, ◌≢◌, ap, ◌∙◌, [], ◌∷◌, ◌++◌, false, ◌==◌, arith}
use ec200_at_abstraction.Text.{Text, codes, starts_with, skip_spaces}
use ec200_at_abstraction.At.Printed.{after_colon-append}
use ec200_at_abstraction.Sim.Card.{
  SimStatus, sim_ready, sim_pin_required, sim_puk_required, sim_pin2_required, sim_puk2_required,
  sim_not_inserted, sim_unknown, resp_value, sim_status,
}

-- The code of a status that the module reports.
abbrev pub sim_code : SimStatus → Text
sim_code sim_ready = codes "READY"
sim_code sim_pin_required = codes "SIM PIN"
sim_code sim_puk_required = codes "SIM PUK"
sim_code sim_pin2_required = codes "SIM PIN2"
sim_code sim_puk2_required = codes "SIM PUK2"
sim_code sim_not_inserted = codes "NOT INSERTED"
sim_code sim_unknown = []

-- The text does not go on with a 2.
abbrev pub NoTwo : Text → Type 0
NoTwo [] = Unit
NoTwo (c ∷ s) = (c == b'2') ≡ false

sim_status-sim_code :
    (k : SimStatus) (rest : Text)
    → k ≢ sim_unknown
    → NoTwo rest
    → sim_status (sim_code k ++ rest) ≡ k
unfolding sim_status starts_with
sim_status-sim_code sim_ready rest n h = refl
sim_status-sim_code sim_pin_required [] n h = refl
sim_status-sim_code sim_pin_required (c ∷ rest) n h = ground (arith, h)
sim_status-sim_code sim_puk_required [] n h = refl
sim_status-sim_code sim_puk_required (c ∷ rest) n h = ground (arith, h)
sim_status-sim_code sim_pin2_required rest n h = refl
sim_status-sim_code sim_puk2_required rest n h = refl
sim_status-sim_code sim_not_inserted rest n h = refl
sim_status-sim_code sim_unknown rest n h = absurd (n refl)

-- On the reply line +CPIN: <code>, and whatever follows it but a 2, ec200_sim_get_status reads the status
-- of the code, for every status but EC200_SIM_UNKNOWN: SIM PIN2 and SIM PUK2 are not taken for SIM PIN
-- and SIM PUK.
pub sim_status-resp_value :
    (k : SimStatus) (rest : Text)
    → k ≢ sim_unknown
    → NoTwo rest
    → sim_status (resp_value (codes "+CPIN: " ++ (sim_code k ++ rest))) ≡ k
unfolding resp_value skip_spaces
sim_status-resp_value k rest n h =
    ap (λ s. sim_status (skip_spaces s))
      (after_colon-append (codes "+CPIN") (b' ' ∷ (sim_code k ++ rest)) (omega arith))
    ∙ ap sim_status (no_space k n)
    ∙ sim_status-sim_code k rest n h
  where
    no_space :
        (k : SimStatus) → k ≢ sim_unknown → skip_spaces (sim_code k ++ rest) ≡ sim_code k ++ rest
    no_space sim_ready n = refl
    no_space sim_pin_required n = refl
    no_space sim_puk_required n = refl
    no_space sim_pin2_required n = refl
    no_space sim_puk2_required n = refl
    no_space sim_not_inserted n = refl
    no_space sim_unknown n = absurd (n refl)
