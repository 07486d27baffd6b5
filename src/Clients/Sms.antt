-- ===== src/Clients/Sms.antt =====
-- src/ec200_sms.c: what its functions keep of the handle.
use ec200_at_abstraction.Prelude.{
  ℕ, ℤ, List, [], ◌∷◌, Option, none, some, ◌==◌, option-elim, pos, negsuc, ltb, leb, length,
}
use ec200_at_abstraction.Sms.Parse.{Cnmi, Storage}
use ec200_at_abstraction.Sms.Header.{SmsMessage, max_phone_num_len, max_sms_text_len}
use ec200_at_abstraction.Handle.{Status, Platform, ok, err_param}
use ec200_at_abstraction.Text.{Text, cut}
use ec200_at_abstraction.Sms.Inbox.{list_received, sms_read, sms_list, list_messages}
use ec200_at_abstraction.Sms.Settings.{
  sms_set_format, sms_delete, sms_delete_all, sms_set_storage, sms_get_storage, sms_set_smsc,
  sms_get_smsc, sms_send_stored, sms_set_indication, sms_get_indication,
}
use ec200_at_abstraction.Sms.Submit.{
  submit_text, submit_answer, sms_submit, sms_send, sms_write, sms_ctrl_z,
}
use ec200_at_abstraction.At.Valid.{After}
use ec200_at_abstraction.At.Guarded.{guarded_rules}
use ec200_at_abstraction.At.Guarded.Rules.{
  Unharmed, Guarded, Guarded-pure, Guarded-bind, Guarded-test, Guarded-if_ok_else, Guarded-at_send,
}

module _ {W : Type 0} (p : Platform W) (fuel : ℕ) where
  list_received-Guarded :
      (msgs : List SmsMessage) (answer : Status × Text)
      → Guarded (list_received {W = W} msgs answer)
  unfolding list_received
  list_received-Guarded msgs (ok, resp) = record {
    at = λ before s v.
        option-elim (After (λ _ s'. Unharmed before s'.handle)) (list_messages resp msgs) _ _
          (λ _. tt) λ l _. v;
  }
  list_received-Guarded msgs (st, resp) = record { at = λ before s v. v }

  sms_read-Guarded : (arg : ℤ) (msg : SmsMessage) → Guarded (sms_read p fuel arg msg)
  unfolding sms_read
  sms_read-Guarded (negsuc n) msg = search guarded_rules depth 24
  sms_read-Guarded (pos index) msg = search guarded_rules depth 24

  sms_list-Guarded :
      (stat : ℕ) (msgs : List SmsMessage) (before : ℕ) → Guarded (sms_list p fuel stat msgs before)
  unfolding sms_list
  sms_list-Guarded stat msgs before = record {
    at =
        (Guarded-test (length msgs == 0) _ _ (
          Guarded-test (ltb 4 stat) _ _ (
            Guarded-bind _ _
              (Guarded-bind _ _ (Guarded-at_send p fuel _ _ _) λ (st, _). Guarded-pure _)
              (list_received-Guarded msgs)))).at;
  }

  sms_set_format-Guarded : (format : ℕ) → Guarded (sms_set_format p fuel format)
  unfolding sms_set_format
  sms_set_format-Guarded format = search guarded_rules depth 24

  sms_delete-Guarded : (arg : ℤ) → Guarded (sms_delete p fuel arg)
  unfolding sms_delete
  sms_delete-Guarded (negsuc n) = search guarded_rules depth 24
  sms_delete-Guarded (pos index) = search guarded_rules depth 24

  sms_delete_all-Guarded : (flag : ℕ) → Guarded (sms_delete_all p fuel flag)
  unfolding sms_delete_all
  sms_delete_all-Guarded flag = search guarded_rules depth 24

  sms_set_storage-Guarded :
      (read_delete : ℕ) (write_send : ℕ) (receive : ℕ) (usage : Option Storage)
      → Guarded (sms_set_storage p fuel read_delete write_send receive usage)
  unfolding sms_set_storage
  sms_set_storage-Guarded read_delete write_send receive usage = search guarded_rules depth 24

  sms_get_storage-Guarded : (out : Option Storage) → Guarded (sms_get_storage p fuel out)
  unfolding sms_get_storage
  sms_get_storage-Guarded none = search guarded_rules depth 24
  sms_get_storage-Guarded (some out) = search guarded_rules depth 24

  sms_set_smsc-Guarded : (number : Option Text) → Guarded (sms_set_smsc p fuel number)
  unfolding sms_set_smsc
  sms_set_smsc-Guarded (some (c ∷ number)) = search guarded_rules depth 24
  sms_set_smsc-Guarded number = search guarded_rules depth 24

  sms_get_smsc-Guarded : (arg : List ℕ) → Guarded (sms_get_smsc p fuel arg)
  unfolding sms_get_smsc
  sms_get_smsc-Guarded [] = search guarded_rules depth 24
  sms_get_smsc-Guarded (c ∷ out) = search guarded_rules depth 24

  sms_send_stored-Guarded : (arg : ℤ) (mr : Option ℤ) → Guarded (sms_send_stored p fuel arg mr)
  unfolding sms_send_stored
  sms_send_stored-Guarded (negsuc n) mr = search guarded_rules depth 24
  sms_send_stored-Guarded (pos index) mr = search guarded_rules depth 24

  sms_set_indication-Guarded : (cfg : Option Cnmi) → Guarded (sms_set_indication p fuel cfg)
  unfolding sms_set_indication
  sms_set_indication-Guarded none = search guarded_rules depth 24
  sms_set_indication-Guarded (some cfg) = search guarded_rules depth 24

  sms_get_indication-Guarded : (cfg : Option Cnmi) → Guarded (sms_get_indication p fuel cfg)
  unfolding sms_get_indication
  sms_get_indication-Guarded none = search guarded_rules depth 24
  sms_get_indication-Guarded (some cfg) = search guarded_rules depth 24

  submit_text-Guarded :
      (op : Text) (number : Text) (text : Text) → Guarded (submit_text p fuel op number text)
  unfolding submit_text
  submit_text-Guarded op number text = search guarded_rules depth 24

  submit_answer-Guarded : (op : Text) (value : Option ℤ) → Guarded (submit_answer p fuel op value)
  unfolding submit_answer
  submit_answer-Guarded op value = search guarded_rules depth 24

  sms_submit-Guarded :
      (op : Text) (number text : Option Text) (value : Option ℤ)
      → Guarded (sms_submit p fuel op number text value)
  unfolding sms_submit
  sms_submit-Guarded op (some (c ∷ number)) (some text) value = record {
    at =
        (Guarded-test (leb max_phone_num_len (length (c ∷ number))) (err_param, value) _
          (Guarded-test (ltb max_sms_text_len (length text)) (err_param, value) _
            (record {
              at = λ before s v.
                  option-elim (After (λ _ s'. Unharmed before s'.handle)) (cut sms_ctrl_z text) _ _
                    (λ _.
                      (Guarded-bind _ _ (submit_text-Guarded op (c ∷ number) text)
                          λ st. Guarded-if_ok_else st value _ (submit_answer-Guarded op value)).at
                        before s v)
                    λ found _. v;
            }))).at;
  }
  sms_submit-Guarded op number text value = record { at = λ before s v. v }

  sms_send-Guarded :
      (number : Option Text) (text : Option Text) → Guarded (sms_send p fuel number text)
  unfolding sms_send
  sms_send-Guarded number text = search (guarded_rules, sms_submit-Guarded) depth 24

  sms_write-Guarded :
      (number : Option Text) (text : Option Text) (index : Option ℤ)
      → Guarded (sms_write p fuel number text index)
  unfolding sms_write
  sms_write-Guarded number text index = search (guarded_rules, sms_submit-Guarded) depth 24

  -- Every function of the file that sends a command.
  abbrev pub SmsGuarded : Type 0
  SmsGuarded =
      ((arg : ℤ) (msg : SmsMessage) → Guarded (sms_read p fuel arg msg))
      × ((stat : ℕ) (msgs : List SmsMessage) (before : ℕ)
          → Guarded (sms_list p fuel stat msgs before))
      × ((format : ℕ) → Guarded (sms_set_format p fuel format))
      × ((arg : ℤ) → Guarded (sms_delete p fuel arg))
      × ((flag : ℕ) → Guarded (sms_delete_all p fuel flag))
      × ((read_delete : ℕ) (write_send : ℕ) (receive : ℕ) (usage : Option Storage)
          → Guarded (sms_set_storage p fuel read_delete write_send receive usage))
      × ((out : Option Storage) → Guarded (sms_get_storage p fuel out))
      × ((number : Option Text) → Guarded (sms_set_smsc p fuel number))
      × ((arg : List ℕ) → Guarded (sms_get_smsc p fuel arg))
      × ((arg : ℤ) (mr : Option ℤ) → Guarded (sms_send_stored p fuel arg mr))
      × ((cfg : Option Cnmi) → Guarded (sms_set_indication p fuel cfg))
      × ((cfg : Option Cnmi) → Guarded (sms_get_indication p fuel cfg))
      × ((number : Option Text) (text : Option Text) → Guarded (sms_send p fuel number text))
      × ((number : Option Text) (text : Option Text) (index : Option ℤ)
          → Guarded (sms_write p fuel number text index))

  pub sms_calls-SmsGuarded : SmsGuarded
  sms_calls-SmsGuarded = (
    sms_read-Guarded, sms_list-Guarded, sms_set_format-Guarded, sms_delete-Guarded,
    sms_delete_all-Guarded, sms_set_storage-Guarded, sms_get_storage-Guarded, sms_set_smsc-Guarded,
    sms_get_smsc-Guarded, sms_send_stored-Guarded, sms_set_indication-Guarded,
    sms_get_indication-Guarded, sms_send-Guarded, sms_write-Guarded,
  )
