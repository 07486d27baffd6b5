-- ===== src/At/Urc.antt =====
-- src/ec200_at.c: the table of URC handlers and its dispatch.
use ec200_at_abstraction.Prelude.{
  Bool, true, false, not, List, [], ◌∷◌, Option, none, some, if◌then◌else◌,
}
use ec200_at_abstraction.Text.{Text, text_eq, starts_with}
use ec200_at_abstraction.Handle.{
  Handle, Platform, Sys, UrcEntry, Ptr, is_null, Status, ok, err_param, err_overflow,
}

-- e->prefix != NULL && strncmp(line, e->prefix, strlen(e->prefix)) == 0
unfoldable pub entry_matches : Text → UrcEntry → Bool
entry_matches line e = elim e.prefix [ none ↦ false | some prefix ↦ starts_with prefix line ]

-- e->prefix != NULL && strcmp(e->prefix, prefix) == 0
unfoldable pub entry_has : Text → UrcEntry → Bool
entry_has prefix e = elim e.prefix [ none ↦ false | some q ↦ text_eq q prefix ]

unfoldable pub entry_free : UrcEntry → Bool
entry_free e = elim e.prefix [ none ↦ true | some q ↦ false ]

-- The loop of dispatch_registered_urc: the first entry that matches.
unfoldable pub find_handler : Text → List UrcEntry → Option UrcEntry
find_handler line [] = none
find_handler line (e ∷ table) = if entry_matches line e then some e else find_handler line table

module _ {W : Type 0} (p : Platform W) where
  -- What dispatch_registered_urc does with the entry found.
  unfoldable pub call_entry : Option UrcEntry → Text → Sys W → Bool × Sys W
  call_entry none line s = (false, s)
  call_entry (some e) line s =
      let called : Sys W = record s { world = p.urc e.handler line e.ctx s.world } in
      (true, if not (is_null e.handler) then called else s)

  -- dispatch_registered_urc
  unfoldable pub dispatch_registered_urc : Text → Sys W → Bool × Sys W
  unfolding call_entry
  dispatch_registered_urc line s = call_entry (find_handler line s.handle.urc_table) line s

-- The two loops of ec200_at_register_urc. `none`: the loop ran through without a return.
unfoldable pub replace_entry : Text → Ptr → Ptr → List UrcEntry → Option (List UrcEntry)
replace_entry prefix handler ctx [] = none
replace_entry prefix handler ctx (e ∷ table) =
    if entry_has prefix e
    then some ((record e { handler = handler; ctx = ctx }) ∷ table)
    else elim (replace_entry prefix handler ctx table) [ none ↦ none | some t ↦ some (e ∷ t) ]

unfoldable pub fill_entry : UrcEntry → List UrcEntry → Option (List UrcEntry)
fill_entry new [] = none
fill_entry new (e ∷ table) =
    if entry_free e
    then some (new ∷ table)
    else elim (fill_entry new table) [ none ↦ none | some t ↦ some (e ∷ t) ]

-- The loop of ec200_at_unregister_urc.
unfoldable pub clear_entry : Text → List UrcEntry → Option (List UrcEntry)
clear_entry prefix [] = none
clear_entry prefix (e ∷ table) =
    if entry_has prefix e
    then some ((record { prefix = none; handler = 0; ctx = 0 }) ∷ table)
    else elim (clear_entry prefix table) [ none ↦ none | some t ↦ some (e ∷ t) ]

unfoldable pub register_in : Text → Ptr → Ptr → Handle → Status × Handle
register_in prefix handler ctx h = elim (replace_entry prefix handler ctx h.urc_table) [
  | some table ↦ (ok, record h { urc_table = table })
  | none ↦
      elim (fill_entry (record { prefix = some prefix; handler = handler; ctx = ctx })
        h.urc_table) [
          | some table ↦ (ok, record h { urc_table = table })
          | none ↦ (err_overflow, h)
        ]
]

-- ec200_at_register_urc; a NULL prefix is `none`.
unfoldable pub register_urc : Option Text → Ptr → Ptr → Handle → Status × Handle
unfolding register_in
register_urc none handler ctx h = (err_param, h)
register_urc (some []) handler ctx h = (err_param, h)
register_urc (some (c ∷ prefix)) handler ctx h =
    if is_null handler then (err_param, h) else register_in (c ∷ prefix) handler ctx h

-- ec200_at_unregister_urc
unfoldable pub unregister_urc : Option Text → Handle → Status × Handle
unregister_urc none h = (err_param, h)
unregister_urc (some prefix) h = elim (clear_entry prefix h.urc_table) [
  | some table ↦ (ok, record h { urc_table = table })
  | none ↦ (err_param, h)
]
