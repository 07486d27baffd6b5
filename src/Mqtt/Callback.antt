-- ===== src/Mqtt/Callback.antt =====
-- ec200_mqtt_set_message_cb with the dispatch of the AT engine: how a publication reaches mqtt_recv_urc.
use ec200_at_abstraction.Prelude.{
  ◌≡◌, ◌≢◌, refl, sym, ap, ◌∙◌, ◌⊎◌, inl, inr, Bool, true, false, not, List, [], ◌∷◌, Option, none,
  some, if◌then◌else◌, if_true, if_false, Bool-cases,
}
use mathlib.Core.Path.{subst}
use ec200_at_abstraction.Text.{Text, codes, text_eq, starts_with}
use ec200_at_abstraction.Text.Laws.{text_eq→≡, text_eq_refl}
use ec200_at_abstraction.Handle.{
  Handle, Platform, Sys, UrcEntry, Ptr, is_null, Status, ok, err_overflow,
}
use ec200_at_abstraction.At.Urc.{
  entry_matches, entry_has, find_handler, call_entry, dispatch_registered_urc, register_in,
  register_urc, replace_entry, fill_entry,
}
use ec200_at_abstraction.At.Table.{
  lookup, Unique, Bound, Full, differs, bound_has, Registered, register_urc-Registered,
}
use ec200_at_abstraction.Mqtt.Session.{mqtt_set_message_cb}

-- Of the registered prefixes only `q` begins the line.
abbrev pub Sole : Text → Text → List UrcEntry → Type 0
Sole q line table = (r : Text) → r ≢ q → starts_with r line ≡ true → lookup r table ≡ none

-- The handler and the context of an entry that was found.
abbrev target : Option UrcEntry → Option (Ptr × Ptr)
target none = none
target (some e) = some (e.handler, e.ctx)

entry_matches_own :
    (q line : Text) (e : UrcEntry)
    → starts_with q line ≡ true
    → entry_has q e ≡ true
    → entry_matches line e ≡ true
unfolding entry_matches entry_has
entry_matches_own q line e begins has = by_prefix e.prefix has
  where
    by_prefix :
        (o : Option Text)
        → (elim o [ none ↦ false | some r ↦ text_eq r q ]) ≡ true
        → (elim o [ none ↦ false | some r ↦ starts_with r line ]) ≡ true
    by_prefix none h = cc
    by_prefix (some r) h = ap (λ t. starts_with t line) (text_eq→≡ r q h) ∙ begins

entry_matches_other :
    (q line : Text) (e : UrcEntry)
    → ((r : Text) → r ≢ q → starts_with r line ≡ true → entry_has r e ≡ false)
    → entry_has q e ≡ false
    → entry_matches line e ≡ false
unfolding entry_matches entry_has
entry_matches_other q line e sole lacks = by_prefix e.prefix sole lacks
  where
    by_prefix :
        (o : Option Text)
        → ((r : Text)
            → r ≢ q
            → starts_with r line ≡ true
            → (elim o [ none ↦ false | some t ↦ text_eq t r ]) ≡ false)
        → (elim o [ none ↦ false | some r ↦ text_eq r q ]) ≡ false
        → (elim o [ none ↦ false | some r ↦ starts_with r line ]) ≡ false
    by_prefix none k h = refl
    by_prefix (some r) k h = elim (Bool-cases (starts_with r line)) [
      | inr stops ↦ stops
      | inl begins ↦ absurd (
          differs (text_eq_refl r)
            (k r (λ same. differs (text_eq_refl q) (ap (λ t. text_eq t q) (sym same) ∙ h)) begins))
    ]

lookup-tail :
    (q : Text) (e : UrcEntry) (table : List UrcEntry)
    → lookup q (e ∷ table) ≡ none
    → lookup q table ≡ none
lookup-tail q e table l = sym (if_false (entry_has q e) _ _ (bound_has q e table l)) ∙ l

find_handler-lookup :
    (q line : Text) (table : List UrcEntry)
    → starts_with q line ≡ true
    → Sole q line table
    → target (find_handler line table) ≡ lookup q table
unfolding find_handler
find_handler-lookup q line [] begins sole = refl
find_handler-lookup q line (e ∷ table) begins sole = elim (Bool-cases (entry_has q e)) [
  | inl has ↦
      ap target (if_true (entry_matches line e) _ _ (entry_matches_own q line e begins has))
      ∙ sym (if_true (entry_has q e) _ _ has)
  | inr lacks ↦
      ap target (
        if_false (entry_matches line e) _ _
          (entry_matches_other q line e (λ r d b. bound_has r e table (sole r d b)) lacks))
      ∙ find_handler-lookup q line table begins (λ r d b. lookup-tail r e table (sole r d b))
      ∙ sym (if_false (entry_has q e) _ _ lacks)
]

module _ {W : Type 0} (p : Platform W) where
  call_entry-target :
      (found : Option UrcEntry) (f c : Ptr) (line : Text) (s : Sys W)
      → target found ≡ some (f, c)
      → is_null f ≡ false
      → call_entry p found line s ≡ (true, record s { world = p.urc f line c s.world })
  unfolding call_entry
  call_entry-target none f c line s e n = cc
  call_entry-target (some entry) f c line s e n =
      subst
        (λ (v : Ptr × Ptr).
          reached (is_null v.0) v.0 v.1 ≡ (true, record s { world = p.urc f line c s.world }))
        (sym (ap (λ (o : Option (Ptr × Ptr)). elim o [ none ↦ (f, c) | some v ↦ v ]) e))
        (ap (λ b. reached b f c) n)
    where
      reached : Bool → Ptr → Ptr → Bool × Sys W
      reached null f c = (true, if not null then record s { world = p.urc f line c s.world } else s)

  -- A line goes to the handler that its prefix is bound to.
  dispatch_registered_urc-lookup :
      (q line : Text) (f c : Ptr) (s : Sys W)
      → starts_with q line ≡ true
      → Sole q line s.handle.urc_table
      → lookup q s.handle.urc_table ≡ some (f, c)
      → is_null f ≡ false
      → dispatch_registered_urc p line s ≡ (true, record s { world = p.urc f line c s.world })
  unfolding dispatch_registered_urc
  dispatch_registered_urc-lookup q line f c s begins sole l n =
      call_entry-target (find_handler line s.handle.urc_table) f c line s
        (find_handler-lookup q line s.handle.urc_table begins sole ∙ l) n

abbrev pub recv_prefix : Text
recv_prefix = codes "+QMTRECV:"

-- What ec200_mqtt_set_message_cb leaves: the callback is set, and publications are bound to mqtt_recv_urc
-- with the handle; or they are bound to nothing, because the table is full.
abbrev Subscribed : Ptr → Ptr → Ptr → Handle → Handle → Type 0
Subscribed recv_urc self callback h h' =
    (h'.mqtt_msg_cb ≡ callback)
    × (Bound recv_prefix (some (recv_urc, self)) h.urc_table h'.urc_table
        ⊎ ((h'.urc_table ≡ h.urc_table)
            × (lookup recv_prefix h.urc_table ≡ none)
            × Full h.urc_table))

register_in-mqtt_msg_cb :
    (prefix : Text) (handler ctx : Ptr) (h : Handle)
    → (register_in prefix handler ctx h).1.mqtt_msg_cb ≡ h.mqtt_msg_cb
unfolding register_in
register_in-mqtt_msg_cb prefix handler ctx h =
    by_loops (replace_entry prefix handler ctx h.urc_table)
      (fill_entry (record { prefix = some prefix; handler = handler; ctx = ctx }) h.urc_table)
  where
    by_loops :
        (first second : Option (List UrcEntry))
        → (elim first as (λ _. Status × Handle) [
          | some table ↦ (ok, record h { urc_table = table })
          | none ↦ elim second [
            | some table ↦ (ok, record h { urc_table = table })
            | none ↦ (err_overflow, h)
          ]
        ]).1.mqtt_msg_cb
          ≡ h.mqtt_msg_cb
    by_loops (some table) second = refl
    by_loops none (some table) = refl
    by_loops none none = refl

Subscribed-of_Registered :
    (recv_urc self callback : Ptr) (h : Handle) (r : Status × Handle)
    → Registered recv_prefix recv_urc self (record h { mqtt_msg_cb = callback }) r
    → r.1.mqtt_msg_cb ≡ callback
    → Subscribed recv_urc self callback h r.1
Subscribed-of_Registered recv_urc self callback h (ok, h') bound cb = (cb, inl bound)
Subscribed-of_Registered recv_urc self callback h (st, h') (_, same, lacks, full) cb =
    (cb, inr (ap (λ (h : Handle). h.urc_table) same, lacks, full))

mqtt_set_message_cb-Subscribed :
    (recv_urc self callback : Ptr) (h : Handle)
    → is_null recv_urc ≡ false
    → is_null callback ≡ false
    → Unique h.urc_table
    → Subscribed recv_urc self callback h (mqtt_set_message_cb recv_urc self callback h)
unfolding mqtt_set_message_cb register_urc
mqtt_set_message_cb-Subscribed recv_urc self callback h given set unique =
    let h' : Handle = record h { mqtt_msg_cb = callback } in
    subst (λ (h'' : Handle). Subscribed recv_urc self callback h h'')
      (sym (if_false (is_null callback) _ _ set))
      (Subscribed-of_Registered recv_urc self callback h
        (register_urc (some recv_prefix) recv_urc self h')
        (register_urc-Registered b'+' (codes "QMTRECV:") recv_urc self h' given unique)
        (ap (λ (r : Status × Handle). r.1.mqtt_msg_cb) (if_false (is_null recv_urc) _ _ given)
          ∙ register_in-mqtt_msg_cb recv_prefix recv_urc self h'))

-- With the handle `h'` the line is handed to mqtt_recv_urc, with the pointer to the handle.
abbrev pub Routed : {W : Type 0} → Platform W → Ptr → Ptr → Text → Sys W → Handle → Type 0
Routed p recv_urc self line s h' =
    dispatch_registered_urc p line (record s { handle = h' })
    ≡ (true, record { handle = h'; world = p.urc recv_urc line self s.world })

-- A handler for publications is set on a table that has room.
routed :
    {W : Type 0} (p : Platform W) (recv_urc self callback : Ptr) (line : Text) (s : Sys W)
    (h' : Handle)
    → is_null recv_urc ≡ false
    → (Full s.handle.urc_table → ⊥)
    → starts_with recv_prefix line ≡ true
    → Sole recv_prefix line s.handle.urc_table
    → Subscribed recv_urc self callback s.handle h'
    → Routed p recv_urc self line s h'
routed p recv_urc self callback line s h' given room begins sole (_, inl bound) =
    dispatch_registered_urc-lookup p recv_prefix line recv_urc self (record s { handle = h' })
      begins (λ r d b. bound.others r d ∙ sole r d b) bound.bound given
routed p recv_urc self callback line s h' given room begins sole (_, inr (_, _, full)) =
    absurd (room full)

-- On a table in which no prefix stands twice and not every slot is taken, behind
-- ec200_mqtt_set_message_cb with a callback the dispatch of a line that begins with "+QMTRECV:", and with
-- no other registered prefix, calls mqtt_recv_urc with the line and the handle, and nothing else; neither
-- pointer is NULL.
pub mqtt_set_message_cb-Routed :
    {W : Type 0} (p : Platform W) (recv_urc self callback : Ptr) (line : Text) (s : Sys W)
    → is_null recv_urc ≡ false
    → is_null callback ≡ false
    → Unique s.handle.urc_table
    → (Full s.handle.urc_table → ⊥)
    → starts_with recv_prefix line ≡ true
    → Sole recv_prefix line s.handle.urc_table
    → Routed p recv_urc self line s (mqtt_set_message_cb recv_urc self callback s.handle)
mqtt_set_message_cb-Routed p recv_urc self callback line s given set unique room begins sole =
    routed p recv_urc self callback line s (mqtt_set_message_cb recv_urc self callback s.handle)
      given room begins sole
      (mqtt_set_message_cb-Subscribed recv_urc self callback s.handle given set unique)
