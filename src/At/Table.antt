-- ===== src/At/Table.antt =====
-- The URC table as a finite map from prefixes to handlers.
use ec200_at_abstraction.Prelude.{
  ℕ, ◌≡◌, ◌≢◌, refl, sym, ◌∙◌, ap, Bool, true, false, List, [], ◌∷◌, Option, none, some,
  if◌then◌else◌, if-elim, if_true, if_false, Bool-cases, inl, inr, arith,
}
use ec200_at_abstraction.Text.{Text, text_eq}
use ec200_at_abstraction.Text.Laws.{text_eq→≡, text_eq_refl}
use ec200_at_abstraction.Handle.{
  Handle, UrcEntry, Ptr, is_null, Status, ok, err_param, err_overflow,
}
use ec200_at_abstraction.At.Urc.{
  entry_has, entry_free, replace_entry, fill_entry, clear_entry, register_in, register_urc,
  unregister_urc,
}

-- The handler and the context that a prefix is bound to.
abbrev pub lookup : Text → List UrcEntry → Option (Ptr × Ptr)
lookup q [] = none
lookup q (e ∷ table) = if entry_has q e then some (e.handler, e.ctx) else lookup q table

-- No prefix stands in two entries.
abbrev pub Unique : List UrcEntry → Type 0
Unique [] = Unit
Unique (e ∷ table) = ((q : Text) → entry_has q e ≡ true → lookup q table ≡ none) × Unique table

-- `after` is `before` with `prefix` bound to `v`.
pub record Bound (prefix : Text) (v : Option (Ptr × Ptr)) (before after : List UrcEntry)
    : Type 0 where
  pub bound : lookup prefix after ≡ v
  pub others : (q : Text) → q ≢ prefix → lookup q after ≡ lookup q before
  pub unique : Unique after

pub differs : {b : Bool} → b ≡ true → b ≡ false → ⊥
differs h k = absurd (ground (arith, h, k))

-- One entry has one prefix.
one_prefix : (p q : Text) (e : UrcEntry) → entry_has p e ≡ true → entry_has q e ≡ true → q ≡ p
unfolding entry_has
one_prefix p q e h k = by_prefix e.prefix h k
  where
    by_prefix :
        (o : Option Text)
        → (elim o [ none ↦ false | some r ↦ text_eq r p ]) ≡ true
        → (elim o [ none ↦ false | some r ↦ text_eq r q ]) ≡ true
        → q ≡ p
    by_prefix none h k = cc
    by_prefix (some r) h k = sym (text_eq→≡ r q k) ∙ text_eq→≡ r p h

-- Behind an entry without the prefix the map is what it is in the rest.
Bound-cons :
    (p : Text) (v : Option (Ptr × Ptr)) (e : UrcEntry) (before after : List UrcEntry)
    → entry_has p e ≡ false
    → Unique (e ∷ before)
    → Bound p v before after
    → Bound p v (e ∷ before) (e ∷ after)
Bound-cons p v e before after n (first, rest) b = record {
  bound = if_false (entry_has p e) _ _ n ∙ b.bound;
  others = λ q d. ap (λ x. if entry_has q e then some (e.handler, e.ctx) else x) (b.others q d);
  unique = (
    λ q h. b.others q (λ same. absurd (differs h (ap (λ r. entry_has r e) same ∙ n))) ∙ first q h,
    b.unique,
  );
}

no_other : (p q : Text) (e : UrcEntry) → entry_has p e ≡ true → q ≢ p → entry_has q e ≡ false
no_other p q e h d = elim (Bool-cases (entry_has q e)) [
  | inl k ↦ absurd (d (one_prefix p q e h k))
  | inr k ↦ k
]

-- The head of the table, which has no prefix but `p`, is set to `new`, which has none either.
Bound-head :
    (p : Text) (v : Option (Ptr × Ptr)) (e new : UrcEntry) (table : List UrcEntry)
    → ((q : Text) → q ≢ p → entry_has q e ≡ false)
    → ((q : Text) → q ≢ p → entry_has q new ≡ false)
    → lookup p (new ∷ table) ≡ v
    → lookup p table ≡ none
    → Unique table
    → Bound p v (e ∷ table) (new ∷ table)
Bound-head p v e new table old now b l rest = record {
  bound = b;
  others = λ q d.
      if_false (entry_has q new) _ _ (now q d) ∙ sym (if_false (entry_has q e) _ _ (old q d));
  unique = (unique_head, rest);
}
  where
    unique_head : (q : Text) → entry_has q new ≡ true → lookup q table ≡ none
    unique_head q h = elim (Bool-cases (text_eq q p)) [
      | inl k ↦ ap (λ r. lookup r table) (text_eq→≡ q p k) ∙ l
      | inr k ↦ absurd (
          differs h (now q λ same. differs (text_eq_refl p) (ap (λ r. text_eq r p) (sym same) ∙ k)))
    ]

-- What a loop over the table returns: a table in which the prefix is bound to `v`, or nothing, because
-- `Missing` holds.
abbrev Updated :
    Text → Option (Ptr × Ptr) → Type 0 → List UrcEntry → Option (List UrcEntry) → Type 0
Updated p v Missing before none = Missing
Updated p v Missing before (some after) = Bound p v before after

-- The loop goes on behind an entry without the prefix.
Updated-cons :
    (p : Text) (v : Option (Ptr × Ptr)) (M N : Type 0) (e : UrcEntry) (before : List UrcEntry)
    (r : Option (List UrcEntry))
    → entry_has p e ≡ false
    → Unique (e ∷ before)
    → (M → N)
    → Updated p v M before r
    → Updated p v N (e ∷ before) (elim r [ none ↦ none | some t ↦ some (e ∷ t) ])
Updated-cons p v M N e before none n u k h = k h
Updated-cons p v M N e before (some after) n u k h = Bound-cons p v e before after n u h

replace_entry-Updated :
    (p : Text) (handler ctx : Ptr) (table : List UrcEntry)
    → Unique table
    → Updated p
        (some (handler, ctx))
        (lookup p table ≡ none)
        table
        (replace_entry p handler ctx table)
unfolding replace_entry entry_has
replace_entry-Updated p handler ctx [] u = refl
replace_entry-Updated p handler ctx (e ∷ table) (first, rest) =
    if-elim (Updated p (some (handler, ctx)) (lookup p (e ∷ table) ≡ none) (e ∷ table))
      (entry_has p e) _ _
      (λ h.
        Bound-head p _ e (record e { handler = handler; ctx = ctx }) table
          (λ q d. no_other p q e h d) (λ q d. no_other p q e h d) (if_true (entry_has p e) _ _ h)
          (first p h) rest)
      λ h.
        Updated-cons p (some (handler, ctx)) (lookup p table ≡ none) (lookup p (e ∷ table) ≡ none) e
          table (replace_entry p handler ctx table) h (first, rest)
          (λ l. if_false (entry_has p e) _ (lookup p table) h ∙ l)
          (replace_entry-Updated p handler ctx table rest)

clear_entry-Updated :
    (p : Text) (table : List UrcEntry)
    → Unique table
    → Updated p none (lookup p table ≡ none) table (clear_entry p table)
unfolding clear_entry entry_has
clear_entry-Updated p [] u = refl
clear_entry-Updated p (e ∷ table) (first, rest) =
    if-elim (Updated p none (lookup p (e ∷ table) ≡ none) (e ∷ table)) (entry_has p e) _ _
      (λ h.
        Bound-head p none e (record { prefix = none; handler = 0; ctx = 0 }) table
          (λ q d. no_other p q e h d) (λ q d. refl) (first p h) (first p h) rest)
      λ h.
        Updated-cons p none (lookup p table ≡ none) (lookup p (e ∷ table) ≡ none) e table
          (clear_entry p table) h (first, rest)
          (λ l. if_false (entry_has p e) (some (e.handler, e.ctx)) (lookup p table) h ∙ l)
          (clear_entry-Updated p table rest)

-- Every slot is taken.
abbrev pub Full : List UrcEntry → Type 0
Full [] = Unit
Full (e ∷ table) = (entry_free e ≡ false) × Full table

free_has_none : (q : Text) (e : UrcEntry) → entry_free e ≡ true → entry_has q e ≡ false
unfolding entry_free entry_has
free_has_none q e h = by_prefix e.prefix h
  where
    by_prefix :
        (o : Option Text)
        → (elim o [ none ↦ true | some r ↦ false ]) ≡ true
        → (elim o [ none ↦ false | some r ↦ text_eq r q ]) ≡ false
    by_prefix none h = refl
    by_prefix (some r) h = cc

-- A prefix that the map lacks stands in no entry.
pub bound_has :
    (p : Text) (e : UrcEntry) (table : List UrcEntry)
    → lookup p (e ∷ table) ≡ none
    → entry_has p e ≡ false
bound_has p e table l = elim (Bool-cases (entry_has p e)) [
  | inl k ↦ absurd (some_none (sym (if_true (entry_has p e) _ (lookup p table) k) ∙ l))
  | inr k ↦ k
]
  where
    some_none : {v : Ptr × Ptr} → some v ≡ none → ⊥
    some_none h = cc

fill_entry-Updated :
    (p : Text) (handler ctx : Ptr) (table : List UrcEntry)
    → Unique table
    → lookup p table ≡ none
    → Updated p
        (some (handler, ctx))
        (Full table)
        table
        (fill_entry (record { prefix = some p; handler = handler; ctx = ctx }) table)
unfolding fill_entry entry_has
fill_entry-Updated p handler ctx [] u l = tt
fill_entry-Updated p handler ctx (e ∷ table) (first, rest) l =
    let lacks : entry_has p e ≡ false = bound_has p e table l in
    let behind : lookup p table ≡ none = sym (if_false (entry_has p e) _ _ lacks) ∙ l in
    if-elim (Updated p (some (handler, ctx)) (Full (e ∷ table)) (e ∷ table)) (entry_free e) _ _
      (λ h.
        Bound-head p _ e (record { prefix = some p; handler = handler; ctx = ctx }) table
          (λ q d. free_has_none q e h)
          (λ q d.
            no_other p q (record { prefix = some p; handler = handler; ctx = ctx }) (text_eq_refl p)
              d)
          (if_true (text_eq p p) _ _ (text_eq_refl p)) behind rest)
      λ h.
        Updated-cons p (some (handler, ctx)) (Full table) (Full (e ∷ table)) e table
          (fill_entry (record { prefix = some p; handler = handler; ctx = ctx }) table) lacks
          (first, rest) (λ full. (h, full)) (fill_entry-Updated p handler ctx table rest behind)

-- The outcome of ec200_at_register_urc.
abbrev pub Registered : Text → Ptr → Ptr → Handle → Status × Handle → Type 0
Registered p handler ctx h (ok, h') = Bound p (some (handler, ctx)) h.urc_table h'.urc_table
Registered p handler ctx h (st, h') =
    (st ≡ err_overflow) × (h' ≡ h) × (lookup p h.urc_table ≡ none) × Full h.urc_table

Registered-of_Updated :
    (p : Text) (handler ctx : Ptr) (h : Handle) (first second : Option (List UrcEntry))
    → Unique h.urc_table
    → Updated p (some (handler, ctx)) (lookup p h.urc_table ≡ none) h.urc_table first
    → (lookup p h.urc_table ≡ none
        → Updated p (some (handler, ctx)) (Full h.urc_table) h.urc_table second)
    → Registered p handler ctx h (elim first [
      | some table ↦ (ok, record h { urc_table = table })
      | none ↦ elim second [
        | some table ↦ (ok, record h { urc_table = table })
        | none ↦ (err_overflow, h)
      ]
    ])
Registered-of_Updated p handler ctx h (some table) second u f g = f
Registered-of_Updated p handler ctx h none (some table) u f g = g f
Registered-of_Updated p handler ctx h none none u f g = (refl, refl, f, g f)

-- On a table in which no prefix stands twice, ec200_at_register_urc of a prefix that is not empty and a
-- handler binds the prefix to the handler and its context and leaves every other prefix bound as it was,
-- no prefix standing twice; or it returns EC200_ERR_OVERFLOW with the handle unchanged, the prefix being
-- unbound and every slot taken.
pub register_urc-Registered :
    (c : ℕ) (prefix : Text) (handler ctx : Ptr) (h : Handle)
    → is_null handler ≡ false
    → Unique h.urc_table
    → Registered (c ∷ prefix) handler ctx h (register_urc (some (c ∷ prefix)) handler ctx h)
unfolding register_urc register_in
register_urc-Registered c prefix handler ctx h n u =
    if-elim (Registered (c ∷ prefix) handler ctx h) (is_null handler) _ _
      (λ e. absurd (differs e n))
      λ _.
        Registered-of_Updated (c ∷ prefix) handler ctx h
          (replace_entry (c ∷ prefix) handler ctx h.urc_table)
          (fill_entry (record { prefix = some (c ∷ prefix); handler = handler; ctx = ctx })
            h.urc_table)
          u (replace_entry-Updated (c ∷ prefix) handler ctx h.urc_table u)
          (fill_entry-Updated (c ∷ prefix) handler ctx h.urc_table u)

-- The outcome of ec200_at_unregister_urc.
abbrev pub Unregistered : Text → Handle → Status × Handle → Type 0
Unregistered p h (ok, h') = Bound p none h.urc_table h'.urc_table
Unregistered p h (st, h') = (st ≡ err_param) × (h' ≡ h) × (lookup p h.urc_table ≡ none)

Unregistered-of_Updated :
    (p : Text) (h : Handle) (r : Option (List UrcEntry))
    → Updated p none (lookup p h.urc_table ≡ none) h.urc_table r
    → Unregistered p h
        (elim r [ some table ↦ (ok, record h { urc_table = table }) | none ↦ (err_param, h) ])
Unregistered-of_Updated p h none l = (refl, refl, l)
Unregistered-of_Updated p h (some table) b = b

-- On a table in which no prefix stands twice, ec200_at_unregister_urc unbinds the prefix and leaves every
-- other prefix bound as it was, no prefix standing twice; or it returns EC200_ERR_PARAM with the handle
-- unchanged, the prefix being unbound.
pub unregister_urc-Unregistered :
    (prefix : Text) (h : Handle)
    → Unique h.urc_table
    → Unregistered prefix h (unregister_urc (some prefix) h)
unfolding unregister_urc
unregister_urc-Unregistered prefix h u =
    Unregistered-of_Updated prefix h (clear_entry prefix h.urc_table)
      (clear_entry-Updated prefix h.urc_table u)
