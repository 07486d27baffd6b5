-- ===== src/Clients/Http.antt =====
-- src/ec200_http.c: what its functions keep of the handle.
use ec200_at_abstraction.Prelude.{
  ℕ, ℤ, List, [], ◌∷◌, Option, none, some, zero, suc, ◌-◌, ◌==◌, if◌then◌else◌, get_or,
}
use ec200_at_abstraction.Http.Calls.{
  HttpResponse, http_set_context, http_set_ssl_context, send_url, http_set_url, http_get,
  post_answer, post, http_post, read_confirmed, body_read, read_prompted, http_read, http_stop,
}
use ec200_at_abstraction.At.Raw.{RawRead}
use ec200_at_abstraction.Handle.{
  Status, Platform, ok, Handle, Sys, err_io, err_timeout, err_overflow,
}
use ec200_at_abstraction.Text.{Text}
use ec200_at_abstraction.Http.Body.{
  BodyState, BodyStep, go_on, finish, body_byte, body_result, body_received, body_loop,
  read_body_until_ok,
}
use ec200_at_abstraction.Exec.{Exec, pure}
use ec200_at_abstraction.At.Rx.{slice_of}
use ec200_at_abstraction.At.Valid.{After}
use ec200_at_abstraction.At.Guarded.{guarded_rules}
use ec200_at_abstraction.At.Guarded.Reads.{Guarded-read_raw}
use ec200_at_abstraction.At.Guarded.Rules.{
  Unharmed, Guarded, Guarded-pure, Guarded-bind, Guarded-test,
}

module _ {W : Type 0} (p : Platform W) (fuel : ℕ) where
  http_set_context-Guarded : (ctx_id : ℕ) → Guarded (http_set_context p fuel ctx_id)
  unfolding http_set_context
  http_set_context-Guarded ctx_id = search guarded_rules depth 24

  http_set_ssl_context-Guarded : (ssl_ctx : ℕ) → Guarded (http_set_ssl_context p fuel ssl_ctx)
  unfolding http_set_ssl_context
  http_set_ssl_context-Guarded ssl_ctx = search guarded_rules depth 24

  send_url-Guarded : (url : Text) → Guarded (send_url p fuel url)
  unfolding send_url
  send_url-Guarded url = search guarded_rules depth 24

  http_set_url-Guarded : (url : Option Text) → Guarded (http_set_url p fuel url)
  unfolding http_set_url
  http_set_url-Guarded none = search guarded_rules depth 24
  http_set_url-Guarded (some url) = search (guarded_rules, send_url-Guarded) depth 24

  http_get-Guarded :
      (timeout_ms : ℕ) (resp : Option HttpResponse) → Guarded (http_get p fuel timeout_ms resp)
  unfolding http_get
  http_get-Guarded timeout_ms none = search guarded_rules depth 24
  http_get-Guarded timeout_ms (some resp) = search guarded_rules depth 24

  post_answer-Guarded :
      (timeout_ms : ℕ) (resp : HttpResponse) → Guarded (post_answer p fuel timeout_ms resp)
  unfolding post_answer
  post_answer-Guarded timeout_ms resp = search guarded_rules depth 24

  post-Guarded :
      (body : List ℕ) (content_type : ℤ) (timeout_ms : ℕ) (resp : HttpResponse)
      → Guarded (post p fuel body content_type timeout_ms resp)
  unfolding post
  post-Guarded body content_type timeout_ms resp =
      search (guarded_rules, post_answer-Guarded) depth 24

  http_post-Guarded :
      (body : Option (List ℕ)) (content_type : ℤ) (timeout_ms : ℕ) (resp : Option HttpResponse)
      → Guarded (http_post p fuel body content_type timeout_ms resp)
  unfolding http_post
  http_post-Guarded body content_type timeout_ms none = search guarded_rules depth 24
  http_post-Guarded none content_type timeout_ms (some resp) = search guarded_rules depth 24
  http_post-Guarded (some body) content_type timeout_ms (some resp) =
      search (guarded_rules, post-Guarded) depth 24

  read_confirmed-Guarded : (r : RawRead) → Guarded (read_confirmed p fuel r)
  unfolding read_confirmed
  read_confirmed-Guarded r = search guarded_rules depth 24

  body_received-Guarded :
      (before budget : ℕ) (next : BodyState → ℕ → Exec W RawRead) (b : BodyState) (r : RawRead)
      → ((b : BodyState) (left : ℕ) → Guarded (next b left))
      → Guarded (body_received p fuel before next b budget r)
  unfolding body_received
  body_received-Guarded before budget next b r rec = record {
    at = λ h s v. by_status r.status (body_byte (get_or r.buf 0 0) b) h s v;
  }
    where
      by_step :
          (step : BodyStep)
          → Guarded (λ s. elim step as (λ _. Option (RawRead × Sys W)) [
            | go_on b' ↦ next b' budget s
            | finish st b' ↦ some (body_result st b', s)
          ])
      by_step (go_on b') = record { at = (rec b' budget).at }
      by_step (finish st b') = record { at = λ h s v. v }

      by_status :
          (st : Status) (step : BodyStep) (h : Handle) (s : Sys W)
          → Unharmed h s.handle
          → After
              (λ _ s'. Unharmed h s'.handle)
              (elim st as (λ _. Option (RawRead × Sys W)) [
                | err_io ↦ some (record { status = err_io; buf = b.buf; bytes_read = before }, s)
                | err_timeout ↦
                    if budget == 0
                    then some (body_result err_timeout b, s)
                    else next b (budget - slice_of budget) s
                | _ ↦ elim step [
                  | go_on b' ↦ next b' budget s
                  | finish st b' ↦ some (body_result st b', s)
                ]
              ])
      by_status err_io step h s v = v
      by_status err_timeout step h s v =
          (Guarded-test (budget == 0) (body_result err_timeout b) _
              (rec b (budget - slice_of budget))).at
            h s v
      by_status _ step h s v = (by_step step).at h s v

  body_loop-Guarded :
      (before rounds : ℕ) (b : BodyState) (budget : ℕ)
      → Guarded (body_loop p fuel before rounds b budget)
  unfolding body_loop
  body_loop-Guarded before zero b budget = record { at = λ h s v. tt }
  body_loop-Guarded before (suc rounds) b budget = record {
    at =
        (Guarded-bind _ _ (Guarded-read_raw p fuel (some (0 ∷ [])) 0 (slice_of budget)) λ r.
          body_received-Guarded before budget (body_loop p fuel before rounds) b r
            λ b' left. body_loop-Guarded before rounds b' left).at;
  }

  read_body_until_ok-Guarded :
      (before : ℕ) (buf : List ℕ) (timeout_ms : ℕ)
      → Guarded (read_body_until_ok p fuel before buf timeout_ms)
  unfolding read_body_until_ok
  read_body_until_ok-Guarded before buf timeout_ms = body_loop-Guarded before fuel _ timeout_ms

  body_read-Guarded : (r : RawRead) → Guarded (body_read p fuel r)
  unfolding body_read
  body_read-Guarded r = by_status r.status
    where
      by_status :
          (st : Status)
          → Guarded (elim st as (λ _. Exec W RawRead) [
            | ok ↦ read_confirmed p fuel r
            | err_overflow ↦ read_confirmed p fuel r
            | _ ↦ pure r
          ])
      by_status ok = read_confirmed-Guarded r
      by_status err_overflow = read_confirmed-Guarded r
      by_status _ = Guarded-pure r

  read_prompted-Guarded :
      (buf : List ℕ) (timeout_ms : ℕ) (st : Status)
      → Guarded (read_prompted p fuel buf timeout_ms st)
  unfolding read_prompted
  read_prompted-Guarded buf timeout_ms ok =
      Guarded-bind _ _ (read_body_until_ok-Guarded 0 buf timeout_ms) body_read-Guarded
  read_prompted-Guarded buf timeout_ms st = Guarded-pure _

  http_read-Guarded :
      (buf : Option (List ℕ)) (bytes_read : Option ℕ) (timeout_ms : ℕ)
      → Guarded (http_read p fuel buf bytes_read timeout_ms)
  unfolding http_read
  http_read-Guarded none bytes_read timeout_ms = search guarded_rules depth 24
  http_read-Guarded (some buf) none timeout_ms = search guarded_rules depth 24
  http_read-Guarded (some buf) (some before) timeout_ms =
      search (guarded_rules, read_prompted-Guarded) depth 24

  http_stop-Guarded : Guarded (http_stop p fuel)
  unfolding http_stop
  http_stop-Guarded = search guarded_rules depth 24

  -- Every function of the file that sends a command.
  abbrev pub HttpGuarded : Type 0
  HttpGuarded =
      ((ctx_id : ℕ) → Guarded (http_set_context p fuel ctx_id))
      × ((ssl_ctx : ℕ) → Guarded (http_set_ssl_context p fuel ssl_ctx))
      × ((url : Option Text) → Guarded (http_set_url p fuel url))
      × ((timeout_ms : ℕ) (resp : Option HttpResponse) → Guarded (http_get p fuel timeout_ms resp))
      × ((body : Option (List ℕ)) (content_type : ℤ) (timeout_ms : ℕ) (resp : Option HttpResponse)
          → Guarded (http_post p fuel body content_type timeout_ms resp))
      × ((buf : Option (List ℕ)) (bytes_read : Option ℕ) (timeout_ms : ℕ)
          → Guarded (http_read p fuel buf bytes_read timeout_ms))
      × Guarded (http_stop p fuel)

  pub http_calls-HttpGuarded : HttpGuarded
  http_calls-HttpGuarded = (
    http_set_context-Guarded, http_set_ssl_context-Guarded, http_set_url-Guarded, http_get-Guarded,
    http_post-Guarded, http_read-Guarded, http_stop-Guarded,
  )
