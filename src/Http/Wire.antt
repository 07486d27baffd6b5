-- ===== src/Http/Wire.antt =====
-- What ec200_http_set_url and ec200_http_post put on the wire.
use ec200_at_abstraction.Prelude.{
  ℕ, ◌^◌, ◌≤◌, ◌<◌, ◌≡◌, refl, Bool, false, ◌||◌, ℤ, pos, negsuc, List, [], ◌∷◌, ◌++◌, Option, none,
  some, length, ltb, ◌==◌, if◌then◌else◌, arith, if-elim,
}
use ec200_at_abstraction.Text.{Text, codes}
use ec200_at_abstraction.Handle.{Platform, Sys, Status, ok, timeout_default, timeout_long}
use ec200_at_abstraction.Exec.{Exec, pure, ◌>>=◌, if_ok_else}
use ec200_at_abstraction.Query.{await_prefix, local_array}
use ec200_at_abstraction.At.Wait.{wait_prefix, wait_final}
use ec200_at_abstraction.At.Delivery.{Sink}
use ec200_at_abstraction.At.Valid.{After, After-weaken}
use ec200_at_abstraction.At.Silence.{
  wait_prefix-Silent, wait_final-Silent, expect-Writes, send_command-Writes,
}
use ec200_at_abstraction.At.Wire.{
  Quiet, Silent, Silent-bind, Writes, WritesAlso, Writes-then, Writes-then_Silent, Writes-then_else,
  Writes-then_Silent_else, write_raw-Writes,
}
use ec200_at_abstraction.Tcpip.Socket.{max_url_len}
use ec200_at_abstraction.Http.Calls.{
  HttpResponse, parse_http_result, url_command, content_type_command, post_command,
  bad_content_type, send_url, http_set_url, post_answer, post, http_post,
}

-- The module was given the command and the URL, within the limit.
abbrev pub UrlSent : Option Text → List ℕ → List ℕ → Type 0
UrlSent none before after = ⊥
UrlSent (some url) before after =
    (0 < length url)
    × (length url ≤ max_url_len)
    × (after ≡ before ++ ((url_command (length url) ++ (b'\r' ∷ [])) ++ url))

-- The content type has an index that the module knows.
abbrev pub IsContentType : ℤ → Type 0
IsContentType (pos n) = n ≤ 4
IsContentType (negsuc n) = ⊥

-- The module was given the two commands and the body, within the limits.
abbrev pub BodyPosted : Option (List ℕ) → ℤ → ℕ → List ℕ → List ℕ → Type 0
BodyPosted none content_type timeout_ms before after = ⊥
BodyPosted (some body) content_type timeout_ms before after =
    (0 < length body)
    × (length body ≤ 65535)
    × IsContentType content_type
    × (after
        ≡ before
          ++ ((content_type_command content_type ++ (b'\r' ∷ []))
              ++ ((post_command (length body) timeout_ms ++ (b'\r' ∷ [])) ++ body)))

module _ {W : Type 0} (p : Platform W) (sk : Sink p) (quiet : Quiet p sk) (fuel : ℕ)
    (enough : 2 ^ 17 ≤ fuel) where
  open sk use {accepted}

  send_url-Writes :
      (url : Text)
      → length url ≤ max_url_len
      → Writes p sk quiet ((url_command (length url) ++ (b'\r' ∷ [])) ++ url) (send_url p fuel url)
  unfolding send_url
  send_url-Writes url short =
      Writes-then p sk quiet _ url _ _
        (expect-Writes p sk quiet fuel (url_command (length url)) (codes "CONNECT") 32
          timeout_default enough)
        (Writes-then_Silent p sk quiet url _ (wait_final p fuel timeout_default)
          (write_raw-Writes p sk quiet fuel enough url (omega arith))
          (wait_final-Silent p sk quiet fuel timeout_default))

  -- If ec200_http_set_url returns EC200_OK, the URL has 1 to 256 bytes, and what the platform has accepted
  -- has grown by the command line with the URL's length and by the URL, in this order, and by nothing
  -- else; 2^17 units of fuel are given, and reading and the application's handlers write nothing.
  pub http_set_url-UrlSent :
      (url : Option Text) (s : Sys W)
      → After
          (λ st s'. st ≡ ok → UrlSent url (accepted s.world) (accepted s'.world))
          (http_set_url p fuel url s)
  unfolding http_set_url
  http_set_url-UrlSent none s = λ e. cc
  http_set_url-UrlSent (some url) s =
      let P : Status → Sys W → Type 0 =
        λ st s'. st ≡ ok → UrlSent (some url) (accepted s.world) (accepted s'.world) in
      if-elim (λ (m : Exec W Status). After P (m s))
        (length url == 0 || ltb max_url_len (length url)) _ _ (λ _ e. cc)
        λ g.
          let short : length url ≤ max_url_len = ground (arith, g) in
          After-weaken (λ st s'. st ≡ ok → accepted s'.world ≡ accepted s.world ++ _) P _
            (λ st s' h e. (ground (arith, g), short, h e)) (send_url-Writes url short s)

  post_answer-Silent :
      (timeout_ms : ℕ) (resp : HttpResponse)
      → Silent p sk quiet (post_answer p fuel timeout_ms resp)
  unfolding post_answer
  post_answer-Silent timeout_ms resp =
      Silent-bind p sk quiet (wait_final p fuel timeout_long) _
        (wait_final-Silent p sk quiet fuel timeout_long) acknowledged
    where
      told :
          (st : Status) (raw : Text)
          → Silent p sk quiet (
              if_ok_else st
                (some resp)
                (pure ((parse_http_result raw resp).0, some (parse_http_result raw resp).1)))
      told ok raw = λ s. refl
      told _ raw = λ s. refl

      acknowledged :
          (st : Status)
          → Silent p sk quiet (
              if_ok_else st (some resp) (do
                (st, raw) ← await_prefix p fuel (codes "+QHTTPPOST:") 128 timeout_ms
                let (st', resp') = parse_http_result raw resp
                if_ok_else st (some resp) (pure (st', some resp'))))
      acknowledged ok =
          Silent-bind p sk quiet (await_prefix p fuel (codes "+QHTTPPOST:") 128 timeout_ms) _
            (Silent-bind p sk quiet
              (wait_prefix p fuel (some (codes "+QHTTPPOST:")) (local_array 128) timeout_ms) _
              (wait_prefix-Silent p sk quiet fuel (some (codes "+QHTTPPOST:")) (local_array 128)
                timeout_ms)
              λ a s. refl)
            λ (st, raw). told st raw
      acknowledged _ = λ s. refl

  post-WritesAlso :
      (body : List ℕ) (content_type : ℤ) (timeout_ms : ℕ) (resp : HttpResponse)
      → length body < 2 ^ 16
      → WritesAlso p sk quiet
          ((content_type_command content_type ++ (b'\r' ∷ []))
            ++ ((post_command (length body) timeout_ms ++ (b'\r' ∷ [])) ++ body))
          (post p fuel body content_type timeout_ms resp)
  unfolding post
  post-WritesAlso body content_type timeout_ms resp short =
      Writes-then_else p sk quiet _ _ _ (some resp) _
        (send_command-Writes p sk quiet fuel (content_type_command content_type) timeout_default
          enough)
        (Writes-then_else p sk quiet _ body _ (some resp) _
          (expect-Writes p sk quiet fuel (post_command (length body) timeout_ms) (codes "CONNECT")
            32 (if ltb timeout_default timeout_ms then timeout_ms else timeout_default) enough)
          (Writes-then_Silent_else p sk quiet body _ (some resp)
            (post_answer p fuel timeout_ms resp)
            (write_raw-Writes p sk quiet fuel enough body short)
            (post_answer-Silent timeout_ms resp)))

  -- If ec200_http_post returns EC200_OK, the body has 1 to 65535 bytes, the content type is one of the
  -- five, and what the platform has accepted has grown by the command line with the content type, the
  -- command line with the body's length and the body, in this order, and by nothing else; 2^17 units of
  -- fuel are given, and reading and the application's handlers write nothing.
  pub http_post-BodyPosted :
      (body : Option (List ℕ)) (content_type : ℤ) (timeout_ms : ℕ) (resp : Option HttpResponse)
      (s : Sys W)
      → After
          (λ r s'.
            r.0 ≡ ok
            → BodyPosted body content_type timeout_ms (accepted s.world) (accepted s'.world))
          (http_post p fuel body content_type timeout_ms resp s)
  unfolding http_post bad_content_type
  http_post-BodyPosted body content_type timeout_ms none s = λ e. cc
  http_post-BodyPosted none content_type timeout_ms (some resp) s = λ e. cc
  http_post-BodyPosted (some body) content_type timeout_ms (some resp) s =
      let P : Status × Option HttpResponse → Sys W → Type 0 = λ r s'.
        r.0 ≡ ok
        → BodyPosted (some body) content_type timeout_ms (accepted s.world) (accepted s'.world) in
      if-elim (λ (m : Exec W (Status × Option HttpResponse)). After P (m s))
        (length body == 0 || ltb 65535 (length body) || bad_content_type content_type) _ _
        (λ _ e. cc)
        λ g.
          let short : length body < 2 ^ 16 = ground (arith, g) in
          After-weaken (λ r s'. r.0 ≡ ok → accepted s'.world ≡ accepted s.world ++ _) P _
            (λ r s' h e. (
              ground (arith, g),
              ground (arith, g),
              known content_type (length body == 0) (ltb 65535 (length body)) g,
              h e,
            ))
            (post-WritesAlso body content_type timeout_ms resp short s)
    where
      known : (z : ℤ) (a b : Bool) → (a || b || bad_content_type z) ≡ false → IsContentType z
      known (pos n) a b g = ground (arith, g)
      known (negsuc n) a b g = ground (arith, g)
