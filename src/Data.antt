-- ===== src/Data.antt =====
-- src/ec200_data.c: PDP contexts.
pub mod Address
use ec200_at_abstraction.Prelude.{
  ℕ, zero, suc, ◌+◌, ◌-◌, Bool, true, false, not, ◌&&◌, ◌||◌, List, [], ◌∷◌, ◌++◌, Option, none,
  some, ltb, leb, ◌==◌, if◌then◌else◌, length, take,
}
use ec200_at_abstraction.Text.{Text, codes, c_str, memcpy_at, find_char, text_eq, decimal}
use ec200_at_abstraction.Handle.{
  Platform, Sys, Status, ok, err_param, err_parse, is_ok, timeout_default, timeout_long,
}
use ec200_at_abstraction.Exec.{Exec, pure, ◌>>=◌}
use ec200_at_abstraction.Query.{send_command, query}

-- ec200_pdp_type_t
pub data PdpType : Type 0 where
  ip ipv6 ipv4v6 : PdpType

-- pdp_type_str
abbrev pub pdp_type_str : PdpType → Text
pdp_type_str ip = codes "IP"
pdp_type_str ipv6 = codes "IPV6"
pdp_type_str ipv4v6 = codes "IPV4V6"

-- qicsgp_type
abbrev pub qicsgp_type : PdpType → ℕ
qicsgp_type ip = 1
qicsgp_type ipv6 = 2
qicsgp_type ipv4v6 = 3

-- ec200_pdp_context_t
pub record PdpContext : Type 0 where
  pub cid : ℕ
  pub kind : PdpType
  pub apn : Text
  pub username : Text
  pub password : Text
  pub ip_addr : List ℕ

-- cid < 1 || cid > 16
abbrev pub bad_cid : ℕ → Bool
bad_cid cid = ltb cid 1 || ltb 16 cid

-- `if (*comma == '"') comma++;`
unfoldable pub open_quote : Text → Text
open_quote [] = []
open_quote (c ∷ s) = if c == b'"' then s else c ∷ s

-- `if (alen > 0 && comma[alen - 1] == '"') alen--;`
unfoldable pub close_quote : Text → Text
close_quote [] = []
close_quote (c ∷ []) = if c == b'"' then [] else c ∷ []
close_quote (c ∷ d ∷ s) = c ∷ close_quote (d ∷ s)

-- The end of ec200_data_get_ip: the address goes to the caller's array, cut to it.
unfoldable pub store_address : Text → List ℕ → Status × List ℕ
store_address address ip_buf =
    let size = length address in
    let alen = if leb (length ip_buf) size then length ip_buf - 1 else size in
    if size == 0
    then (err_parse, ip_buf)
    else (ok, memcpy_at 0 (take alen address ++ (0 ∷ [])) ip_buf)

-- The part of ec200_data_get_ip behind the query.
unfoldable pub address_parse : Text → List ℕ → Status × List ℕ
unfolding open_quote close_quote store_address
address_parse resp ip_buf = elim (find_char b',' resp) [
  | none ↦ (err_parse, ip_buf)
  | some [] ↦ (err_parse, ip_buf)
  | some (_ ∷ rest) ↦ store_address (close_quote (open_quote rest)) ip_buf
]

unfoldable pub address_received : List ℕ → Status × Text → Status × List ℕ
unfolding address_parse
address_received ip_buf (ok, resp) = address_parse resp ip_buf
address_received ip_buf (st, resp) = (st, ip_buf)

-- st == EC200_OK && strcmp(ctx->ip_addr, "0.0.0.0") != 0
abbrev pub usable : Status → List ℕ → Bool
usable st ip_addr = is_ok st && not (text_eq (c_str ip_addr) (codes "0.0.0.0"))

-- (act != EC200_OK) ? act : st
abbrev pub first_error : Status → Status → Status
first_error ok st = st
first_error act st = act

module _ {W : Type 0} (p : Platform W) (fuel : ℕ) where
  -- The credentials of ec200_data_set_pdp, behind the definition of the context.
  unfoldable pub set_credentials : PdpContext → Status → Exec W Status
  set_credentials ctx ok s =
      let command =
        codes "AT+QICSGP="
        ++ (decimal ctx.cid
            ++ (codes ","
                ++ (decimal (qicsgp_type ctx.kind)
                    ++ (codes ",\""
                        ++ (ctx.apn
                            ++ (codes "\",\""
                                ++ (ctx.username
                                    ++ (codes "\",\"" ++ (ctx.password ++ codes "\",3"))))))))) in
      if length ctx.username == 0
      then some (ok, s)
      else send_command p fuel (take 191 command) timeout_default s
  set_credentials ctx st s = some (st, s)

  -- ec200_data_set_pdp; snprintf cuts the command to 191 bytes.
  unfoldable pub data_set_pdp : PdpContext → Exec W Status
  unfolding set_credentials
  data_set_pdp ctx s =
      let command =
        codes "AT+CGDCONT="
        ++ (decimal ctx.cid
            ++ (codes ",\""
                ++ (pdp_type_str ctx.kind ++ (codes "\",\"" ++ (ctx.apn ++ codes "\""))))) in
      let define = send_command p fuel (take 191 command) timeout_default >>= set_credentials ctx in
      if bad_cid ctx.cid then some (err_param, s) else define s

  -- ec200_data_activate
  unfoldable pub data_activate : ℕ → Exec W Status
  data_activate cid =
      if bad_cid cid
      then pure err_param
      else send_command p fuel (codes "AT+CGACT=1," ++ decimal cid) timeout_long

  -- ec200_data_deactivate
  unfoldable pub data_deactivate : ℕ → Exec W Status
  data_deactivate cid =
      if bad_cid cid
      then pure err_param
      else send_command p fuel (codes "AT+CGACT=0," ++ decimal cid) timeout_long

  -- ec200_data_get_ip on an array; a NULL pointer is not represented.
  unfoldable pub data_get_ip : ℕ → List ℕ → Exec W (Status × List ℕ)
  unfolding address_received
  data_get_ip cid ip_buf =
      if length ip_buf == 0 || bad_cid cid then pure (err_param, ip_buf) else do
        answer ←
            query p fuel (codes "AT+CGPADDR=" ++ decimal cid) (codes "+CGPADDR:") 128
              timeout_default
        pure (address_received ip_buf answer)

  -- ec200_data_connect behind its second query.
  unfoldable pub connect_checked : Status → Status × List ℕ → Exec W (Status × List ℕ)
  connect_checked act (st, ip_addr) =
      pure (if usable st ip_addr then ok else first_error act st, ip_addr)

  -- ec200_data_connect behind the definition of the context.
  unfoldable pub connect_defined : PdpContext → List ℕ → Status → Exec W (Status × List ℕ)
  unfolding data_activate data_get_ip connect_checked
  connect_defined ctx ip_addr ok = do
    act ← data_activate ctx.cid
    answer ← data_get_ip ctx.cid ip_addr
    connect_checked act answer
  connect_defined ctx ip_addr st = pure (st, ip_addr)

  -- ec200_data_connect behind its first query.
  unfoldable pub connect_queried : PdpContext → Status × List ℕ → Exec W (Status × List ℕ)
  unfolding data_set_pdp connect_defined
  connect_queried ctx (st, ip_addr) s =
      let flow = (data_set_pdp ctx >>= connect_defined ctx ip_addr) s in
      if usable st ip_addr then some ((ok, ip_addr), s) else flow

  -- ec200_data_connect; the result has the new `ctx->ip_addr`.
  unfoldable pub data_connect : PdpContext → Exec W (Status × List ℕ)
  unfolding connect_queried data_get_ip
  data_connect ctx = data_get_ip ctx.cid ctx.ip_addr >>= connect_queried ctx
