-- ===== src/Ssl/Config.antt =====
-- src/ec200_ssl.c: configuring a TLS context.
use ec200_at_abstraction.Prelude.{
  ℕ, ◌+◌, ◌-◌, ◌/◌, ◌%◌, Bool, ◌||◌, ◌&&◌, [], ◌∷◌, ◌++◌, Option, none, some, leb, ltb, ◌==◌,
  if◌then◌else◌, length,
}
use ec200_at_abstraction.Text.{Text, codes, decimal}
use ec200_at_abstraction.Handle.{Platform, Status, ok, err_param, timeout_default}
use ec200_at_abstraction.Exec.{Exec, pure, ◌>>=◌, if_ok}
use ec200_at_abstraction.Query.{send_command}

-- ec200_ssl_config_t, with its strings; the version and the security level are the values of their
-- enumerators, as unsigned numbers.
pub record SslConfig : Type 0 where
  pub ctx_id : ℕ
  pub version : ℕ
  pub seclevel : ℕ
  pub ciphersuite : ℕ
  pub cacert : Text
  pub clientcert : Text
  pub clientkey : Text
  pub ignore_localtime : Bool
  pub enable_sni : Bool

-- A digit of "%X".
abbrev hex_digit : ℕ → ℕ
hex_digit n = if ltb n 10 then b'0' + n else b'A' + (n - 10)

-- "%04X" of a 16-bit number.
abbrev pub hex4 : ℕ → Text
hex4 n =
    hex_digit (n / 4096 % 16)
    ∷ hex_digit (n / 256 % 16)
    ∷ hex_digit (n / 16 % 16)
    ∷ hex_digit (n % 16)
    ∷ []

abbrev flag : Bool → ℕ
flag b = if b then 1 else 0

-- AT+QSSLCFG="<key>",<ctx>,
abbrev pub cfg_head : Text → ℕ → Text
cfg_head key ctx = codes "AT+QSSLCFG=\"" ++ (key ++ (codes "\"," ++ (decimal ctx ++ codes ",")))

-- The guards of ec200_ssl_configure.
unfoldable pub bad_ssl_config : SslConfig → Bool
bad_ssl_config cfg =
    ltb 5 cfg.ctx_id
    || ltb 4 cfg.version
    || ltb 2 cfg.seclevel
    || leb 1 cfg.seclevel && (length cfg.cacert == 0)
    || (cfg.seclevel == 2) && (length cfg.clientcert == 0 || length cfg.clientkey == 0)

module _ {W : Type 0} (p : Platform W) (fuel : ℕ) where
  -- ec200_ssl_set_seclevel
  unfoldable pub ssl_set_seclevel : ℕ → ℕ → Exec W Status
  ssl_set_seclevel ctx_id level =
      if ltb 5 ctx_id || ltb 2 level
      then pure err_param
      else send_command p fuel (cfg_head (codes "seclevel") ctx_id ++ decimal level) timeout_default

  -- cfg_num
  unfoldable pub cfg_num : ℕ → Text → ℕ → Exec W Status
  cfg_num ctx key val = send_command p fuel (cfg_head key ctx ++ decimal val) timeout_default

  -- cfg_file
  unfoldable pub cfg_file : ℕ → Text → Text → Exec W Status
  cfg_file ctx key file =
      send_command p fuel (cfg_head key ctx ++ (codes "\"" ++ (file ++ codes "\""))) timeout_default

  -- `if (file[0] != '\0')` around cfg_file.
  unfoldable pub cfg_optional : ℕ → Text → Text → Exec W Status
  unfolding cfg_file
  cfg_optional ctx key [] = pure ok
  cfg_optional ctx key (c ∷ file) = cfg_file ctx key (c ∷ file)

  -- The commands of ec200_ssl_configure, in their order; the first that fails ends it.
  unfoldable pub ssl_commands : SslConfig → Exec W Status
  unfolding cfg_num cfg_optional
  ssl_commands cfg = do
    st ← cfg_num cfg.ctx_id (codes "sslversion") cfg.version
    if_ok st (do
      st ←
          send_command p fuel
            (cfg_head (codes "ciphersuite") cfg.ctx_id ++ (codes "0X" ++ hex4 cfg.ciphersuite))
            timeout_default
      if_ok st (do
        st ← cfg_num cfg.ctx_id (codes "seclevel") cfg.seclevel
        if_ok st (do
          st ← cfg_optional cfg.ctx_id (codes "cacert") cfg.cacert
          if_ok st (do
            st ← cfg_optional cfg.ctx_id (codes "clientcert") cfg.clientcert
            if_ok st (do
              st ← cfg_optional cfg.ctx_id (codes "clientkey") cfg.clientkey
              if_ok st (do
                st ← cfg_num cfg.ctx_id (codes "ignorelocaltime") (flag cfg.ignore_localtime)
                if_ok st (cfg_num cfg.ctx_id (codes "sni") (flag cfg.enable_sni))))))))

  -- ec200_ssl_configure; a NULL configuration is `none`.
  unfoldable pub ssl_configure : Option SslConfig → Exec W Status
  unfolding ssl_commands bad_ssl_config
  ssl_configure none = pure err_param
  ssl_configure (some cfg) = if bad_ssl_config cfg then pure err_param else ssl_commands cfg
