-- ===== src/Tests/Uart.antt =====
-- A platform that runs: the module has a fixed stream of bytes to deliver, one for each read, and takes
-- whatever is written.
use ec200_at_abstraction.Prelude.{
  ℕ, zero, suc, ◌≤◌, ◌≡◌, refl, ap, sym, ◌∙◌, List, [], ◌∷◌, ◌++◌, arith, length, take, drop,
  take_all, length-drop, pos, negsuc, replicate, none, true, false,
}
use ec200_at_abstraction.Text.{Text}
use ec200_at_abstraction.Handle.{Platform, Reading, Handle, UrcEntry, Sys}
use ec200_at_abstraction.At.Lines.{Stream}
use ec200_at_abstraction.At.Delivery.{Sink}
use ec200_at_abstraction.At.Wire.{Quiet}

-- How far the stream has been delivered, what was written, and the lines given to handlers.
pub record Uart : Type 0 where
  pub at : ℕ
  pub written : List ℕ
  pub calls : List Text

-- The answer to a read of `len` bytes when `rest` is to come.
abbrev pub answer : ℕ → Text → Uart → Reading Uart
answer zero rest w = record { result = pos 0; bytes = []; after = w }
answer (suc len) [] w = record { result = pos 0; bytes = []; after = w }
answer (suc len) (c ∷ rest) w = record {
  result = pos 1;
  bytes = c ∷ [];
  after = record w { at = suc w.at };
}

module _ (script : Text) where
  abbrev pub scripted : Platform Uart
  scripted = record {
    write = λ f bytes ctx w. record {
      result = pos (length bytes);
      after = record w { written = w.written ++ bytes };
    };
    read = λ f len t ctx w. answer len (drop w.at script) w;
    delay = λ f ms ctx w. w;
    urc = λ f line ctx w. record w { calls = line ∷ w.calls };
  }

  drop-suc : (n : ℕ) (xs : Text) → drop (suc n) xs ≡ drop 1 (drop n xs)
  drop-suc zero xs = refl
  drop-suc (suc n) [] = refl
  drop-suc (suc n) (x ∷ xs) = drop-suc n xs

  -- What an answer takes from `rest`, in a world whose stream is `rest`.
  pub delivers :
      (len : ℕ) (rest : Text) (w : Uart) (n : ℕ)
      → rest ≡ drop w.at script
      → (answer len rest w).result ≡ pos (suc n)
      → (suc n ≤ len)
        × (suc n ≤ length rest)
        × ((answer len rest w).bytes ≡ take (suc n) rest)
        × (drop (answer len rest w).after.at script ≡ drop (suc n) rest)
  delivers zero rest w n e h = cc
  delivers (suc len) [] w n e h = cc
  delivers (suc len) (c ∷ rest) w zero e h =
      (omega arith, omega arith, refl, drop-suc w.at script ∙ ap (drop 1) (sym e))
  delivers (suc len) (c ∷ rest) w (suc n) e h = absurd (ground arith)

  pub waits :
      (len : ℕ) (rest : Text) (w : Uart)
      → (answer len rest w).result ≡ pos 0
      → drop (answer len rest w).after.at script ≡ drop w.at script
  waits zero rest w h = refl
  waits (suc len) [] w h = refl
  waits (suc len) (c ∷ rest) w h = absurd (ground arith)

  pub fails :
      (len : ℕ) (rest : Text) (w : Uart) (n : ℕ)
      → (answer len rest w).result ≡ negsuc n
      → drop (answer len rest w).after.at script ≡ drop w.at script
  fails zero rest w n h = refl
  fails (suc len) [] w n h = refl
  fails (suc len) (c ∷ rest) w n h = cc

  -- The contracts hold of it.
  abbrev pub scripted-Stream : Stream scripted
  scripted-Stream = record {
    incoming = λ w. drop w.at script;
    delivers = λ f len t ctx w n h. delivers len (drop w.at script) w n refl h;
    waits = λ f len t ctx w h. waits len (drop w.at script) w h;
    fails = λ f len t ctx w n h. fails len (drop w.at script) w n h;
    undisturbed = λ f line ctx w. refl;
  }

  pos-injective : (m n : ℕ) → pos m ≡ pos n → m ≡ n
  pos-injective m n e = cc

  pub takes :
      (bytes : List ℕ) (w : List ℕ) (n : ℕ)
      → pos (length bytes) ≡ pos n
      → (n ≤ length bytes) × (w ++ bytes ≡ w ++ take n bytes)
  takes bytes w n e =
      let same = pos-injective (length bytes) n e in
      (omega arith, ap (λ t. w ++ t) (sym (take_all n bytes (omega arith))))

  abbrev pub scripted-Sink : Sink scripted
  scripted-Sink = record {
    accepted = λ w. w.written;
    takes = λ f bytes ctx w n h. takes bytes w.written n h;
    idles = λ f ms ctx w. refl;
  }

  pub bounded : (w : Uart) → length (scripted-Stream.incoming w) ≤ length script
  bounded w = omega (arith, length-drop w.at script)

abbrev pub power_on : Uart
power_on = record { at = 0; written = []; calls = [] }

abbrev free_slot : UrcEntry
free_slot = record { prefix = none; handler = 0; ctx = 0 }

-- A handle as ec200_init leaves it.
abbrev pub fresh : Handle
fresh = record {
  write = 1;
  read = 2;
  delay_ms = 3;
  user_ctx = 0;
  urc_handler = 0;
  mqtt_msg_cb = 0;
  rx_buf = replicate 2048 0;
  rx_len = 0;
  rx_overlong = false;
  tx_buf = replicate 512 0;
  urc_table = replicate 8 free_slot;
  initialised = true;
  last_err_kind = 0;
  last_err_text = replicate 64 0;
  ppp_data_mode = false;
  last_cme_error = negsuc 0;
  last_cms_error = negsuc 0;
}

abbrev pub start : Sys Uart
start = record { handle = fresh; world = power_on }

pub answer_quiet :
    (len : ℕ) (rest : Text) (w : Uart) → (answer len rest w).after.written ≡ w.written
answer_quiet zero rest w = refl
answer_quiet (suc len) [] w = refl
answer_quiet (suc len) (c ∷ rest) w = refl

abbrev pub scripted-Quiet : (script : Text) → Quiet (scripted script) (scripted-Sink script)
scripted-Quiet script = record {
  reads = λ f len t ctx w. answer_quiet len (drop w.at script) w;
  handlers = λ f line ctx w. refl;
}
