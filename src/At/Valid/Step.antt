-- ===== src/At/Valid/Step.antt =====
-- The pure steps keep the invariant.
use ec200_at_abstraction.Prelude.{
  ℕ, suc, ap, ◌-◌, ◌≤◌, ◌≡◌, Bool-cases, inl, inr, List, [], ◌∷◌, ◌++◌, Option, none, some, arith,
  length, take, drop, length-set, length-take, length-append, if◌then◌else◌, leb, refl,
}
use ec200_at_abstraction.Text.{Text, memcpy_at, skip_spaces}
use ec200_at_abstraction.Text.Laws.{length-memcpy_at}
use ec200_at_abstraction.Handle.{Handle, UrcEntry, Ptr, max_err_text_len}
use ec200_at_abstraction.At.Rx.{rx_feed}
use ec200_at_abstraction.At.Terminal.{is_terminal, store_error_text}
use ec200_at_abstraction.At.Tx.{reset_errors, frame_command}
use ec200_at_abstraction.At.Urc.{entry_has, entry_free, replace_entry, fill_entry, clear_entry}
use ec200_at_abstraction.At.Valid.Defs.{IsValid}

-- No byte is written behind the receive buffer, and the room for the NUL stays.
pub rx_feed-IsValid : (h : Handle) (ch : ℕ) → IsValid h → IsValid (rx_feed h ch).0
unfolding rx_feed
rx_feed-IsValid h ch v =
    ground (arith, length-set h.rx_buf h.rx_len 0, length-set h.rx_buf h.rx_len ch)

-- The text that record_error copies is cut so that it fits with its NUL.
length-store_error_text :
    (payload : Text) (dst : List ℕ)
    → length dst ≡ max_err_text_len
    → length (store_error_text payload dst) ≡ max_err_text_len
unfolding store_error_text
length-store_error_text payload dst h =
    let text = skip_spaces payload in
    let len = if leb max_err_text_len (length text) then max_err_text_len - 1 else length text in
    let copied = take len text ++ (0 ∷ []) in
    let fits : length copied ≤ 64 =
      ground (arith, length-append (take len text) (0 ∷ []), length-take len text) in
    omega (arith, length-memcpy_at 0 copied dst (omega arith))

pub is_terminal-IsValid : (h : Handle) (line : Text) → IsValid h → IsValid (is_terminal h line).1
unfolding is_terminal
is_terminal-IsValid h line v =
    ground (arith, length-store_error_text (drop 11 line) h.last_err_text)

-- at_transmit writes the framed command, cut to the scratch buffer, and the NUL behind it.
pub reset_errors-IsValid : (h : Handle) → IsValid h → IsValid (reset_errors h)
reset_errors-IsValid h v = ground (arith, length-set h.last_err_text 0 0)

framed_size :
    (text : List ℕ) (buf : List ℕ)
    → length buf ≡ 512
    → length (memcpy_at 0 (take 511 text ++ (0 ∷ [])) buf) ≡ 512
framed_size text buf h =
    let copied = take 511 text ++ (0 ∷ []) in
    let fits : length copied ≤ 512 =
      omega (arith, length-append (take 511 text) (0 ∷ []), length-take 511 text) in
    omega (arith, length-memcpy_at 0 copied buf (omega arith))

pub frame_command-IsValid : (cmd : Text) (h : Handle) → IsValid h → IsValid (frame_command cmd h)
frame_command-IsValid cmd h v = ground (arith, framed_size (cmd ++ (b'\r' ∷ [])) h.tx_buf v.tx_size)

-- The table keeps its eight slots.
abbrev pub Sized : ℕ → Option (List UrcEntry) → Type 0
Sized n none = Unit
Sized n (some table) = length table ≡ n

Sized-cons :
    (n : ℕ) (e : UrcEntry) (o : Option (List UrcEntry))
    → Sized n o
    → Sized (suc n) (elim o [ none ↦ none | some t ↦ some (e ∷ t) ])
Sized-cons n e none h = tt
Sized-cons n e (some t) h = ap suc h

pub replace_entry-Sized :
    (prefix : Text) (f ctx : Ptr) (table : List UrcEntry)
    → Sized (length table) (replace_entry prefix f ctx table)
unfolding replace_entry
replace_entry-Sized prefix f ctx [] = tt
replace_entry-Sized prefix f ctx (e ∷ table) = elim (Bool-cases (entry_has prefix e)) [
  | inl has ↦ rw has refl
  | inr not_here ↦ rw not_here (Sized-cons _ e _ (replace_entry-Sized prefix f ctx table))
]

pub fill_entry-Sized :
    (new : UrcEntry) (table : List UrcEntry) → Sized (length table) (fill_entry new table)
unfolding fill_entry
fill_entry-Sized new [] = tt
fill_entry-Sized new (e ∷ table) = elim (Bool-cases (entry_free e)) [
  | inl free ↦ rw free refl
  | inr taken ↦ rw taken (Sized-cons _ e _ (fill_entry-Sized new table))
]

pub clear_entry-Sized :
    (prefix : Text) (table : List UrcEntry) → Sized (length table) (clear_entry prefix table)
unfolding clear_entry
clear_entry-Sized prefix [] = tt
clear_entry-Sized prefix (e ∷ table) = elim (Bool-cases (entry_has prefix e)) [
  | inl has ↦ rw has refl
  | inr not_here ↦ rw not_here (Sized-cons _ e _ (clear_entry-Sized prefix table))
]
