-- ===== src/At/Lines/Spec.antt =====
-- The abstract line assembler, and what a read callback promises.
use ec200_at_abstraction.Prelude.{
  ℕ, suc, ◌≤◌, ◌≡◌, ◌≢◌, pos, negsuc, [], ◌∷◌, ◌==◌, if◌then◌else◌, length, take, drop,
}
use ec200_at_abstraction.Text.{Text}
use ec200_at_abstraction.Handle.{Handle, Platform, Ptr}

abbrev pub lf : ℕ
lf = b'\n'

-- EC200_RX_BUFFER_SIZE - 1
abbrev pub max_held : ℕ
max_held = 2047

-- The bytes of the line that is being assembled.
abbrev pub held : Handle → Text
held h = take h.rx_len h.rx_buf

unfoldable pub strip_cr : Text → Text
strip_cr [] = []
strip_cr (c ∷ s) = if c == b'\r' then strip_cr s else c ∷ strip_cr s

abbrev pub NoLf : Text → Type 0
NoLf [] = Unit
NoLf (c ∷ s) = (c ≢ lf) × NoLf s

-- What is kept of a line.
unfoldable pub clip : Text → Text
clip = take max_held

-- The read callback's contract (ec200_read_fn): it delivers the bytes of a stream in order, at most as
-- many as asked for, and says how many; a timeout or an error takes nothing from the stream.
pub record Stream {W : Type 0} (p : Platform W) : Type 0 where
  pub incoming : W → Text
  pub delivers :
      (f len t ctx : ℕ) (w : W) (n : ℕ)
      → (p.read f len t ctx w).result ≡ pos (suc n)
      → (suc n ≤ len)
        × (suc n ≤ length (incoming w))
        × ((p.read f len t ctx w).bytes ≡ take (suc n) (incoming w))
        × (incoming (p.read f len t ctx w).after ≡ drop (suc n) (incoming w))
  pub waits :
      (f len t ctx : ℕ) (w : W)
      → (p.read f len t ctx w).result ≡ pos 0
      → incoming (p.read f len t ctx w).after ≡ incoming w
  pub fails :
      (f len t ctx : ℕ) (w : W) (n : ℕ)
      → (p.read f len t ctx w).result ≡ negsuc n
      → incoming (p.read f len t ctx w).after ≡ incoming w
  pub undisturbed :
      (f : Ptr) (line : Text) (ctx : Ptr) (w : W) → incoming (p.urc f line ctx w) ≡ incoming w
