-- ===== src/Prelude/Checked.antt =====
-- What a check of the source answers: `{ ok: true, … }` or `{ ok: false, reason }`.
use Prim.Native.String.{String}

pub data Checked {ℓ} (A : Type ℓ) : Type ℓ where
  ok : A → Checked A
  refused : String → Checked A
