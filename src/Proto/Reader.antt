-- ===== src/Proto/Reader.antt =====
-- The reading primitives of internal/babel/proto/parser.go: each takes a buffer and returns what
-- it read with the rest of the buffer.
use th.Base.{ℕ, ◌+◌, ◌*◌, ◌/◌, ◌%◌, ◌^◌, List, [], ◌∷◌, ◌++◌}
use th.Proto.Result.{Result, ok, err, panic, stuck, Error, too_short}

abbrev pub Reader : Type 0 → Type 0
Reader A = List ℕ → Result (A × List ℕ)

infixl 5 ◌>>=◌ ◌>>◌
abbrev pub ◌>>=◌ : {A B : Type 0} → Reader A → (A → Reader B) → Reader B
◌>>=◌ m f b = elim (m b) [ ok (a, rest) ↦ f a rest | err e ↦ err e | panic ↦ panic | stuck ↦ stuck ]

abbrev pub ◌>>◌ : {A B : Type 0} → Reader A → Reader B → Reader B
m >> k = m >>= λ _. k

abbrev pub pure : {A : Type 0} → A → Reader A
pure a b = ok (a, b)

abbrev pub fail : {A : Type 0} → Error → Reader A
fail e b = err e

unfoldable pub uint8 : Reader ℕ
uint8 [] = err too_short
uint8 (x ∷ b) = ok (x, b)

unfoldable pub uint16 : Reader ℕ
uint16 (x ∷ y ∷ b) = ok (x * 256 + y, b)
uint16 _ = err too_short

unfoldable pub uint32 : Reader ℕ
uint32 (x ∷ y ∷ z ∷ w ∷ b) = ok (((x * 256 + y) * 256 + z) * 256 + w, b)
uint32 _ = err too_short

unfoldable pub append_uint8 : List ℕ → ℕ → List ℕ
append_uint8 b v = b ++ (v ∷ [])

unfoldable pub append_uint16 : List ℕ → ℕ → List ℕ
append_uint16 b v = b ++ (v / 256 % 256 ∷ v % 256 ∷ [])

unfoldable pub append_uint32 : List ℕ → ℕ → List ℕ
append_uint32 b v = b ++ (v / 2 ^ 24 % 256 ∷ v / 2 ^ 16 % 256 ∷ v / 2 ^ 8 % 256 ∷ v % 256 ∷ [])
