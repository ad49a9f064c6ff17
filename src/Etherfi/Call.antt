-- ===== src/Etherfi/Call.antt =====
-- A call of the service: it changes the state of the world, and returns a value or an error.
use d8x_etherfi.Base.{Error, Result-cases, inl, inr, Result, ok, err, ◌≡◌}

abbrev pub M : Type 0 → Type 0 → Type 0
M W A = W → Result A × W

infixl 5 ◌>>=◌
abbrev pub ◌>>=◌ : {W A B : Type 0} → M W A → (A → M W B) → M W B
◌>>=◌ m f w = let (r, w') = m w in elim r [ ok a ↦ f a w' | err e ↦ (err e, w') ]

abbrev pub pure : {W A : Type 0} → A → M W A
pure a w = (ok a, w)

-- A call that changes nothing.
abbrev pub lift : {W A : Type 0} → Result A → M W A
lift r w = (r, w)

-- A call that goes on after a success goes on with its value.
pub >>=-ok :
    {W A B : Type 0} (m : M W A) (f : A → M W B) (w : W) {a : A}
    → (m w).0 ≡ ok a
    → ((m >>= f) w).0 ≡ (f a (m w).1).0
>>=-ok m f w e = rw (◌>>=◌, e)

-- A call whose first part fails ends with that error.
pub >>=-err :
    {W A B : Type 0} (m : M W A) (f : A → M W B) (w : W) {e : Error}
    → (m w).0 ≡ err e
    → ((m >>= f) w).0 ≡ err e
>>=-err m f w q = rw (◌>>=◌, q)

-- What holds of a call that goes on, from what holds of either outcome of the first part.
pub >>=-all :
    {W A B : Type 0} (m : M W A) (f : A → M W B) (w : W) (P : Result B → Type 0)
    → ((a : A) → (m w).0 ≡ ok a → P (f a (m w).1).0)
    → ((e : Error) → (m w).0 ≡ err e → P (err e))
    → P ((m >>= f) w).0
>>=-all m f w P good bad = elim (Result-cases (m w).0) [
  | inl (a, q) ↦ rw (◌>>=◌, q) (good a q)
  | inr (e, q) ↦ rw (◌>>=◌, q) (bad e q)
]
