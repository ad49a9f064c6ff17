-- ===== src/Etherfi/Balances/Messages.antt =====
-- What the handler gets, in whatever order the messages come.
use d8x_etherfi.Base.{
  ℕ, zero, suc, ◌≡◌, ◌≢◌, refl, ap, sym, ◌∙◌, List, [], ◌∷◌, ◌++◌, Text, Result, ok, err, Error,
  ◌⊎◌, inl, inr,
}
use mathlib.Core.Path.{subst}
use d8x_etherfi.Base.Int.{ℤ}
use d8x_etherfi.Base.Dict.{Dict}
use d8x_etherfi.Etherfi.Delegates.{reassign_trader_balances}
use d8x_etherfi.Etherfi.Balances.{
  TraderChan, LpChan, Message, trader_message, lp_message, err_message, Handler, receiving,
  returned, receive, Config, from_traders, from_lps, Runs, here, next, start, no_traders, no_lps,
  trader_messages, lp_messages,
}

-- The handler is through with its loop.
abbrev pub Final : Handler → Type 0
Final (receiving zero t lp) = Unit {0}
Final (receiving (suc k) t lp) = ⊥
Final (returned e) = Unit {0}

-- A run, with the lists and the handler apart, so that a case split sees them.
pub data Ends
    : List Message → List Message → Handler → List Message → List Message → Handler → Type 0 where
  done : (ts ls : List Message) (h : Handler) → Ends ts ls h ts ls h
  take_t :
      {m : Message} {ts ls ts' ls' : List Message} {k : ℕ} {t : TraderChan} {lp : LpChan}
      {h : Handler}
      → Ends ts ls (receive m k t lp) ts' ls' h
      → Ends (m ∷ ts) ls (receiving (suc k) t lp) ts' ls' h
  take_l :
      {m : Message} {ts ls ts' ls' : List Message} {k : ℕ} {t : TraderChan} {lp : LpChan}
      {h : Handler}
      → Ends ts ls (receive m k t lp) ts' ls' h
      → Ends ts (m ∷ ls) (receiving (suc k) t lp) ts' ls' h

Runs-Ends : {c d : Config} → Runs c d → Ends c.traders c.lps c.handler d.traders d.lps d.handler
Runs-Ends (here c) = done c.traders c.lps c.handler
Runs-Ends (next (from_traders m ms ls k t lp) r) = take_t (Runs-Ends r)
Runs-Ends (next (from_lps m ms ls k t lp) r) = take_l (Runs-Ends r)

same_receive :
    (m : Message) (k k' : ℕ) (t t' : TraderChan) (lp lp' : LpChan)
    → receiving (suc k) t lp ≡ receiving (suc k') t' lp'
    → receive m k t lp ≡ receive m k' t' lp'
same_receive m k k' t t' lp lp' e = cc

-- The rest of a run once the next message of one goroutine is taken, if it has one.
abbrev pub AfterTraders :
    (ts ls : List Message)
    → ℕ
    → TraderChan
    → LpChan
    → List Message
    → List Message
    → Handler
    → Type 0
AfterTraders [] ls k t lp ts' ls' h = ⊥
AfterTraders (m ∷ ms) ls k t lp ts' ls' h = Ends ms ls (receive m k t lp) ts' ls' h

abbrev pub AfterLps :
    (ts ls : List Message)
    → ℕ
    → TraderChan
    → LpChan
    → List Message
    → List Message
    → Handler
    → Type 0
AfterLps ts [] k t lp ts' ls' h = ⊥
AfterLps ts (m ∷ ms) k t lp ts' ls' h = Ends ts ms (receive m k t lp) ts' ls' h

-- A handler that waits ends only by taking a message.
takes_next :
    {ts ls ts' ls' : List Message} {h h' : Handler} (k : ℕ) (t : TraderChan) (lp : LpChan)
    → Ends ts ls h ts' ls' h'
    → Final h'
    → h ≡ receiving (suc k) t lp
    → AfterTraders ts ls k t lp ts' ls' h' ⊎ AfterLps ts ls k t lp ts' ls' h'
takes_next k t lp (done ts ls h) f e = absurd (subst Final e f)
takes_next k t lp (take_t {m} {ts} {ls} {ts'} {ls'} {k = k'} {t = t'} {lp = lp'} {h} r) f e =
    inl (subst (λ g. Ends ts ls g ts' ls' h) (same_receive m k' k t' t lp' lp e) r)
takes_next k t lp (take_l {m} {ts} {ls} {ts'} {ls'} {k = k'} {t = t'} {lp = lp'} {h} r) f e =
    inr (subst (λ g. Ends ts ls g ts' ls' h) (same_receive m k' k t' t lp' lp e) r)

-- A handler that is through takes no more.
takes_no_more :
    {ts ls ts' ls' : List Message} {h h' : Handler}
    → Ends ts ls h ts' ls' h'
    → Final h
    → (h' ≡ h) × (ts' ≡ ts) × (ls' ≡ ls)
takes_no_more (done ts ls h) f = (refl, refl, refl)
takes_no_more (take_t r) f = absurd f
takes_no_more (take_l r) f = absurd f

not-nil : {m : Message} {ms : List Message} → m ∷ ms ≢ []
not-nil e = cc

append-not-nil : (ts : List Message) (m : Message) (ms : List Message) → ts ++ (m ∷ ms) ≢ []
append-not-nil [] m ms e = cc
append-not-nil (t ∷ ts) m ms e = cc

cons_left :
    {ts : List Message} (ls : List Message) {m : Message} {ms : List Message}
    → ts ≡ m ∷ ms
    → ts ++ ls ≢ []
cons_left ls e p = not-nil (sym (ap (λ us. us ++ ls) e) ∙ p)

cons_right :
    (ts : List Message) {ls : List Message} {m : Message} {ms : List Message}
    → ls ≡ m ∷ ms
    → ts ++ ls ≢ []
cons_right ts {m} {ms} e p = append-not-nil ts m ms (sym (ap (λ us. ts ++ us) e) ∙ p)

module _ (t₀ : TraderChan) (l₀ : LpChan) where
  collects :
      (t : TraderChan) (l : LpChan) {ts' ls' : List Message} {h : Handler}
      → Ends (trader_message t ∷ []) (lp_message l ∷ []) (receiving 2 t₀ l₀) ts' ls' h
      → Final h
      → h ≡ receiving 0 t l
  unfolding receive
  collects t l r f = elim (takes_next 1 t₀ l₀ r f refl) [
    | inl r' ↦ elim (takes_next 0 t l₀ r' f refl) [
      | inl no_more ↦ absurd no_more
      | inr r'' ↦ (takes_no_more r'' tt).0
    ]
    | inr r' ↦ elim (takes_next 0 t₀ l r' f refl) [
      | inl r'' ↦ (takes_no_more r'' tt).0
      | inr no_more ↦ absurd no_more
    ]
  ]

  bad_traders :
      (e : Error) (m : Message) (ms : List Message) (l : LpChan) {ts' ls' : List Message}
      {h : Handler}
      → Ends (err_message e ∷ m ∷ ms) (lp_message l ∷ []) (receiving 2 t₀ l₀) ts' ls' h
      → Final h
      → (h ≡ returned e) × (ts' ++ ls' ≢ [])
  unfolding receive
  bad_traders e m ms l r f = elim (takes_next 1 t₀ l₀ r f refl) [
    | inl r' ↦ let (p, q, _) = takes_no_more r' tt in (p, cons_left _ q)
    | inr r' ↦ elim (takes_next 0 t₀ l r' f refl) [
      | inl r'' ↦ let (p, q, _) = takes_no_more r'' tt in (p, cons_left _ q)
      | inr no_more ↦ absurd no_more
    ]
  ]

  bad_lps :
      (t : TraderChan) (e : Error) (m : Message) (ms : List Message) {ts' ls' : List Message}
      {h : Handler}
      → Ends (trader_message t ∷ []) (err_message e ∷ m ∷ ms) (receiving 2 t₀ l₀) ts' ls' h
      → Final h
      → (h ≡ returned e) × (ts' ++ ls' ≢ [])
  unfolding receive
  bad_lps t e m ms r f = elim (takes_next 1 t₀ l₀ r f refl) [
    | inr r' ↦ let (p, _, q) = takes_no_more r' tt in (p, cons_right _ q)
    | inl r' ↦ elim (takes_next 0 t l₀ r' f refl) [
      | inr r'' ↦ let (p, _, q) = takes_no_more r'' tt in (p, cons_right _ q)
      | inl no_more ↦ absurd no_more
    ]
  ]

  bad_both :
      (e g : Error) (m n : Message) (ms ns : List Message) {ts' ls' : List Message} {h : Handler}
      → Ends (err_message e ∷ m ∷ ms) (err_message g ∷ n ∷ ns) (receiving 2 t₀ l₀) ts' ls' h
      → Final h
      → ((h ≡ returned e) ⊎ (h ≡ returned g)) × (ts' ++ ls' ≢ [])
  unfolding receive
  bad_both e g m n ms ns r f = elim (takes_next 1 t₀ l₀ r f refl) [
    | inl r' ↦ let (p, q, _) = takes_no_more r' tt in (inl p, cons_left _ q)
    | inr r' ↦ let (p, _, q) = takes_no_more r' tt in (inr p, cons_right _ q)
  ]

-- How the handler may end, from the messages that the goroutines have to send: with what both have
-- found; or with an error that one of them sends, and then a goroutine is left with a message that
-- nobody will take.
abbrev pub Outcome : List Message → List Message → Config → Type 0
Outcome (trader_message t ∷ []) (lp_message l ∷ []) d = d.handler ≡ receiving 0 t l
Outcome (err_message e ∷ ms) (lp_message l ∷ []) d =
    (d.handler ≡ returned e) × (d.traders ++ d.lps ≢ [])
Outcome (trader_message t ∷ []) (err_message e ∷ ms) d =
    (d.handler ≡ returned e) × (d.traders ++ d.lps ≢ [])
Outcome (err_message e ∷ ms) (err_message g ∷ ns) d =
    ((d.handler ≡ returned e) ⊎ (d.handler ≡ returned g)) × (d.traders ++ d.lps ≢ [])
Outcome _ _ d = ⊥

bad_traders-Outcome :
    (e : Error) (m : Message) (ms : List Message) (p : Result (List ℤ × ℤ)) (d : Config)
    → Runs (start (err_message e ∷ m ∷ ms) (lp_messages p)) d
    → Final d.handler
    → Outcome (err_message e ∷ m ∷ ms) (lp_messages p) d
unfolding lp_messages
bad_traders-Outcome e m ms (ok (b, s)) d r f =
    bad_traders no_traders no_lps e m ms _ (Runs-Ends r) f
bad_traders-Outcome e m ms (err g) d r f = bad_both no_traders no_lps e g m _ ms [] (Runs-Ends r) f

good_traders-Outcome :
    (t : TraderChan) (p : Result (List ℤ × ℤ)) (d : Config)
    → Runs (start (trader_message t ∷ []) (lp_messages p)) d
    → Final d.handler
    → Outcome (trader_message t ∷ []) (lp_messages p) d
unfolding lp_messages
good_traders-Outcome t (ok (b, s)) d r f = collects no_traders no_lps t _ (Runs-Ends r) f
good_traders-Outcome t (err g) d r f = bad_lps no_traders no_lps t g _ [] (Runs-Ends r) f

-- For every run of the goroutines and the handler that ends with the handler through, in whatever
-- order the messages came: the handler has what both goroutines found if neither failed, and
-- otherwise has returned an error that one of them sent first; after an error some goroutine is
-- left with a message that nobody will take.
pub handler-Outcome :
    (queried : Result (Dict Text ℤ × ℤ)) (found : Result (List (Text × Text)))
    (lps : Result (List ℤ × ℤ)) (d : Config)
    → Runs (start (trader_messages queried found) (lp_messages lps)) d
    → Final d.handler
    → Outcome (trader_messages queried found) (lp_messages lps) d
unfolding trader_messages reassign_trader_balances
handler-Outcome (ok (bal, total)) (ok pairs) lps d r f = good_traders-Outcome _ lps d r f
handler-Outcome (ok (bal, total)) (err e) lps d r f = bad_traders-Outcome e _ [] lps d r f
handler-Outcome (err e) (ok pairs) lps d r f = bad_traders-Outcome e _ [] lps d r f
handler-Outcome (err e) (err g) lps d r f = bad_traders-Outcome e _ _ lps d r f
