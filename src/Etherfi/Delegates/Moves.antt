-- ===== src/Etherfi/Delegates/Moves.antt =====
-- What the re-assignment moves, and when nothing is lost.
use d8x_etherfi.Base.{
  List, [], ◌∷◌, Text, none, some, text_eq, text_beq, text_beq_iff, text_beq_refl, text_beq_ne, ◌≡◌,
  ◌≢◌, refl, sym, ap, ◌∙◌, inl, inr, Option-cases, Bool-cases, if◌then◌else◌, All,
}
use d8x_etherfi.Base.Int.{ℤ, pos, ◌+ℤ◌, int_laws, parts_of_eq}
use d8x_etherfi.Base.Dict.{
  Dict, lookup, insert, balance_of, total, total-insert, balance_of-insert, added_balance,
}
use d8x_etherfi.Etherfi.Delegates.{reassign_one, reassign}

-- The balances after one pair, in one form: the wallet's is 0 and the delegate has both.
moved : Text → Text → Dict Text ℤ → Dict Text ℤ
moved addr d bal = insert addr (pos 0) (insert d (balance_of d bal +ℤ balance_of addr bal) bal)

reassign_one-some :
    (addr d : Text) (bal : Dict Text ℤ) {v : ℤ}
    → lookup addr bal ≡ some v
    → reassign_one (addr, d) bal ≡ moved addr d bal
unfolding reassign_one moved
reassign_one-some addr d bal {v} p =
    let step : reassign_one (addr, d) bal
        ≡ insert addr (pos 0) (insert d (elim (lookup d bal) [ none ↦ v | some u ↦ u +ℤ v ]) bal) =
      rw (p, reassign_one) in
    let has : v ≡ balance_of addr bal = rw (p, balance_of) in
    step
    ∙ ap (λ s. insert addr (pos 0) (insert d s bal))
        (added_balance d v bal ∙ ap (λ u. balance_of d bal +ℤ u) has)

unmoved :
    (addr d x : Text) (bal : Dict Text ℤ)
    → lookup addr bal ≡ none
    → balance_of x bal ≡ (
        if text_beq addr x
        then pos 0
        else if text_beq d x
        then balance_of d bal +ℤ balance_of addr bal
        else balance_of x bal)
unmoved addr d x bal p =
    let nothing : balance_of addr bal ≡ pos 0 = rw (p, balance_of) in
    elim (Bool-cases (text_beq addr x)) [
      | inl q ↦ rw q (ap (λ y. balance_of y bal) (sym ((text_beq_iff addr x).0 q)) ∙ nothing)
      | inr q ↦ elim (Bool-cases (text_beq d x)) [
        | inl r ↦
            rw (q, r)
              (ap (λ y. balance_of y bal) (sym ((text_beq_iff d x).0 r))
                ∙ omega (int_laws, parts_of_eq nothing))
        | inr r ↦ rw (q, r)
      ]
    ]

-- After one pair of a wallet and another account as its delegate, the wallet's balance is 0, the
-- delegate's is the sum of both, and no other balance has changed.
pub balance_of-reassign_one :
    (addr d x : Text) (bal : Dict Text ℤ)
    → addr ≢ d
    → balance_of x (reassign_one (addr, d) bal) ≡ (
        if text_beq addr x
        then pos 0
        else if text_beq d x
        then balance_of d bal +ℤ balance_of addr bal
        else balance_of x bal)
unfolding reassign_one moved
balance_of-reassign_one addr d x bal h = elim (Option-cases (lookup addr bal)) [
  | inl p ↦ rw (p, reassign_one) (unmoved addr d x bal p)
  | inr (v, p) ↦ rw (
    reassign_one-some addr d bal p,
    moved,
    balance_of-insert x addr (pos 0) (insert d (balance_of d bal +ℤ balance_of addr bal) bal),
    balance_of-insert x d (balance_of d bal +ℤ balance_of addr bal) bal,
  )
]

-- A re-assignment from an account to another keeps the sum of all balances.
pub total-reassign_one :
    (addr d : Text) (bal : Dict Text ℤ) → addr ≢ d → total (reassign_one (addr, d) bal) ≡ total bal
unfolding reassign_one moved
total-reassign_one addr d bal h = elim (Option-cases (lookup addr bal)) [
  | inl p ↦ rw (p, reassign_one)
  | inr (v, p) ↦
      let both = balance_of d bal +ℤ balance_of addr bal in
      let kept : balance_of addr (insert d both bal) ≡ balance_of addr bal =
        balance_of-insert addr d both bal ∙ rw (text_beq_ne d addr (λ e. h (sym e))) in
      rw (reassign_one-some addr d bal p, moved)
        (omega (
          int_laws,
          parts_of_eq kept,
          parts_of_eq (total-insert d both bal),
          parts_of_eq (total-insert addr (pos 0) (insert d both bal)),
        ))
]

pub total-reassign :
    (pairs : List (Text × Text)) (bal : Dict Text ℤ)
    → All (λ p. p.0 ≢ p.1) pairs
    → total (reassign pairs bal) ≡ total bal
unfolding reassign
total-reassign [] bal h = refl
total-reassign ((a, d) ∷ ps) bal (h, hs) =
    total-reassign ps (reassign_one (a, d) bal) hs ∙ total-reassign_one a d bal h

-- A wallet that has no balance and is no delegate of a later pair still has none at the end.
stays_empty :
    (a : Text) (pairs : List (Text × Text)) (bal : Dict Text ℤ)
    → All (λ p. p.0 ≢ p.1) pairs
    → All (λ p. p.1 ≢ a) pairs
    → balance_of a bal ≡ pos 0
    → balance_of a (reassign pairs bal) ≡ pos 0
unfolding reassign
stays_empty a [] bal h k e = e
stays_empty a ((b, d) ∷ ps) bal (h, hs) (k, ks) e =
    stays_empty a ps (reassign_one (b, d) bal) hs ks (
      balance_of-reassign_one b d a bal h ∙ elim (Bool-cases (text_beq b a)) [
        | inl same ↦ rw same
        | inr other ↦ rw (other, text_beq_ne d a k) e
      ])

-- No account of the first list is a delegate in the second.
abbrev pub Apart : List (Text × Text) → List (Text × Text) → Type 0
Apart ps qs = All (λ p. All (λ q. q.1 ≢ p.0) qs) ps

Apart-tail : (q : Text × Text) (ps qs : List (Text × Text)) → Apart ps (q ∷ qs) → Apart ps qs
Apart-tail q [] qs h = tt
Apart-tail q (p ∷ ps) qs ((_, h), hs) = (h, Apart-tail q ps qs hs)

Apart-ne : (ps : List (Text × Text)) → Apart ps ps → All (λ p. p.0 ≢ p.1) ps
Apart-ne [] h = tt
Apart-ne (p ∷ ps) ((h, _), hs) = (λ e. h (sym e), Apart-ne ps (Apart-tail p ps ps hs))

reassign-empties :
    (ps : List (Text × Text)) (bal : Dict Text ℤ)
    → Apart ps ps
    → All (λ p. balance_of p.0 (reassign ps bal) ≡ pos 0) ps
unfolding reassign
reassign-empties [] bal h = tt
reassign-empties ((a, d) ∷ ps) bal ((h, k), hs) =
    let rest = Apart-tail (a, d) ps ps hs in
    let now : balance_of a (reassign_one (a, d) bal) ≡ pos 0 =
      balance_of-reassign_one a d a bal (λ e. h (sym e)) ∙ rw (text_beq_refl a) in
    (
      stays_empty a ps (reassign_one (a, d) bal) (Apart-ne ps rest) k now,
      reassign-empties ps (reassign_one (a, d) bal) rest,
    )

-- If no wallet is a delegate, the re-assignment leaves every wallet of the list with nothing and
-- keeps the sum of all balances.
pub reassign_lem :
    (pairs : List (Text × Text)) (bal : Dict Text ℤ)
    → Apart pairs pairs
    → All (λ p. balance_of p.0 (reassign pairs bal) ≡ pos 0) pairs
      × (total (reassign pairs bal) ≡ total bal)
reassign_lem pairs bal h =
    (reassign-empties pairs bal h, total-reassign pairs bal (Apart-ne pairs h))

-- After a pair of a wallet with itself the sum of the balances is less by the wallet's balance.
pub reassign_own-loses :
    (a : Text) (bal : Dict Text ℤ) → total (reassign_one (a, a) bal) +ℤ balance_of a bal ≡ total bal
unfolding reassign_one moved
reassign_own-loses a bal = elim (Option-cases (lookup a bal)) [
  | inl p ↦
      let nothing : balance_of a bal ≡ pos 0 = rw (p, balance_of) in
      rw (p, reassign_one) (omega (int_laws, parts_of_eq nothing))
  | inr (v, p) ↦
      let both = balance_of a bal +ℤ balance_of a bal in
      let same : balance_of a (insert a both bal) ≡ both =
        balance_of-insert a a both bal ∙ rw (text_beq_refl a) in
      rw (reassign_one-some a a bal p, moved)
        (omega (
          int_laws,
          parts_of_eq same,
          parts_of_eq (total-insert a both bal),
          parts_of_eq (total-insert a (pos 0) (insert a both bal)),
        ))
]
