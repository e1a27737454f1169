-- ===== src/Processor/Ledger.antt =====
-- Balances and nonces of the whole table of accounts, under the operations that a message uses.
use mjoy_go.Base.{
  ℕ, ◌≡◌, refl, true, none, ◌==◌, ==_cases, ==_self, if◌then◌else◌, Bool-cases, inl, inr, ap, ◌∙◌,
  sym, arith,
}
use mjoy_go.Base.Int.{ℤ, pos, ◌+ℤ◌, ◌-ℤ◌, is_zero}
use mjoy_go.State.Types.{Env}
use mjoy_go.State.Object.{new_object}
use mjoy_go.State.View.{View, Abstract}
use mjoy_go.State.Effects.{account_at, plus, minus}
use mjoy_go.State.Refinement.{carried, effect}
use mjoy_go.State.Getters.{nonce_of}
use mjoy_go.State.Ops

module _ (env : Env) where
  abbrev pub balance : ℕ → Abstract → ℤ
  balance x A = carried env (A.look x)

  abbrev pub nonce : ℕ → Abstract → ℕ
  nonce x A = nonce_of (A.look x)

  -- The same balances and nonces, at every address.
  pub record Agrees (A B : Abstract) : Type 0 where
    pub balances : (x : ℕ) → balance x A ≡ balance x B
    pub nonces : (x : ℕ) → nonce x A ≡ nonce x B

  pub Agrees-trans : {A B C : Abstract} → Agrees A B → Agrees B C → Agrees A C
  Agrees-trans p q = record {
    balances = λ x. p.balances x ∙ q.balances x;
    nonces = λ x. p.nonces x ∙ q.nonces x;
  }

  pub Agrees-eq : {A B : Abstract} → A ≡ B → Agrees A B
  Agrees-eq e = record { balances = λ x. ap (balance x) e; nonces = λ x. ap (nonce x) e }

  -- A fresh account has no balance and the nonce 0, as a missing one.
  balance-account_at : (a : ℕ) (A : Abstract) → (account_at env a A).account.balance ≡ balance a A
  unfolding new_object
  balance-account_at a A = ground arith

  nonce-account_at : (a : ℕ) (A : Abstract) → (account_at env a A).account.nonce ≡ nonce a A
  unfolding new_object
  nonce-account_at a A = ground arith

  -- An amount, at one address.
  abbrev pub only : ℕ → ℤ → ℕ → ℤ
  only a v x = if a == x then v else pos 0

  zero_right : (b v : ℤ) → is_zero v ≡ true → b ≡ b +ℤ v
  unfolding ◌+ℤ◌
  zero_right b v h = ground arith

  add-zero : (b : ℤ) → b ≡ b +ℤ pos 0
  add-zero b = zero_right b (pos 0) refl

  sub-zero : (b v : ℤ) → is_zero v ≡ true → b ≡ b -ℤ v
  unfolding ◌-ℤ◌
  sub-zero b v h = ground arith

  plus-balance : (v : ℤ) (w : View) → (plus env v w).account.balance ≡ w.account.balance +ℤ v
  plus-balance v w = elim (Bool-cases (is_zero v)) [
    | inl z ↦ rw z (zero_right w.account.balance v z)
    | inr z ↦ rw z
  ]

  minus-balance : (v : ℤ) (w : View) → (minus env v w).account.balance ≡ w.account.balance -ℤ v
  minus-balance v w = elim (Bool-cases (is_zero v)) [
    | inl z ↦ rw z (sub-zero w.account.balance v z)
    | inr z ↦ rw z
  ]

  plus-nonce : (v : ℤ) (w : View) → (plus env v w).account.nonce ≡ w.account.nonce
  plus-nonce v w = ground arith

  minus-nonce : (v : ℤ) (w : View) → (minus env v w).account.nonce ≡ w.account.nonce
  minus-nonce v w = ground arith

  pub balance-add :
      (a : ℕ) (v : ℤ) (A : Abstract) (x : ℕ)
      → balance x (effect env (Ops.add_balance a v) A) ≡ balance x A +ℤ only a v x
  balance-add a v A x = elim (==_cases a x) [
    | inl e ↦
        rw (← e, ==_self a)
          (plus-balance v (account_at env a A) ∙ ap (λ b. b +ℤ v) (balance-account_at a A))
    | inr e ↦ rw e (add-zero (balance x A))
  ]

  pub balance-sub :
      (a : ℕ) (v : ℤ) (A : Abstract) (x : ℕ)
      → balance x (effect env (Ops.sub_balance a v) A) ≡ balance x A -ℤ only a v x
  balance-sub a v A x = elim (==_cases a x) [
    | inl e ↦
        rw (← e, ==_self a)
          (minus-balance v (account_at env a A) ∙ ap (λ b. b -ℤ v) (balance-account_at a A))
    | inr e ↦ rw e (sub-zero (balance x A) (pos 0) refl)
  ]

  pub nonce-add :
      (a : ℕ) (v : ℤ) (A : Abstract) (x : ℕ)
      → nonce x (effect env (Ops.add_balance a v) A) ≡ nonce x A
  nonce-add a v A x = elim (==_cases a x) [
    | inl e ↦ rw (← e, ==_self a) (plus-nonce v (account_at env a A) ∙ nonce-account_at a A)
    | inr e ↦ rw e
  ]

  pub nonce-sub :
      (a : ℕ) (v : ℤ) (A : Abstract) (x : ℕ)
      → nonce x (effect env (Ops.sub_balance a v) A) ≡ nonce x A
  nonce-sub a v A x = elim (==_cases a x) [
    | inl e ↦ rw (← e, ==_self a) (minus-nonce v (account_at env a A) ∙ nonce-account_at a A)
    | inr e ↦ rw e
  ]

  pub balance-set_nonce :
      (a n : ℕ) (A : Abstract) (x : ℕ) → balance x (effect env (Ops.set_nonce a n) A) ≡ balance x A
  balance-set_nonce a n A x = elim (==_cases a x) [
    | inl e ↦ rw (← e, ==_self a) (balance-account_at a A)
    | inr e ↦ rw e
  ]

  pub nonce-set_nonce :
      (a n : ℕ) (A : Abstract) (x : ℕ)
      → nonce x (effect env (Ops.set_nonce a n) A) ≡ (if a == x then n else nonce x A)
  nonce-set_nonce a n A x = elim (==_cases a x) [ inl e ↦ rw (← e, ==_self a) | inr e ↦ rw e ]

  -- To make a missing account changes no balance and no nonce.
  pub create-Agrees :
      (a : ℕ) (A : Abstract) → A.look a ≡ none → Agrees (effect env (Ops.create_account a) A) A
  unfolding new_object
  create-Agrees a A missing = record { balances = balances; nonces = nonces }
    where
      balances : (x : ℕ) → balance x (effect env (Ops.create_account a) A) ≡ balance x A
      balances x = elim (==_cases a x) [ inl e ↦ rw (← e, ==_self a) | inr e ↦ rw e ]

      nonces : (x : ℕ) → nonce x (effect env (Ops.create_account a) A) ≡ nonce x A
      nonces x = elim (==_cases a x) [
        | inl e ↦ rw (← e, ==_self a) (sym (ap nonce_of missing))
        | inr e ↦ rw e
      ]
