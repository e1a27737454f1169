-- ===== src/Processor/Transition.antt =====
-- `StateTransition` (core/stateprocessor/statetransition.go). `none` is a panic of the state.
use mjoy_go.Base.{
  ℕ, ◌+◌, ◌/◌, ◌%◌, u64_mod, Bool, true, false, Option, none, some, ltb, if◌then◌else◌,
}
use mjoy_go.Base.Int.{ℤ, pos, negsuc, ◌+ℤ◌, ltb_ℤ}
use mjoy_go.State.Types.{Env, StateDb}
use mjoy_go.State.Db
use mjoy_go.State.Journal.{snapshot, revert_to_snapshot}

pub record Message : Type 0 where
  pub from : ℕ
  pub to : Option ℕ
  pub value : ℤ
  pub nonce : ℕ
  pub check_nonce : Bool

pub data TransitionError : Type 0 where
  nonce_too_high nonce_too_low no_creation : TransitionError
  insufficient_balance : ℕ → TransitionError

-- The results `failed` and `err` of `TransitionDb`.
pub data Status : Type 0 where
  ok : Status
  err : Bool → TransitionError → Status

-- `new(big.Int).Div`, which rounds down for a positive divisor.
abbrev pub div_ℤ : ℤ → ℕ → ℤ
div_ℤ (pos n) d = pos (n / d)
div_ℤ (negsuc n) d = negsuc (n / d)

-- A thousandth of the value, and at least one.
unfoldable pub fee_of : ℤ → ℤ
fee_of value = let fee : ℤ = div_ℤ value 1000 in if ltb_ℤ fee (pos 1) then pos 1 else fee

abbrev pub check : ℕ → ℕ → Option TransitionError
check nonce wanted =
    if ltb nonce wanted
    then some nonce_too_high
    else (if ltb wanted nonce then some nonce_too_low else none)

abbrev pub failing : TransitionError → Option StateDb → Option (Status × StateDb)
failing e none = none
failing e (some s) = some (err true e, s)

module _ (env : Env) where
  -- `from` makes the sender's account if it does not exist.
  unfoldable pub from : ℕ → StateDb → StateDb
  from a s = let (there, s') = Db.exist env a s in if there then s' else Db.create_account env a s'

  unfoldable pub pre_check : Message → StateDb → Option TransitionError × StateDb
  pre_check msg s =
      let s' : StateDb = from msg.from s in
      if msg.check_nonce
      then (let (nonce, s'') = Db.get_nonce env msg.from s' in (check nonce msg.nonce, s''))
      else (none, s')

  -- The recipient, the miner and the sender, once the sender can pay.
  unfoldable pub pay : ℕ → ℕ → Message → StateDb → StateDb
  pay coinbase to msg s =
      Db.sub_balance env msg.from (fee_of msg.value +ℤ msg.value)
        (Db.add_balance env coinbase (fee_of msg.value) (Db.add_balance env to msg.value s))

  -- The nonce moves before the balance is looked at.
  unfoldable pub bump_nonce : ℕ → StateDb → StateDb
  bump_nonce a s = let (n, s') = Db.get_nonce env a s in Db.set_nonce env a ((n + 1) % u64_mod) s'

  unfoldable pub transfer : ℕ → ℕ → Message → ℕ → StateDb → Option (Status × StateDb)
  transfer coinbase to msg revid s =
      let (balance, s') = Db.get_balance env msg.from (bump_nonce msg.from s) in
      if ltb_ℤ balance (fee_of msg.value +ℤ msg.value)
      then failing (insufficient_balance msg.from) (revert_to_snapshot env revid s')
      else some (ok, pay coinbase to msg s')

  abbrev pub execute : ℕ → Option ℕ → Message → StateDb → Option (Status × StateDb)
  execute coinbase none msg s =
      let (revid, s') = snapshot s in failing no_creation (revert_to_snapshot env revid s')
  execute coinbase (some to) msg s =
      let (revid, s') = snapshot s in transfer coinbase to msg revid s'

  abbrev pub after_check :
      ℕ → Message → Option TransitionError × StateDb → Option (Status × StateDb)
  after_check coinbase msg (some e, s) = some (err false e, s)
  after_check coinbase msg (none, s) = execute coinbase msg.to msg (from msg.from s)

  -- `TransitionDb`
  unfoldable pub transition_db : ℕ → Message → StateDb → Option (Status × StateDb)
  transition_db coinbase msg s = after_check coinbase msg (pre_check msg s)
