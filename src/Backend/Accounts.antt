-- ===== src/Backend/Accounts.antt =====
-- What the changes of a run leave in the accounts, as the executor sees them through `Backend`.
use ethereum_prototype.Base.{
  ℕ, ◌≡◌, refl, ◌∙◌, sym, ap, push, Bool, false, ◌&&◌, Option, none, some, List, [], ◌∷◌, ◌==◌,
  ◌++◌, if◌then◌else◌, arith,
}
use mathlib.Core.List.{append-nil, append_assoc}
use ethereum_prototype.Base.Map.{get, get-insert, get-remove, get-nil, insert}
use ethereum_prototype.Crates.Evm.{Apply, modify, delete, Basic, Log}
use ethereum_prototype.Backend.{
  Accounts, EthDbBackend, account_or_default, modify_account, is_empty, apply_one, apply_values,
  apply, push_logs, view,
}
use ethereum_prototype.Backend.Storage.{value_of, value_of-entry_of, last_write, get-modify_storage}

-- A change touches the account that it names and no other. A modified account that is empty goes if
-- empty accounts are to be deleted.
pub get-apply_one :
    (delete_empty : Bool) (accounts : Accounts) (a : Apply) (other : ℕ)
    → get (apply_one delete_empty accounts a) other ≡ elim a [
      | modify address basic code writes reset ↦
          let account =
            modify_account (account_or_default (get accounts address)) basic code writes reset in
          if address == other
          then (if is_empty account && delete_empty then none else some account)
          else get accounts other
      | delete address ↦ if address == other then none else get accounts other
    ]
unfolding apply_one
get-apply_one delete_empty accounts (delete address) other = get-remove accounts address other
get-apply_one delete_empty accounts (modify address basic code writes reset) other =
    let account =
      modify_account (account_or_default (get accounts address)) basic code writes reset in
    ground (
      arith,
      get-insert accounts address other account,
      get-remove (insert accounts address account) address other,
    )

-- The accounts as the executor reads them: every address has a balance, a nonce, a code and a
-- storage in which every slot has a value.
pub record World : Type 0 where
  pub basic : ℕ → Basic
  pub code : ℕ → List ℕ
  pub storage : ℕ → ℕ → ℕ

abbrev pub world : EthDbBackend → World
world b = record { basic = (view b).basic; code = (view b).code; storage = (view b).storage }

-- What a change means for the world.
abbrev pub change : World → Apply → World
change w (modify address basic code writes reset) = record {
  basic = λ other. if address == other then basic else w.basic other;
  code = λ other.
      if address == other then elim code [ some c ↦ c | none ↦ w.code other ] else w.code other;
  storage = λ other slot.
      if address == other
      then last_write writes slot (if reset then 0 else w.storage other slot)
      else w.storage other slot;
}
change w (delete address) = record {
  basic = λ other. if address == other then record { balance = 0; nonce = 0 } else w.basic other;
  code = λ other. if address == other then [] else w.code other;
  storage = λ other slot. if address == other then 0 else w.storage other slot;
}

abbrev changed : EthDbBackend → Apply → EthDbBackend
changed b a = record b { accounts = apply_one false b.accounts a }

module _ (b : EthDbBackend) (address : ℕ) (basic : Basic) (code : Option (List ℕ))
    (writes : List (ℕ × ℕ)) (reset : Bool) (other : ℕ) where
  abbrev modification : Apply
  modification = modify address basic code writes reset

  basic-modify :
      (view (changed b modification)).basic other ≡ (change (world b) modification).basic other
  unfolding view modify_account
  basic-modify = ground (arith, get-apply_one false b.accounts modification other)

  code-modify :
      (view (changed b modification)).code other ≡ (change (world b) modification).code other
  unfolding view modify_account
  code-modify = ground (arith, get-apply_one false b.accounts modification other)

  storage-modify :
      (slot : ℕ)
      → (view (changed b modification)).storage other slot
        ≡ (change (world b) modification).storage other slot
  unfolding view modify_account
  storage-modify slot =
      let account = account_or_default (get b.accounts address) in
      ground (
        arith,
        get-apply_one false b.accounts modification other,
        get-modify_storage account.storage writes reset slot,
        value_of-entry_of
            (last_write writes slot (if reset then 0 else value_of (get account.storage slot))),
        get-nil {V = ℕ} slot,
      )

module _ (b : EthDbBackend) (address other : ℕ) where
  basic-delete :
      (view (changed b (delete address))).basic other
      ≡ (change (world b) (delete address)).basic other
  unfolding view
  basic-delete = ground (arith, get-apply_one false b.accounts (delete address) other)

  code-delete :
      (view (changed b (delete address))).code other
      ≡ (change (world b) (delete address)).code other
  unfolding view
  code-delete = ground (arith, get-apply_one false b.accounts (delete address) other)

  storage-delete :
      (slot : ℕ)
      → (view (changed b (delete address))).storage other slot
        ≡ (change (world b) (delete address)).storage other slot
  unfolding view
  storage-delete slot = ground (arith, get-apply_one false b.accounts (delete address) other)

world-apply_one : (b : EthDbBackend) (a : Apply) → world (changed b a) ≡ change (world b) a
world-apply_one b (modify address basic code writes reset) = λ i. record {
  basic = λ other. basic-modify b address basic code writes reset other i;
  code = λ other. code-modify b address basic code writes reset other i;
  storage = λ other slot. storage-modify b address basic code writes reset other slot i;
}
world-apply_one b (delete address) = λ i. record {
  basic = λ other. basic-delete b address other i;
  code = λ other. code-delete b address other i;
  storage = λ other slot. storage-delete b address other slot i;
}

-- The world after all the changes of a run, in order.
abbrev pub changes : World → List Apply → World
changes w [] = w
changes w (a ∷ values) = changes (change w a) values

world-apply_values :
    (values : List Apply) (b : EthDbBackend)
    → world (record b { accounts = apply_values false b.accounts values })
      ≡ changes (world b) values
unfolding apply_values
world-apply_values [] b = refl
world-apply_values (a ∷ values) b =
    world-apply_values values (changed b a) ∙ ap (λ w. changes w values) (world-apply_one b a)

push_logs-eq-append : (more logs : List Log) → push_logs logs more ≡ logs ++ more
unfolding push_logs
push_logs-eq-append [] logs = sym (append-nil logs)
push_logs-eq-append (l ∷ more) logs =
    push_logs-eq-append more (push logs l) ∙ append_assoc logs (l ∷ []) more

-- Applying the changes of a run does to the world what the changes mean, one after the other, and
-- appends the logs.
pub apply_lem :
    (b : EthDbBackend) (values : List Apply) (logs : List Log)
    → (world (apply b values logs false) ≡ changes (world b) values)
      × ((apply b values logs false).info.logs ≡ b.info.logs ++ logs)
unfolding apply view
apply_lem b values logs = (world-apply_values values b, push_logs-eq-append logs b.info.logs)
