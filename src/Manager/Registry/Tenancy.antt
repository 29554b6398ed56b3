-- ===== src/Manager/Registry/Tenancy.antt =====
-- Devices of another account: not listed, not reached, not told apart from unknown ones.
use codebridge.Base.{
  ℕ, String, Bool, ◌≡◌, ◌≢◌, refl, Option, none, some, [], ◌∷◌, arith, str_eq, eq_iff, Bool-cases,
  inl, inr, select,
}
use codebridge.Base.Map.{Dict, lookup}
use codebridge.Manager.Registry.{workspaces, list_from, list, list_account_from, list_account}
use codebridge.Manager.Calls.{Start, start_call}
use codebridge.Manager.Connections.{Device, Registry, conn_for, err, offline_or_unknown}

-- The id names no connection, or one of another account.
abbrev pub IsForeign : Registry → String → String → Type 0
IsForeign r account id =
    (c : ℕ) → lookup id r.devices ≡ some c → ((r.heap c).device).account_id ≢ account

conn_for-foreign :
    (r : Registry) (account : String) (o : Option ℕ)
    → ((c : ℕ) → o ≡ some c → ((r.heap c).device).account_id ≢ account)
    → conn_for r account o ≡ none
conn_for-foreign r account none h = refl
conn_for-foreign r account (some c) h =
    elim (Bool-cases (str_eq ((r.heap c).device).account_id account)) [
      | inl e ↦ absurd (h c refl ((eq_iff ((r.heap c).device).account_id account).0 e))
      | inr e ↦ rw e refl
    ]

-- A call to, or a question for the workspaces of, a device that is not the account's is refused
-- with the device id alone, the same for an unknown device and for another account's, and the
-- registry stays as it was.
pub start_call-foreign :
    (r : Registry) (print : ℕ → String) (account id : String) (outcome : Start)
    → IsForeign r account id
    → (start_call r print account id outcome ≡ (r, err (offline_or_unknown id)))
      × (workspaces r account id ≡ err (offline_or_unknown id))
unfolding start_call workspaces
start_call-foreign r print account id outcome h =
    let gone = conn_for-foreign r account (lookup id r.devices) h in (rw gone refl, rw gone refl)

abbrev pub of_account : String → Device → Bool
of_account account d = str_eq d.account_id account

list_account_from-list :
    (r : Registry) (account : String) (m : Dict ℕ)
    → list_account_from r account m ≡ select (of_account account) (list_from r m)
unfolding list_account_from list_from
list_account_from-list r account [] = refl
list_account_from-list r account ((id, c) ∷ m) = ground (arith, list_account_from-list r account m)

-- `ListAccount` is `List` without the devices of other accounts, in the same order.
pub list_account-list :
    (r : Registry) (account : String)
    → list_account r account ≡ select (of_account account) (list r)
unfolding list_account list
list_account-list r account = list_account_from-list r account r.devices
