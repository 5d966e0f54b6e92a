-- ===== src/Engine/Keyed.antt =====
-- What a reservation does under its own key, fresh or repeated.
use api_score.Base.{◌≡◌, inl, inr, refl, sym, ◌∙◌, Bool, Option, none, some, arith}
use api_score.Base.Tx.{ok, Result-cases}
use api_score.Money.{to_cents}
use api_score.Domain.{reserve, RejectionCode, RiskLimit}
use api_score.Ledger.Defs.{Entry, Account, EntryKey}
use api_score.Ledger.Service.{
  AppendInput, AppendResult, find_account, find_entry, lock_account, append,
}
use api_score.Control.Defs.{ControlRow}
use api_score.Control.Changes.{active_policy}
use api_score.Engine.Defs.{Store, EngineEnv, ReserveStakeRequest, reserved, rejected}
use api_score.Engine.Service.{reserve_within, reserve_found, replay_reservation, stake_entry}
use api_score.Engine.Stages.{
  lock_account-eq_ok, reserve_entry, reserve_matched-reserved, reserve_under-eq_ok,
}
use api_score.Engine.Moves.{found_own}
use api_score.Engine.Reservation.{
  reserve_within-eq_ok, reserve_new-under, rejected_ne, replay_reservation-replays,
}

-- One append under the key, whose entry is handed back.
pub record IsKeyed (key : EntryKey) (s s' : Store) (x : Entry) : Type 0 where
  pub account : Account
  pub input : AppendInput
  pub result : AppendResult
  pub account' : Account
  pub found : find_account account.id s.ledger.accounts ≡ some account
  pub appended : append account input s.ledger ≡ ok ((result, account'), s'.ledger)
  pub keyed : input.entry_key ≡ key
  pub entry : x ≡ result.entry

replay_reservation-IsKeyed :
    (request : ReserveStakeRequest) (s : Store) {x : Entry} {b : Bool} {s' : Store}
    → (replay_reservation request s).1 ≡ ok (reserved x b, s')
    → IsKeyed request.entry_key s s' x
unfolding replay_reservation
replay_reservation-IsKeyed request s h =
    elim (Result-cases (lock_account request.account_id s.ledger)) [
      | inr (f, e) ↦ absurd (ground arith)
      | inl ((account, l), e) ↦
          let (found, kept) = lock_account-eq_ok request.account_id s.ledger e in
          elim (Result-cases (to_cents request.stake)) [
            | inr (f, q) ↦ absurd (ground arith)
            | inl (stake, q) ↦
                let entry = stake_entry reserve request.entry_key stake none none none in
                elim (Result-cases (append account entry l)) [
                  | inr (f, a) ↦ absurd (ground arith)
                  | inl (((r, account'), m), a) ↦ record {
                    account = account;
                    input = entry;
                    result = r;
                    account' = account';
                    found = found_own request.account_id s.ledger found;
                    appended = rw (← kept) (a ∙ ground arith);
                    keyed = refl;
                    entry = ground arith;
                  }
                ]
          ]
    ]

module _ (env : EngineEnv) (request : ReserveStakeRequest) (s : Store) where
  reserve_found-IsKeyed :
      (row : ControlRow) (o : Option Entry) {x : Entry} {b : Bool} {s' : Store}
      → (reserve_found env request row o s).1 ≡ ok (reserved x b, s')
      → IsKeyed request.entry_key s s' x
  reserve_found-IsKeyed row (some e) h = replay_reservation-IsKeyed request s h
  reserve_found-IsKeyed row none h =
      elim (reserve_under-eq_ok env request row s
        (active_policy row.active_risk_policy_id s.control.policies)
        (reserve_new-under env request s row h)) [
          | inl (_, no_result) ↦ absurd (rejected_ne (sym no_result))
          | inr (policy, account, _, found, _, matched) ↦
              let c = reserve_matched-reserved env request policy account s matched in
              record {
                account = account;
                input = reserve_entry request c.stake;
                result = c.result;
                account' = c.account';
                found = found_own request.account_id s.ledger found;
                appended = c.appended;
                keyed = refl;
                entry = c.entry;
              }
        ]

  -- A stake that is reserved, now or before, is an entry under the key of the request.
  pub reserve_within-IsKeyed :
      {x : Entry} {b : Bool} {s' : Store}
      → (reserve_within env request s).1 ≡ ok (reserved x b, s')
      → IsKeyed request.entry_key s s' x
  reserve_within-IsKeyed h =
      let (row, _, k) = reserve_within-eq_ok env request s h in
      reserve_found-IsKeyed row (find_entry request.entry_key s.ledger.entries) k

  reserve_found-unused :
      (row : ControlRow) (o : Option Entry) {c : RejectionCode} {l : Option RiskLimit} {s' : Store}
      → (reserve_found env request row o s).1 ≡ ok (rejected c l, s')
      → o ≡ none
  reserve_found-unused row none h = refl
  reserve_found-unused row (some e) h =
      let (y, same) = replay_reservation-replays request s h in absurd (rejected_ne same)

  -- Only a request whose key has no entry is refused.
  pub reserve_within-unused :
      {c : RejectionCode} {l : Option RiskLimit} {s' : Store}
      → (reserve_within env request s).1 ≡ ok (rejected c l, s')
      → find_entry request.entry_key s.ledger.entries ≡ none
  reserve_within-unused h =
      let (row, _, k) = reserve_within-eq_ok env request s h in
      reserve_found-unused row (find_entry request.entry_key s.ledger.entries) k
