-- ===== src/Orders/Entries.antt =====
-- What the pipeline does to the ledger in one step, and what the ledger holds for an order.
use api_score.Base.{ℕ, ◌≡◌, refl, sym, ◌⊎◌, inl, inr, Bool, true, false, none, some, List}
use mathlib.Core.Path.{subst}
use api_score.Base.Tx.{ok}
use api_score.Ledger.Defs
use api_score.Ledger.Defs.{
  EntryKey, reserve_key, release_key, release_partial_key, settle_key, opening, key_eq, Account,
  Entry,
}
use api_score.Ledger.Service.{AppendInput, AppendResult, find_account, find_entry, append}
use api_score.Ledger.Invariant.{IsSound}
use api_score.Ledger.AppendLaws.{append-IsSound, append-eq_ok}
use api_score.Domain.{OrderStatus}
use api_score.Engine.Moves.{Moves}
use api_score.Ledger.History.{Keeps, append-Keeps}

pub record IsLedgerStep (l l' : Defs.Store) : Type 0 where
  pub sound : IsSound l → IsSound l'
  pub keeps : Keeps l.entries l'.entries

-- No reservation appears.
abbrev pub Unreserving : List Entry → List Entry → Type 0
Unreserving es es' =
    (k : ℕ) → find_entry (reserve_key k) es ≡ none → find_entry (reserve_key k) es' ≡ none

pub IsLedgerStep-refl : (l : Defs.Store) → IsLedgerStep l l
IsLedgerStep-refl l = record { sound = λ h. h; keeps = λ key e h. h }

pub IsLedgerStep-trans :
    {a b c : Defs.Store} → IsLedgerStep a b → IsLedgerStep b c → IsLedgerStep a c
IsLedgerStep-trans p q = record {
  sound = λ h. q.sound (p.sound h);
  keeps = λ key e h. q.keeps key e (p.keeps key e h);
}

-- An entry under another key leaves a key unused.
pub append-unused :
    (account : Account) (input : AppendInput) (l : Defs.Store) (key : EntryKey) {r : AppendResult}
    {account' : Account} {l' : Defs.Store}
    → key_eq input.entry_key key ≡ false
    → append account input l ≡ ok ((r, account'), l')
    → find_entry key l.entries ≡ none
    → find_entry key l'.entries ≡ none
append-unused account input l key n h f = elim (append-eq_ok account input l h) [
  | inl (x, w) ↦ rw w.store_kept f
  | inr (p, fresh, w) ↦ rw (w.store, n) f
]

-- A key that is not of a reservation.
abbrev pub is_reserve_key : EntryKey → Bool
is_reserve_key (reserve_key k) = true
is_reserve_key _ = false

other_key : (a : EntryKey) (k : ℕ) → is_reserve_key a ≡ false → key_eq a (reserve_key k) ≡ false
other_key (opening a) k h = refl
other_key (reserve_key a) k h = cc
other_key (release_key a) k h = refl
other_key (release_partial_key a) k h = refl
other_key (settle_key a) k h = refl

pub append-IsLedgerStep :
    (account : Account) (input : AppendInput) (l : Defs.Store) {r : AppendResult}
    {account' : Account} {l' : Defs.Store}
    → find_account account.id l.accounts ≡ some account
    → append account input l ≡ ok ((r, account'), l')
    → IsLedgerStep l l'
append-IsLedgerStep account input l found h = record {
  sound = λ sound. (append-IsSound account input l sound found h).0;
  keeps = append-Keeps account input l h;
}

pub append-Unreserving :
    (account : Account) (input : AppendInput) (l : Defs.Store) {r : AppendResult}
    {account' : Account} {l' : Defs.Store}
    → is_reserve_key input.entry_key ≡ false
    → append account input l ≡ ok ((r, account'), l')
    → Unreserving l.entries l'.entries
append-Unreserving account input l n h =
    λ k f. append-unused account input l (reserve_key k) (other_key input.entry_key k n) h f

pub Moves-IsLedgerStep : (l l' : Defs.Store) → Moves l l' → IsLedgerStep l l'
Moves-IsLedgerStep l l' (inl same) = subst (IsLedgerStep l) (sym same) (IsLedgerStep-refl l)
Moves-IsLedgerStep l l' (inr (account, input, r, account', m)) =
    append-IsLedgerStep account input l m.found m.appended

-- What the ledger holds for an order in some status: the reservation while the order is open, in
-- doubt or disputed; its release once it is rejected, if there was a reservation; the settlement
-- too once it is over.
abbrev pub HasEntry : EntryKey → List Entry → Type 0
HasEntry key es = (e : Entry) × (find_entry key es ≡ some e)

abbrev pub Backed : OrderStatus → ℕ → List Entry → Type 0
Backed OrderStatus.rejected k es =
    (find_entry (reserve_key k) es ≡ none) ⊎ HasEntry (release_key k) es
Backed OrderStatus.settled k es = HasEntry (reserve_key k) es × HasEntry (settle_key k) es
Backed OrderStatus.voided k es = HasEntry (reserve_key k) es × HasEntry (settle_key k) es
Backed _ k es = HasEntry (reserve_key k) es

pub kept_entry :
    (key : EntryKey) (es es' : List Entry) → Keeps es es' → HasEntry key es → HasEntry key es'
kept_entry key es es' keeps (e, h) = (e, keeps key e h)

-- What is held stays held while entries are kept, if no reservation appears under the key.
pub kept-Backed :
    (t : OrderStatus) (k : ℕ) (es es' : List Entry)
    → Keeps es es'
    → (find_entry (reserve_key k) es ≡ none → find_entry (reserve_key k) es' ≡ none)
    → Backed t k es
    → Backed t k es'
kept-Backed OrderStatus.rejected k es es' keeps unused (inl h) = inl (unused h)
kept-Backed OrderStatus.rejected k es es' keeps unused (inr h) = inr (kept_entry _ es es' keeps h)
kept-Backed OrderStatus.settled k es es' keeps unused (r, h) =
    (kept_entry _ es es' keeps r, kept_entry _ es es' keeps h)
kept-Backed OrderStatus.voided k es es' keeps unused (r, h) =
    (kept_entry _ es es' keeps r, kept_entry _ es es' keeps h)
kept-Backed OrderStatus.reserved k es es' keeps unused h = kept_entry _ es es' keeps h
kept-Backed OrderStatus.submitting k es es' keeps unused h = kept_entry _ es es' keeps h
kept-Backed OrderStatus.unknown k es es' keeps unused h = kept_entry _ es es' keeps h
kept-Backed OrderStatus.accepted k es es' keeps unused h = kept_entry _ es es' keeps h
kept-Backed OrderStatus.reconciliation_required k es es' keeps unused h =
    kept_entry _ es es' keeps h
