-- ===== src/Ride/Settlement/Cash/Ledger.antt =====
-- What NewCashSettlement accepts, and where the collected cash goes.
use driving_app.Prelude.{
  ℕ, zero, suc, ◌+◌, ◌-◌, ◌^◌, ◌≤◌, ◌<◌, ◌≡◌, refl, sym, subst, ◌∙◌, ap, ◌↔◌, Bool, true, false,
  ◌||◌, arith, ltb, if◌then◌else◌, lt→ltb, ge→ltb, pos→leb,
}
use driving_app.Prelude.Text.{Text, runes}
use driving_app.Prelude.Int.{ℤ, pos, negsuc, leb_ℤ, ltb_ℤ, eq_ℤ}
use driving_app.Prelude.Result.{Result, ok, err, ◌>>=◌, ◌>>◌, refuse_if, refuse_if-ok}
use driving_app.Ride.Errors.{RideError, invalid_settlement}
use driving_app.Ride.Settlement.{SettlementSnapshot, new_settlement_snapshot}
use driving_app.Ride.Settlement.Split.{
  IsSplit, IsInt64, commission_of, commission-le, sub64-pos, new_settlement_snapshot-IsSplit,
}
use driving_app.Ride.Settlement.Cash.{
  CashOutcome, paid, partial, refused, unpaid, disputed, unlisted, CashSettlement, no_snapshot,
  outcome_refused, is_paid, new_cash_settlement,
}

-- The cash that each outcome may report, and the payment status that follows.
pub data Settles (collected fare change : ℕ) : CashOutcome → Text → Type 0 where
  in_full : collected ≡ fare → Settles collected fare change paid (runes "paid")
  in_part :
      0 < collected
      → collected < fare
      → change ≡ 0
      → Settles collected fare change partial (runes "unpaid")
  was_refused : collected ≡ 0 → Settles collected fare change refused (runes "unpaid")
  not_paid : collected ≡ 0 → Settles collected fare change unpaid (runes "unpaid")

abbrev status_of : CashOutcome → Text
status_of o = if is_paid o then runes "paid" else runes "unpaid"

outcome_sound :
    (o : CashOutcome) (collected fare change : ℕ)
    → outcome_refused o (pos collected) (pos fare) (pos change) ≡ false
    → Settles collected fare change o (status_of o)
unfolding outcome_refused leb_ℤ eq_ℤ
outcome_sound paid collected fare change h = in_full (ground arith)
outcome_sound partial collected fare change h = in_part (ground arith) (ground arith) (ground arith)
outcome_sound refused collected fare change h = was_refused (ground arith)
outcome_sound unpaid collected fare change h = not_paid (ground arith)
outcome_sound disputed collected fare change h = cc
outcome_sound (unlisted t) collected fare change h = cc

outcome_complete :
    (collected fare change : ℕ) {o : CashOutcome} {status : Text}
    → Settles collected fare change o status
    → (outcome_refused o (pos collected) (pos fare) (pos change) ≡ false) × (status_of o ≡ status)
unfolding outcome_refused leb_ℤ eq_ℤ
outcome_complete collected fare change (in_full h) = (ground arith, refl)
outcome_complete collected fare change (in_part h k e) = (ground arith, refl)
outcome_complete collected fare change (was_refused h) = (ground arith, refl)
outcome_complete collected fare change (not_paid h) = (ground arith, refl)

-- The ledger part: nothing where nothing was collected, and else the split of what was.
abbrev pub Books : ℕ → ℤ → SettlementSnapshot → Type 0
Books zero bps snapshot = snapshot ≡ no_snapshot
Books (suc n) bps snapshot = IsSplit (pos (suc n)) bps snapshot

booked : ℕ → ℤ → Result RideError SettlementSnapshot
booked n bps = if ltb 0 n then new_settlement_snapshot (pos n) bps else ok no_snapshot

booked-Books :
    (n : ℕ) (bps : ℤ) (s : SettlementSnapshot) → n < 2 ^ 63 → (booked n bps ≡ ok s) ↔ Books n bps s
unfolding booked
booked-Books zero bps s h = (λ e. cc, λ e. cc)
booked-Books (suc n) bps s h =
    rw (lt→ltb 0 (suc n) (omega arith)) (new_settlement_snapshot-IsSplit (pos (suc n)) bps s h)

settlement_of : CashOutcome → ℕ → ℕ → SettlementSnapshot → CashSettlement
settlement_of o received change snapshot = record {
  outcome = o;
  received_amount = pos received;
  change_amount = pos change;
  collected_amount = pos (received - change);
  payment_status = status_of o;
  snapshot = snapshot;
}

finish :
    Bool
    → Result RideError SettlementSnapshot
    → CashOutcome
    → ℕ
    → ℕ
    → Result RideError CashSettlement
finish bad snapshots o received change = do
  refuse_if bad invalid_settlement
  snapshot ← snapshots
  ok (settlement_of o received change snapshot)

cash_steps :
    (fare received change : ℕ) (o : CashOutcome) (bps : ℤ)
    → 0 < fare
    → change ≤ received
    → received < 2 ^ 63
    → new_cash_settlement (pos fare) (pos received) (pos change) o bps
      ≡ finish
          (outcome_refused o (pos (received - change)) (pos fare) (pos change))
          (booked (received - change) bps)
          o
          received
          change
unfolding new_cash_settlement finish booked settlement_of
cash_steps fare received change o bps h k w = rw (
  sub64-pos received change k w,
  pos→leb fare h,
  ge→ltb received 0 (omega arith),
  ge→ltb change 0 (omega arith),
  ge→ltb received change k,
)

-- A settlement that is consistent with its arguments.
pub record IsSettled (fare received change : ℤ) (o : CashOutcome) (bps : ℤ) (s : CashSettlement)
    : Type 0 where
  pub price : ℕ
  pub tendered : ℕ
  pub returned : ℕ
  pub fare_eq : fare ≡ pos price
  pub received_eq : received ≡ pos tendered
  pub change_eq : change ≡ pos returned
  pub positive : 0 < price
  pub change_le : returned ≤ tendered
  pub outcome_eq : s.outcome ≡ o
  pub received_kept : s.received_amount ≡ received
  pub change_kept : s.change_amount ≡ change
  pub collected : s.collected_amount ≡ pos (tendered - returned)
  pub settles : Settles (tendered - returned) price returned o s.payment_status
  pub books : Books (tendered - returned) bps s.snapshot

amounts_guard : (f r c : ℤ) → Bool
amounts_guard f r c = leb_ℤ f (pos 0) || ltb_ℤ r (pos 0) || ltb_ℤ c (pos 0) || ltb_ℤ r c

amounts : (f r c : ℕ) → amounts_guard (pos f) (pos r) (pos c) ≡ false → (0 < f) × (c ≤ r)
unfolding amounts_guard leb_ℤ ltb_ℤ
amounts f r c h = ground arith

abbrev IsNat : ℤ → Type 0
IsNat (pos n) = Unit
IsNat (negsuc n) = ⊥

finish_sound :
    (bad : Bool) (m : Result RideError SettlementSnapshot) (o : CashOutcome) (received change : ℕ)
    {s : CashSettlement}
    → finish bad m o received change ≡ ok s
    → (bad ≡ false)
      × (x : SettlementSnapshot) × (m ≡ ok x)
      × (s ≡ settlement_of o received change x)
unfolding finish
finish_sound true m o received change h = cc
finish_sound false (err e) o received change h = cc
finish_sound false (ok x) o received change h = (refl, x, refl, ground arith)

finish_complete :
    {bad : Bool} {m : Result RideError SettlementSnapshot} (o : CashOutcome) (received change : ℕ)
    (x : SettlementSnapshot)
    → bad ≡ false
    → m ≡ ok x
    → finish bad m o received change ≡ ok (settlement_of o received change x)
unfolding finish
finish_complete o received change x b e = rw (b, e)

settled :
    (f r c : ℕ) (o : CashOutcome) (bps : ℤ) (x : SettlementSnapshot)
    → 0 < f
    → c ≤ r
    → Settles (r - c) f c o (status_of o)
    → Books (r - c) bps x
    → IsSettled (pos f) (pos r) (pos c) o bps (settlement_of o r c x)
unfolding settlement_of
settled f r c o bps x positive le settles books = record {
  price = f;
  tendered = r;
  returned = c;
  fare_eq = refl;
  received_eq = refl;
  change_eq = refl;
  positive = positive;
  change_le = le;
  outcome_eq = refl;
  received_kept = refl;
  change_kept = refl;
  collected = refl;
  settles = settles;
  books = books;
}

cash_guard :
    (fare received change : ℤ) (o : CashOutcome) (bps : ℤ) {s : CashSettlement}
    → new_cash_settlement fare received change o bps ≡ ok s
    → amounts_guard fare received change ≡ false
unfolding new_cash_settlement amounts_guard
cash_guard fare received change o bps h =
    (refuse_if-ok
      (leb_ℤ fare (pos 0)
        || ltb_ℤ received (pos 0)
        || ltb_ℤ change (pos 0)
        || ltb_ℤ received change)
      invalid_settlement h).0

not_negative : (f r c : ℤ) → amounts_guard f r c ≡ false → IsNat f × IsNat r × IsNat c
unfolding amounts_guard leb_ℤ ltb_ℤ
not_negative f r c h = ground arith

cash_sound :
    (fare received change : ℤ) (o : CashOutcome) (bps : ℤ) (s : CashSettlement)
    → IsInt64 received
    → new_cash_settlement fare received change o bps ≡ ok s
    → IsSettled fare received change o bps s
cash_sound (pos f) (pos r) (pos c) o bps s w h =
    let (positive, le) = amounts f r c (cash_guard (pos f) (pos r) (pos c) o bps h) in
    let (allowed, x, booked_x, s_eq) =
      finish_sound (outcome_refused o (pos (r - c)) (pos f) (pos c)) (booked (r - c) bps) o r c
        (sym (cash_steps f r c o bps positive le w) ∙ h) in
    rw s_eq (
      settled f r c o bps x positive le (outcome_sound o (r - c) f c allowed)
        ((booked-Books (r - c) bps x (omega arith)).0 booked_x))
cash_sound (pos f) (pos r) (negsuc c) o bps s w h =
    absurd (not_negative (pos f) (pos r) (negsuc c) (cash_guard _ _ _ o bps h)).2
cash_sound (pos f) (negsuc r) c o bps s w h =
    absurd (not_negative (pos f) (negsuc r) c (cash_guard _ _ _ o bps h)).1
cash_sound (negsuc f) r c o bps s w h =
    absurd (not_negative (negsuc f) r c (cash_guard _ _ _ o bps h)).0

cash_complete :
    (fare received change : ℤ) (o : CashOutcome) (bps : ℤ) (s : CashSettlement)
    → IsInt64 received
    → IsSettled fare received change o bps s
    → new_cash_settlement fare received change o bps ≡ ok s
unfolding settlement_of
cash_complete fare received change o bps s w v =
    let tendered_fits : v.tendered < 2 ^ 63 = subst IsInt64 v.received_eq w in
    let (allowed, status) =
      outcome_complete (v.tendered - v.returned) v.price v.returned v.settles in
    let booked_s : booked (v.tendered - v.returned) bps ≡ ok s.snapshot =
      (booked-Books (v.tendered - v.returned) bps s.snapshot (omega arith)).1 v.books in
    let whole : settlement_of o v.tendered v.returned s.snapshot ≡ s = λ i. record {
      outcome = sym v.outcome_eq i;
      received_amount = sym (v.received_kept ∙ v.received_eq) i;
      change_amount = sym (v.change_kept ∙ v.change_eq) i;
      collected_amount = sym v.collected i;
      payment_status = status i;
      snapshot = s.snapshot;
    } in
    rw (v.fare_eq, v.received_eq, v.change_eq)
      (cash_steps v.price v.tendered v.returned o bps v.positive v.change_le tendered_fits
        ∙ finish_complete o v.tendered v.returned s.snapshot allowed booked_s
        ∙ ap ok whole)

-- NewCashSettlement accepts exactly this: a positive fare, received cash and change that are not
-- negative with the change at most the received cash, and a net amount that fits the outcome, which
-- is paid with the whole fare, partial with a part of it and no change, or refused or unpaid with
-- nothing. It returns the request's amounts and the net amount, the status "paid" for the outcome
-- paid alone, and the split of the net amount, or no split where nothing was collected.
pub new_cash_settlement-IsSettled :
    (fare received change : ℤ) (o : CashOutcome) (bps : ℤ) (s : CashSettlement)
    → IsInt64 received
    → (new_cash_settlement fare received change o bps ≡ ok s)
      ↔ IsSettled fare received change o bps s
new_cash_settlement-IsSettled fare received change o bps s w =
    (cash_sound fare received change o bps s w, cash_complete fare received change o bps s w)

-- A payout and a commission that add up to `n`.
abbrev Conserves : ℕ → SettlementSnapshot → Type 0
Conserves n x =
    (payout : ℕ) × (commission : ℕ) × (x.driver_payout_amount ≡ pos payout)
    × (x.commission_amount ≡ pos commission)
    × (payout + commission ≡ n)

conserved : (n : ℕ) (bps : ℤ) (x : SettlementSnapshot) → Books n bps x → Conserves n x
conserved zero bps x h = (
  0,
  0,
  ap (λ (y : SettlementSnapshot). y.driver_payout_amount) h,
  ap (λ (y : SettlementSnapshot). y.commission_amount) h,
  refl,
)
conserved (suc n) bps x h = (
  h.gross - commission_of h.gross h.rate,
  commission_of h.gross h.rate,
  ap (λ (y : SettlementSnapshot). y.driver_payout_amount) h.split,
  ap (λ (y : SettlementSnapshot). y.commission_amount) h.split,
  whole,
)
  where
    gross_eq : h.gross ≡ suc n
    gross_eq = cc h.fare_eq

    whole : h.gross - commission_of h.gross h.rate + commission_of h.gross h.rate ≡ suc n
    whole = omega (arith, gross_eq, commission-le h.gross h.rate h.at_most_all)

Settles-le :
    {collected fare change : ℕ} {o : CashOutcome} {status : Text}
    → Settles collected fare change o status
    → collected ≤ fare
Settles-le (in_full e) = omega arith
Settles-le (in_part h k e) = omega arith
Settles-le (was_refused e) = omega arith
Settles-le (not_paid e) = omega arith

-- No cash is made or lost: the driver's payout and the commission of an accepted settlement are not
-- negative and add up to the cash that was collected, which is at most the fare.
pub cash_conserved :
    (fare received change : ℤ) (o : CashOutcome) (bps : ℤ) (s : CashSettlement)
    → IsInt64 received
    → new_cash_settlement fare received change o bps ≡ ok s
    → (price : ℕ) × (collected : ℕ) × (payout : ℕ) × (commission : ℕ) × (fare ≡ pos price)
      × (s.collected_amount ≡ pos collected)
      × (s.snapshot.driver_payout_amount ≡ pos payout)
      × (s.snapshot.commission_amount ≡ pos commission)
      × (payout + commission ≡ collected)
      × (collected ≤ price)
cash_conserved fare received change o bps s w h =
    let v = cash_sound fare received change o bps s w h in
    let (payout, commission, p, c, sum) =
      conserved (v.tendered - v.returned) bps s.snapshot v.books in
    (
      v.price,
      v.tendered - v.returned,
      payout,
      commission,
      v.fare_eq,
      v.collected,
      p,
      c,
      sum,
      Settles-le v.settles,
    )
