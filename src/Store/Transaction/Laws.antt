-- ===== src/Store/Transaction/Laws.antt =====
-- Rules for what a piece of work ensures when it returns.
use auto_camera.Common.{
  ℕ, Text, ◌≡◌, refl, ap, Bool, true, false, Option, none, some, Result, ok, err, sym, ◌∙◌, ◌+◌,
  inl, inr, Result-cases,
}
use auto_camera.Js.Date.{JsDate}
use auto_camera.Domain.Error.{Checked}
use auto_camera.Domain.Assert.{to_iso_utc}
use auto_camera.Store.State.{Stored, MemoryState}
use auto_camera.Store.Transaction.{
  GenerationApplicationErrorCode, Thrown, World, Work, go_on, refuse_if, require, checked, find_in,
  write, call, read_clock, time, next_id, with_transaction, settled_by,
}

-- Where the outcome is a returned value, the value and the world satisfy `P`.
pub data Ensures {A : Type 0} (P : A → World → Type 0) (r : Result Thrown A × World) : Type 0 where
  returns : (a : A) (w : World) → r ≡ (ok a, w) → P a w → Ensures P r
  throws : (e : Thrown) (w : World) → r ≡ (err e, w) → Ensures P r

pub Ensures-eq :
    {A : Type 0} {P : A → World → Type 0} {r : Result Thrown A × World} {a : A} {w : World}
    → Ensures P r
    → r ≡ (ok a, w)
    → P a w
Ensures-eq {A} {P} {a} {w} (returns b v e p) h =
    let both : ◌≡◌ {A = Result Thrown A × World} (ok b, v) (ok a, w) = sym e ∙ h in
    let one : b ≡ a = cc in let two : v ≡ w = cc in rw⁻¹ (one, two) p
Ensures-eq {A} {a} {w} (throws e v same) h =
    let no : ◌≡◌ {A = Result Thrown A × World} (err e, v) (ok a, w) = sym same ∙ h in cc

pub Ensures-weaken :
    {A : Type 0} {P Q : A → World → Type 0} {r : Result Thrown A × World}
    → Ensures Q r
    → ((a : A) (w : World) → Q a w → P a w)
    → Ensures P r
Ensures-weaken (returns a w e q) k = returns a w e (k a w q)
Ensures-weaken (throws e w same) k = throws e w same

pub done-Ensures :
    {A : Type 0} {P : A → World → Type 0} {a : A} {w : World} → P a w → Ensures P (ok a, w)
done-Ensures p = returns _ _ refl p

module _ {A B : Type 0} {P : B → World → Type 0} (rest : A → Work B) where
  pub go_on-Ensures :
      (r : Result Thrown A × World)
      → ((a : A) (w : World) → r ≡ (ok a, w) → Ensures P (rest a w))
      → Ensures P (go_on r rest)
  unfolding go_on
  go_on-Ensures (err e, w) k = throws e w refl
  go_on-Ensures (ok a, w) k = k a w refl

  pub require-Ensures :
      (o : Option A) (code : GenerationApplicationErrorCode) (w : World)
      → ((a : A) → o ≡ some a → Ensures P (rest a w))
      → Ensures P (go_on (require o code w) rest)
  unfolding go_on require
  require-Ensures none code w k = throws _ w refl
  require-Ensures (some a) code w k = k a refl

  pub checked-Ensures :
      (c : Checked A) (w : World)
      → ((a : A) → c ≡ ok a → Ensures P (rest a w))
      → Ensures P (go_on (checked c w) rest)
  unfolding go_on checked
  checked-Ensures (err code) w k = throws _ w refl
  checked-Ensures (ok a) w k = k a refl

  pub find_in-Ensures :
      (look : MemoryState → A) (w : World)
      → Ensures P (rest (look w.store) w)
      → Ensures P (go_on (find_in look w) rest)
  unfolding go_on find_in
  find_in-Ensures look w k = k

  pub call-Ensures :
      (operation : MemoryState → Stored (A × MemoryState)) (w : World)
      → ((a : A) (w' : World) → operation w.store ≡ ok (a, w'.store) → Ensures P (rest a w'))
      → Ensures P (go_on (call operation w) rest)
  unfolding go_on call
  call-Ensures operation w k = elim (Result-cases (operation w.store)) [
    | inl (code, e) ↦ rw e (throws _ w refl)
    | inr ((a, s), e) ↦ rw e (k a (record w { store = s }) e)
  ]

module _ {B : Type 0} {P : B → World → Type 0} where
  pub refuse_if-Ensures :
      (rest : Unit {0} → Work B) (test : Bool) (code : GenerationApplicationErrorCode) (w : World)
      → (test ≡ false → Ensures P (rest tt w))
      → Ensures P (go_on (refuse_if test code w) rest)
  unfolding go_on refuse_if
  refuse_if-Ensures rest true code w k = throws _ w refl
  refuse_if-Ensures rest false code w k = k refl

  pub write-Ensures :
      (rest : Unit {0} → Work B) (operation : MemoryState → Stored MemoryState) (w : World)
      → ((w' : World) → operation w.store ≡ ok w'.store → Ensures P (rest tt w'))
      → Ensures P (go_on (write operation w) rest)
  unfolding go_on write
  write-Ensures rest operation w k = elim (Result-cases (operation w.store)) [
    | inl (code, e) ↦ rw e (throws _ w refl)
    | inr (s, e) ↦ rw e (k (record w { store = s }) e)
  ]

  pub read_clock-Ensures :
      (rest : JsDate → Work B) (clock : ℕ → JsDate) (w : World)
      → ((t : JsDate) (w' : World) → w'.store ≡ w.store → Ensures P (rest t w'))
      → Ensures P (go_on (read_clock clock w) rest)
  unfolding go_on read_clock
  read_clock-Ensures rest clock w k = k _ (record w { clock_reads = w.clock_reads + 1 }) refl

  pub time-Ensures :
      (rest : Text → Work B) (clock : ℕ → JsDate) (w : World)
      → ((t : Text) (w' : World) → w'.store ≡ w.store → Ensures P (rest t w'))
      → Ensures P (go_on (time clock w) rest)
  unfolding go_on time read_clock checked
  time-Ensures rest clock w k = elim (Result-cases (to_iso_utc (clock w.clock_reads))) [
    | inl (code, e) ↦ rw e (throws _ _ refl)
    | inr (t, e) ↦ rw e (k t _ refl)
  ]

  pub next_id-Ensures :
      (rest : Text → Work B) (ids : ℕ → Text) (w : World)
      → ((id : Text) (w' : World) → w'.store ≡ w.store → Ensures P (rest id w'))
      → Ensures P (go_on (next_id ids w) rest)
  unfolding go_on next_id
  next_id-Ensures rest ids w k = k _ (record w { ids_used = w.ids_used + 1 }) refl

-- The clock and the identifiers leave the store.
pub time-store :
    (clock : ℕ → JsDate) (w : World) → Ensures (λ _ w'. w'.store ≡ w.store) (time clock w)
unfolding time read_clock checked go_on
time-store clock w = elim (Result-cases (to_iso_utc (clock w.clock_reads))) [
  | inl (code, e) ↦ rw e (throws _ _ refl)
  | inr (t, e) ↦ rw e (done-Ensures refl)
]

pub next_id-store :
    (ids : ℕ → Text) (w : World) → Ensures (λ _ w'. w'.store ≡ w.store) (next_id ids w)
unfolding next_id
next_id-store ids w = done-Ensures refl

-- A call that stands last.
pub write_last-Ensures :
    {P : Unit {0} → World → Type 0} (operation : MemoryState → Stored MemoryState) (w : World)
    → ((w' : World) → operation w.store ≡ ok w'.store → P tt w')
    → Ensures P (write operation w)
unfolding write
write_last-Ensures operation w k = elim (Result-cases (operation w.store)) [
  | inl (code, e) ↦ rw e (throws _ w refl)
  | inr (s, e) ↦ rw e (returns _ _ refl (k (record w { store = s }) e))
]

with_transaction-cases :
    {A : Type 0} (w : World) (r : Result Thrown A × World) {a : A} {w' : World}
    → settled_by w.store r ≡ (ok a, w')
    → r ≡ (ok a, w')
with_transaction-cases w (err e, v) h = cc
with_transaction-cases w (ok b, v) h = h

-- A transaction that returned has done its work.
pub with_transaction-eq-ok :
    {A : Type 0} (work : Work A) (w : World) {a : A} {w' : World}
    → with_transaction work w ≡ (ok a, w')
    → work w ≡ (ok a, w')
unfolding with_transaction
with_transaction-eq-ok work w h = with_transaction-cases w (work w) h

settled_by-store :
    {A : Type 0} (s : MemoryState) (r : Result Thrown A × World) {e : Thrown} {w' : World}
    → settled_by s r ≡ (err e, w')
    → w'.store ≡ s
settled_by-store s (err e, v) h = ap (λ x. x.1.store) (sym h)
settled_by-store s (ok b, v) h = cc

-- A transaction that threw leaves the state that it found.
pub with_transaction-eq-err :
    {A : Type 0} (work : Work A) (w : World) {e : Thrown} {w' : World}
    → with_transaction work w ≡ (err e, w')
    → w'.store ≡ w.store
unfolding with_transaction
with_transaction-eq-err work w h = settled_by-store w.store (work w) h
