-- ===== src/Predictions/Market.antt =====
-- The prediction market's tables: clawnet-cli/internal/store/predictions.go without the settlement and the
-- queries for display. Foreign keys are enforced. A status that is none of the four is refused by the
-- column's CHECK and is not modelled. The REAL columns hold integers; reading one of a million or more fails.
use Prim.Native.Nat.{Ordering}
use Prim.Native.String.{compare}
use claw_net.Base.{
  ℕ, suc, String, Bool, true, false, not, ◌&&◌, Option, none, some, List, [], ◌∷◌, if◌then◌else◌,
  ◌==◌, read_all,
}
use claw_net.Base.Int.{ℤ, pos, ◌+ℤ◌, is_scanned}
use claw_net.Base.Table.{Table, find, insert, insert_new, update, contains}
use claw_net.Base.Rows.{edit}
use claw_net.Credits.{StoreError, constraint_failed}
use claw_net.Predictions.{PredictionBet}
pub mod Stakes
pub mod Votes

pub data PredictionStatus : Type 0 where
  open_ pending resolved cancelled : PredictionStatus

pub record Prediction : Type 0 where
  pub id : String
  pub creator_id : String
  pub question : String
  pub options : String
  pub category : String
  pub resolution_date : String
  pub resolution_source : String
  pub status : PredictionStatus
  pub result : String
  pub total_stake : ℤ
  pub appeal_deadline : String

pub record PredictionResolution : Type 0 where
  pub id : String
  pub prediction_id : String
  pub resolver_id : String
  pub result : String
  pub evidence_url : String

pub record PredictionAppeal : Type 0 where
  pub id : String
  pub prediction_id : String
  pub appellant_id : String
  pub reason : String
  pub evidence_url : String

pub record Market : Type 0 where
  pub predictions : Table Prediction
  pub bets : Table PredictionBet
  pub resolutions : Table PredictionResolution
  pub appeals : Table PredictionAppeal

abbrev pub is_open : PredictionStatus → Bool
is_open open_ = true
is_open _ = false

abbrev pub is_pending : PredictionStatus → Bool
is_pending pending = true
is_pending _ = false

-- The INSERT does not name the columns result and appeal_deadline: a new row has them empty, and on a conflict
-- excluded.result is the default '', so the result is kept.
unfoldable pub insert_prediction : Prediction → Market → Market
insert_prediction p s =
    let fresh = record p { result = ""; appeal_deadline = "" } in
    record s {
      predictions = elim (find p.id s.predictions) [
        | none ↦ insert p.id fresh s.predictions
        | some old ↦
            insert p.id (record old { status = p.status; total_stake = p.total_stake })
              s.predictions
      ];
    }

abbrev pub scanned_prediction : Option Prediction → Option Prediction
scanned_prediction none = none
scanned_prediction (some p) = if is_scanned p.total_stake then some p else none

-- Every caller looks at the error: none also where the total is not read.
unfoldable pub get_prediction : String → Market → Option Prediction
get_prediction id s = scanned_prediction (find id s.predictions)

-- INSERT ... ON CONFLICT(id) DO NOTHING of a row that refers to a prediction.
abbrev insert_row : {V : Type 0} → String → String → V → Table V → Market → Option (Table V)
insert_row id prediction_id v t s =
    if contains id t
    then some t
    else if contains prediction_id s.predictions
    then some (insert id v t)
    else none

-- The stake is added to the total whether or not the bet was inserted.
unfoldable pub insert_prediction_bet : PredictionBet → Market → Market × Option StoreError
insert_prediction_bet b s = elim (insert_row b.id b.prediction_id b s.bets s) [
  | none ↦ (s, some constraint_failed)
  | some bets ↦ (
    record s {
      bets = bets;
      predictions =
          update b.prediction_id (λ p. record p { total_stake = p.total_stake +ℤ b.stake })
            s.predictions;
    },
    none,
  )
]

abbrev pub rows_where : {V : Type 0} → (V → Bool) → Table V → List V
rows_where p [] = []
rows_where p ((_, v) ∷ t) = if p v then v ∷ rows_where p t else rows_where p t

-- none where a stake is not read.
unfoldable pub list_prediction_bets : String → Market → Option (List PredictionBet)
list_prediction_bets id s =
    read_all (λ b. is_scanned b.stake) (rows_where (λ b. b.prediction_id == id) s.bets)

unfoldable pub insert_prediction_resolution :
    PredictionResolution → Market → Market × Option StoreError
insert_prediction_resolution r s = elim (insert_row r.id r.prediction_id r s.resolutions s) [
  | none ↦ (s, some constraint_failed)
  | some rows ↦ (record s { resolutions = rows }, none)
]

abbrev pub occurs : String → List String → Bool
occurs a [] = false
occurs a (b ∷ bs) = if b == a then true else occurs a bs

-- COUNT(DISTINCT ...)
abbrev pub count_distinct : List String → ℕ
count_distinct [] = 0
count_distinct (a ∷ as_) = if occurs a as_ then count_distinct as_ else suc (count_distinct as_)

abbrev pub texts : {V : Type 0} → (V → String) → List V → List String
texts f [] = []
texts f (v ∷ vs) = f v ∷ texts f vs

-- SELECT resolver_id FROM prediction_resolutions WHERE prediction_id = ? AND result = ?
abbrev pub resolvers : String → String → Market → List String
resolvers id result s =
    texts (λ r. r.resolver_id)
      (rows_where (λ r. (r.prediction_id == id) && (r.result == result)) s.resolutions)

unfoldable pub count_resolutions : String → String → Market → ℕ
count_resolutions id result s = count_distinct (resolvers id result s)

-- UPDATE ... WHERE id = ? AND status = ?
abbrev change_when :
    (PredictionStatus → Bool) → (Prediction → Prediction) → String → Market → Market
change_when test f id s = record s {
  predictions = update id (λ p. if test p.status then f p else p) s.predictions;
}

unfoldable pub resolve_prediction : String → String → Market → Market
resolve_prediction id result s =
    change_when is_open (λ p. record p { status = resolved; result = result }) id s

unfoldable pub set_pending_with_appeal : String → String → String → Market → Market
set_pending_with_appeal id result deadline s =
    change_when is_open
      (λ p. record p { status = pending; result = result; appeal_deadline = deadline }) id s

unfoldable pub insert_prediction_appeal : PredictionAppeal → Market → Market × Option StoreError
insert_prediction_appeal a s = elim (insert_row a.id a.prediction_id a s.appeals s) [
  | none ↦ (s, some constraint_failed)
  | some rows ↦ (record s { appeals = rows }, none)
]

-- SELECT appellant_id FROM prediction_appeals WHERE prediction_id = ?
abbrev pub appellants : String → Market → List String
appellants id s = texts (λ a. a.appellant_id) (rows_where (λ a. a.prediction_id == id) s.appeals)

unfoldable pub count_appeals : String → Market → ℕ
count_appeals id s = count_distinct (appellants id s)

-- DELETE ... WHERE prediction_id = ?
abbrev without : {V : Type 0} → (V → String) → String → Table V → Table V
without f id t = edit (λ _ v. if f v == id then none else some v) t

unfoldable pub revert_prediction_to_open : String → Market → Market
revert_prediction_to_open id s =
    let reopened =
      change_when is_pending (λ p. record p { status = open_; result = ""; appeal_deadline = "" })
        id s in
    record reopened {
      resolutions = without (λ r. r.prediction_id) id s.resolutions;
      appeals = without (λ a. a.prediction_id) id s.appeals;
    }

-- SQLite compares texts byte by byte.
abbrev pub text_le : String → String → Bool
text_le a b = elim (compare a b) [ Ordering.gt ↦ false | _ ↦ true ]

-- `now` is datetime('now'), such as "2026-01-31 12:00:00"; none where one of the totals is not read.
unfoldable pub list_expired_pending_predictions : String → Market → Option (List Prediction)
list_expired_pending_predictions now s =
    read_all (λ p. is_scanned p.total_stake)
      (rows_where
        (λ p. is_pending p.status && not (p.appeal_deadline == "") && text_le p.appeal_deadline now)
        s.predictions)
