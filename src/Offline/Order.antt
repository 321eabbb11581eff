-- ===== src/Offline/Order.antt =====
-- What the order of the queue looks at.
use claw_net.Base.{
  ℕ, zero, suc, ◌≡◌, ◌∙◌, refl, ap, String, some, [], ◌∷◌, map, take, select, Bool-cases,
  Option-cases, inl, inr, ◌==◌, ◌≢◌, text_same,
}
use claw_net.Base.Table.{find, insert, update, find-insert_ne}
use claw_net.Offline.{
  PendingOp, Queue, is_pending, text_lt, insert_by_time, by_time, list_pending_ops, set_failed,
  mark_pending_op_failed,
}

-- An operation but for its failures so far.
abbrev pub fresh : PendingOp → PendingOp
fresh op = record op { retries = 0; error = "" }

abbrev pub fresh_row : String × PendingOp → String × PendingOp
fresh_row (id, op) = (id, fresh op)

-- Two queues that differ only in the failures of their operations.
abbrev pub fresh_rows : Queue → Queue
fresh_rows q = map fresh_row q

fresh_rows-insert_by_time :
    (r : String × PendingOp) (q : Queue)
    → fresh_rows (insert_by_time r q) ≡ insert_by_time (fresh_row r) (fresh_rows q)
fresh_rows-insert_by_time r [] = refl
fresh_rows-insert_by_time r (s ∷ q) = elim (Bool-cases (text_lt s.1.created_at r.1.created_at)) [
  | inl e ↦ rw (e, insert_by_time) (ap (λ l. fresh_row s ∷ l) (fresh_rows-insert_by_time r q))
  | inr e ↦ rw (e, insert_by_time) refl
]

fresh_rows-by_time : (q : Queue) → fresh_rows (by_time q) ≡ by_time (fresh_rows q)
fresh_rows-by_time [] = refl
fresh_rows-by_time (r ∷ q) =
    fresh_rows-insert_by_time r (by_time q)
    ∙ ap (insert_by_time (fresh_row r)) (fresh_rows-by_time q)

abbrev waiting : Queue → Queue
waiting q = select (λ r. is_pending r.1.status) q

fresh_rows-waiting : (q : Queue) → fresh_rows (waiting q) ≡ waiting (fresh_rows q)
fresh_rows-waiting [] = refl
fresh_rows-waiting (r ∷ q) = elim (Bool-cases (is_pending r.1.status)) [
  | inl e ↦ rw (select, e) (ap (λ l. fresh_row r ∷ l) (fresh_rows-waiting q))
  | inr e ↦ rw (select, e) (fresh_rows-waiting q)
]

fresh_rows-take : (n : ℕ) (q : Queue) → fresh_rows (take n q) ≡ take n (fresh_rows q)
fresh_rows-take zero q = refl
fresh_rows-take (suc n) [] = refl
fresh_rows-take (suc n) (r ∷ q) = ap (λ l. fresh_row r ∷ l) (fresh_rows-take n q)

-- The list of what is tried next depends on nothing but that.
pub fresh_rows-list_pending_ops :
    (q : Queue) → fresh_rows (list_pending_ops q) ≡ list_pending_ops (fresh_rows q)
unfolding list_pending_ops
fresh_rows-list_pending_ops q =
    fresh_rows-take 100 (by_time (waiting q))
    ∙ ap (take 100) (fresh_rows-by_time (waiting q) ∙ ap by_time (fresh_rows-waiting q))

fresh_rows-insert :
    (id : String) (op new : PendingOp) (q : Queue)
    → find id q ≡ some op
    → fresh new ≡ fresh op
    → fresh_rows (insert id new q) ≡ fresh_rows q
unfolding insert find
fresh_rows-insert id op new [] h e = cc h
fresh_rows-insert id op new ((j, o) ∷ q) h e = elim (Bool-cases (j == id)) [
  | inl same ↦
      let found : some o ≡ some op = rw same at h in
      let o-is : o ≡ op = cc found in
      rw same (rw (text_same j id same, o-is) (ap (λ x. (id, x) ∷ fresh_rows q) e))
  | inr other ↦
      let found : find id q ≡ some op = rw other at h in
      rw other (ap (λ l. (j, fresh o) ∷ l) (fresh_rows-insert id op new q found e))
]

pub fresh_rows-mark_failed :
    (id message : String) (q : Queue)
    → fresh_rows (mark_pending_op_failed id message q) ≡ fresh_rows q
unfolding mark_pending_op_failed
fresh_rows-mark_failed id message q = elim (Option-cases (find id q)) [
  | inl e ↦ rw (update, e) refl
  | inr (op, e) ↦ rw (update, e) (fresh_rows-insert id op (set_failed message op) q e refl)
]

pub find-mark_failed :
    (id j message : String) (q : Queue)
    → id ≢ j
    → find j (mark_pending_op_failed id message q) ≡ find j q
unfolding mark_pending_op_failed
find-mark_failed id j message q h = elim (Option-cases (find id q)) [
  | inl e ↦ rw (update, e) refl
  | inr (op, e) ↦ rw (update, e) (find-insert_ne id j (set_failed message op) q h)
]
